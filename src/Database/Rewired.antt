-- ===== src/Database/Rewired.antt =====
-- LL_REMOVE and LL_APPEND of server/db_objects.c as operations on the list of one owner.
use mathlib.Core.Path.{subst}
use waverous.Base.{
  ℕ, ◌≤◌, ◌≡◌, refl, ap, sym, ◌∙◌, inl, inr, true, false, some, ℤ, eqz, eqz_iff, List, [], ◌∷◌,
  ◌++◌, arith, length, Bool-cases,
}
use waverous.Base.Int.{eqz_refl}
use waverous.Database.{Object, Db, find_object}
use waverous.Database.Chains.{
  nothing, has, upd, first, Linked, erase, before, last, Linked-erase, Linked-append, Linked-frame,
  has_ne, Linked-upd, has-before, has-last, erase-head, erase-tail, upd_ne, upd_same,
  has-erase_self, has-append,
}
use waverous.Database.Run
use waverous.Database.Run.{Run, Cmd, ok, Returns, returns, object, store, modify, ◌>>=◌, ◌>>◌}
use waverous.Database.Links.{Links, ll_remove, ll_append}
use waverous.Database.Wiring.{nexts, heads, Same, Effect, Effect-set_head}
use waverous.Database.Splice.{
  object-ok, Linked-next, has_rest, find_next, find_head, not_nothing, remove_loop-Effect,
  append_loop-Effect, detach,
}

module _ (k : Links) where
  -- The owner's list is now `ys`, and no item outside `touched` has another link than before.
  pub record Rewired (owner : ℤ) (ys touched : List ℤ) (db g : Db) : Type 0 where
    pub heads_eq : (b : ℤ) → heads k g b ≡ upd (heads k db) owner (some (first ys)) b
    pub linked : Linked (nexts k g) ys
    pub outside : (b : ℤ) → has b touched ≡ false → nexts k g b ≡ nexts k db b
    pub same : Same k db g

  module _ (db g : Db) (owner a x : ℤ) (xs : List ℤ) (e : heads k db owner ≡ some x)
      (l : Linked (nexts k db) (x ∷ xs)) where
    Rewired-first :
        eqz a x ≡ true
        → Effect k
            (upd (nexts k db) a (some nothing))
            (upd (heads k db) owner (some (first xs)))
            db
            g
        → Rewired owner (erase a (x ∷ xs)) (x ∷ xs) db g
    Rewired-first t w =
        subst (λ ys. Rewired owner ys (x ∷ xs) db g) (sym (erase-head a x xs t))
          (record {
            heads_eq = w.heads_eq;
            linked =
                Linked-frame xs (λ b h. w.nexts_eq b)
                  (Linked-upd (nexts k db) xs a (some nothing) (rw ((eqz_iff a x).0 t) l.1) l.2);
            outside = λ b out.
                w.nexts_eq b
                ∙ upd_ne (nexts k db) a (some nothing) b (has_ne b a (x ∷ xs) out (rw t));
            same = w.same;
          })

    Rewired-later :
        (r : ℤ)
        → eqz a x ≡ false
        → has a xs ≡ true
        → nexts k db a ≡ some r
        → Effect k
            (upd (upd (nexts k db) (before a x xs) (some r)) a (some nothing))
            (heads k db)
            db
            g
        → Rewired owner (erase a (x ∷ xs)) (x ∷ xs) db g
    Rewired-later r f h d w =
        subst (λ ys. Rewired owner ys (x ∷ xs) db g) (sym (erase-tail a x xs f))
          (record {
            heads_eq = λ b. w.heads_eq b ∙ upd_same (heads k db) owner (some x) b e;
            linked =
                Linked-frame (x ∷ erase a xs) (λ b h. w.nexts_eq b)
                  (Linked-upd (upd (nexts k db) (before a x xs) (some r)) (x ∷ erase a xs) a
                    (some nothing) (rw (f, has-erase_self (nexts k db) a xs l.2))
                    (Linked-erase (nexts k db) a x xs (some r) f h d l));
            outside = λ b out.
                w.nexts_eq b
                ∙ upd_ne (upd (nexts k db) (before a x xs) (some r)) a (some nothing) b
                    (has_ne b a (x ∷ xs) out (rw f h))
                ∙ upd_ne (nexts k db) (before a x xs) (some r) b
                    (has_ne b (before a x xs) (x ∷ xs) out (has-before a x xs));
            same = w.same;
          })

  -- LL_REMOVE takes the item out of the owner's list.
  pub ll_remove-Rewired :
      (db : Db) (fuel : ℕ) (owner a : ℤ) (xs : List ℤ)
      → heads k db owner ≡ some (first xs)
      → Linked (nexts k db) xs
      → has a xs ≡ true
      → length xs ≤ fuel
      → Returns (λ _ g. Rewired owner (erase a xs) xs db g) (ll_remove k fuel owner a db)
  unfolding ll_remove
  ll_remove-Rewired db fuel owner a [] e l h m = cc
  ll_remove-Rewired db fuel owner a (x ∷ xs) e l h m =
      let (o, ho, eo) = find_head k db owner x e in
      let (r, d) = Linked-next (nexts k db) a (x ∷ xs) l h in
      rw (object-ok db owner ho, eo)
        (elim (Bool-cases (eqz x a)) [
          | inl t ↦ rw t (at_head o r ho d t)
          | inr f ↦ rw f (
              Run.bind
                (remove_loop-Effect k db fuel a x r xs (has_rest a x xs h f) d l (omega arith))
                λ _ g w. Run.mono (detach k db g a r _ _ w (behind r d)) λ _ g' v.
                  Rewired-later db g' owner a x xs e l r (flip f) (has_rest a x xs h f) d v)
        ])
    where
      flip : eqz x a ≡ false → eqz a x ≡ false
      flip f = ground (arith, eqz_iff x a, eqz_iff a x)

      behind :
          (r : ℤ) → nexts k db a ≡ some r → upd (nexts k db) (before a x xs) (some r) a ≡ some r
      behind r d = elim (Bool-cases (eqz a (before a x xs))) [ inl t ↦ rw t | inr n ↦ rw n d ]

      at_head :
          (o : Object) (r : ℤ)
          → find_object db owner ≡ some o
          → nexts k db a ≡ some r
          → eqz x a ≡ true
          → Returns
              (λ _ g. Rewired owner (erase a (x ∷ xs)) (x ∷ xs) db g)
              (Run.and_then
                (Run.and_then (object a db) (λ w. store owner (k.set_head o (k.next w))))
                (λ _. modify a (λ w. k.set_next w nothing)))
      at_head o r ho d t =
          let (w, hw, ew) = find_next k db a r d in
          let at : x ≡ a = (eqz_iff x a).0 t in
          rw (object-ok db a hw, ew)
            (Run.mono (detach k db _ a r _ _ (Effect-set_head k db owner ho r) d) λ _ g v.
              let p : some r ≡ some (first xs) = sym d ∙ ap (nexts k db) (sym at) ∙ l.0 in
              let q : r ≡ first xs = cc in
              Rewired-first db g owner a x xs e l (ground (arith, eqz_iff x a, eqz_iff a x)) (
                subst
                  (λ z.
                    Effect k (upd (nexts k db) a (some nothing)) (upd (heads k db) owner (some z))
                      db g)
                  q v))

  module _ (db g : Db) (owner a : ℤ) where
    Rewired-only :
        Effect k (upd (nexts k db) a (some nothing)) (upd (heads k db) owner (some a)) db g
        → Rewired owner (a ∷ []) (a ∷ []) db g
    Rewired-only w = record {
      heads_eq = w.heads_eq;
      linked = (w.nexts_eq a ∙ (rw eqz_refl), refl, tt);
      outside = λ b out.
          w.nexts_eq b
          ∙ upd_ne (nexts k db) a (some nothing) b (has_ne b a (a ∷ []) out (rw eqz_refl));
      same = w.same;
    }

    Rewired-last :
        (x : ℤ) (xs : List ℤ)
        → heads k db owner ≡ some x
        → Linked (nexts k db) (x ∷ xs)
        → has a (x ∷ xs) ≡ false
        → Effect k (upd (upd (nexts k db) (last x xs) (some a)) a (some nothing)) (heads k db) db g
        → Rewired owner ((x ∷ xs) ++ a ∷ []) ((x ∷ xs) ++ a ∷ []) db g
    Rewired-last x xs e l h w = record {
      heads_eq = λ b. w.heads_eq b ∙ upd_same (heads k db) owner (some x) b e;
      linked =
          Linked-frame ((x ∷ xs) ++ a ∷ []) (λ b i. w.nexts_eq b)
            (Linked-append (nexts k db) a x xs h l);
      outside = λ b out.
          let (apart, ne) = outside_append b (x ∷ xs) out in
          w.nexts_eq b
          ∙ upd_ne (upd (nexts k db) (last x xs) (some a)) a (some nothing) b ne
          ∙ upd_ne (nexts k db) (last x xs) (some a) b
              (has_ne b (last x xs) (x ∷ xs) apart (has-last x xs));
      same = w.same;
    }
      where
        outside_append :
            (b : ℤ) (ys : List ℤ)
            → has b (ys ++ a ∷ []) ≡ false
            → (has b ys ≡ false) × (eqz b a ≡ false)
        outside_append b ys out = ground (arith, has-append a b ys)

  -- LL_APPEND puts the item behind the last of the owner's list.
  pub ll_append-Rewired :
      (db : Db) (fuel : ℕ) (owner a r : ℤ) (xs : List ℤ)
      → heads k db owner ≡ some (first xs)
      → Linked (nexts k db) xs
      → has a xs ≡ false
      → nexts k db a ≡ some r
      → length xs ≤ fuel
      → Returns
          (λ _ g. Rewired owner (xs ++ a ∷ []) (xs ++ a ∷ []) db g)
          (ll_append k fuel owner a db)
  unfolding ll_append
  ll_append-Rewired db fuel owner a r [] e l h d m =
      let (o, ho, eo) = find_head k db owner nothing e in
      rw (object-ok db owner ho, eo, eqz_refl)
        (Run.mono (detach k db _ a r _ _ (Effect-set_head k db owner ho a) d)
          λ _ g. Rewired-only db g owner a)
  ll_append-Rewired db fuel owner a r (x ∷ xs) e l h d m =
      let (o, ho, eo) = find_head k db owner x e in
      rw (object-ok db owner ho, eo, not_nothing k db x l.0)
        (Run.bind (append_loop-Effect k db fuel a x xs l (omega arith)) λ _ g w.
          Run.mono
            (detach k db g a r _ _ w (
              upd_ne (nexts k db) (last x xs) (some a) a
                (has_ne a (last x xs) (x ∷ xs) h (has-last x xs))
              ∙ d))
            λ _ g' v. Rewired-last db g' owner a x xs e l h v)
