-- ===== src/Database/Splice.antt =====
-- LL_REMOVE and LL_APPEND of server/db_objects.c as operations on one linked list.
use waverous.Base.{
  ℕ, zero, suc, ◌≤◌, ◌<◌, ◌≡◌, refl, ap, sym, ◌∙◌, inl, inr, true, false, Option, none, some, ℤ,
  pos, negsuc, eqz, eqz_iff, List, [], ◌∷◌, arith, length, Bool-cases,
}
use mathlib.Core.Path.{subst}
use waverous.Base.Int.{eqz_refl}
use waverous.Database.{Object, Db, find_object}
use waverous.Database.Chains.{nothing, has, Table, upd, first, Linked, before, last}
use waverous.Database.Run
use waverous.Database.Run.{Run, Cmd, ok, Returns, returns, object, store, modify, ◌>>=◌, ◌>>◌}
use waverous.Database.Links.{Links, remove_loop, append_loop}
use waverous.Database.Wiring.{
  nexts, heads, Same-trans, Effect, Effect-set_next, next_of, next_option, head_option,
}

pub object-ok : (db : Db) {o : Object} (a : ℤ) → find_object db a ≡ some o → object a db ≡ ok o db
unfolding object
object-ok db a h = rw (h, object)

pub has_rest : (a y : ℤ) (ys : List ℤ) → has a (y ∷ ys) ≡ true → eqz y a ≡ false → has a ys ≡ true
has_rest a y ys h f = ground (arith, eqz_iff y a, eqz_iff a y)

pub upd_cong : (f g : Table) (a : ℤ) (v : Option ℤ) (b : ℤ) → f b ≡ g b → upd f a v b ≡ upd g a v b
upd_cong f g a v b e = elim (Bool-cases (eqz b a)) [ inl t ↦ rw t | inr f ↦ rw f e ]

pub Linked-next :
    (f : Table) (a : ℤ) (xs : List ℤ) → Linked f xs → has a xs ≡ true → (r : ℤ) × (f a ≡ some r)
Linked-next f a [] l h = cc
Linked-next f a (x ∷ xs) l h = elim (Bool-cases (eqz a x)) [
  | inl t ↦ (first xs, ap f ((eqz_iff a x).0 t) ∙ l.0)
  | inr n ↦ Linked-next f a xs l.2 (ground arith)
]

module _ (k : Links) where
  -- An object whose link is known.
  pub find_next :
      (db : Db) (a r : ℤ)
      → nexts k db a ≡ some r
      → (o : Object) × (find_object db a ≡ some o) × (k.next o ≡ r)
  find_next db a r e = go (find_object db a) refl
    where
      go :
          (q : Option Object)
          → find_object db a ≡ q
          → (o : Object) × (find_object db a ≡ some o) × (k.next o ≡ r)
      go none h = let p : none ≡ some r = sym (ap (next_option k) h) ∙ e in cc
      go (some o) h = (o, h, next_of k db a h r e)

  pub find_head :
      (db : Db) (a r : ℤ)
      → heads k db a ≡ some r
      → (o : Object) × (find_object db a ≡ some o) × (k.head o ≡ r)
  find_head db a r e = go (find_object db a) refl
    where
      go :
          (q : Option Object)
          → find_object db a ≡ q
          → (o : Object) × (find_object db a ≡ some o) × (k.head o ≡ r)
      go none h = let p : none ≡ some r = sym (ap (head_option k) h) ∙ e in cc
      go (some o) h =
          let p : some (k.head o) ≡ some r = sym (ap (head_option k) h) ∙ e in (o, h, cc)

  pub not_nothing : (db : Db) (a : ℤ) {r : ℤ} → nexts k db a ≡ some r → eqz a nothing ≡ false
  unfolding find_object eqz
  not_nothing db (pos n) e = refl
  not_nothing db (negsuc n) e = cc

  pub remove_loop-Effect :
      (db : Db) (fuel : ℕ) (a x r : ℤ) (ys : List ℤ)
      → has a ys ≡ true
      → nexts k db a ≡ some r
      → Linked (nexts k db) (x ∷ ys)
      → length ys ≤ fuel
      → Returns
          (λ _ g. Effect k (upd (nexts k db) (before a x ys) (some r)) (heads k db) db g)
          (remove_loop k fuel x a db)
  unfolding remove_loop
  remove_loop-Effect db fuel a x r [] h e l m = cc
  remove_loop-Effect db zero a x r (y ∷ ys) h e l m = absurd (omega arith)
  remove_loop-Effect db (suc fuel) a x r (y ∷ ys) h e l m =
      let (o, ho, eo) = find_next db x y l.0 in
      let (w, hw, ew) = find_next db a r e in
      rw (not_nothing db x l.0, object-ok db x ho, eo)
        (elim (Bool-cases (eqz y a)) [
          | inl t ↦
              rw (t, object-ok db a hw, ew)
                (returns (at x (unfold_here t) (Effect-set_next k db x ho r)))
          | inr f ↦ rw f (
              Run.mono
                (remove_loop-Effect db fuel a y r ys (has_rest a y ys h f) e l.2 (omega arith))
                λ _ g. at (before a y ys) (unfold_there f))
        ])
    where
      unfold_here : eqz y a ≡ true → before a x (y ∷ ys) ≡ x
      unfold_here t = ground (arith, eqz_iff y a, eqz_iff a y)

      unfold_there : eqz y a ≡ false → before a x (y ∷ ys) ≡ before a y ys
      unfold_there f = ground (arith, eqz_iff y a, eqz_iff a y)

      at :
          (q : ℤ) {g : Db}
          → before a x (y ∷ ys) ≡ q
          → Effect k (upd (nexts k db) q (some r)) (heads k db) db g
          → Effect k (upd (nexts k db) (before a x (y ∷ ys)) (some r)) (heads k db) db g
      at q {g} p = subst (λ z. Effect k (upd (nexts k db) z (some r)) (heads k db) db g) (sym p)

  pub append_loop-Effect :
      (db : Db) (fuel : ℕ) (a x : ℤ) (ys : List ℤ)
      → Linked (nexts k db) (x ∷ ys)
      → length ys < fuel
      → Returns
          (λ _ g. Effect k (upd (nexts k db) (last x ys) (some a)) (heads k db) db g)
          (append_loop k fuel x a db)
  unfolding append_loop
  append_loop-Effect db zero a x ys l m = absurd (omega arith)
  append_loop-Effect db (suc fuel) a x [] l m =
      let (o, ho, eo) = find_next db x nothing l.0 in
      rw (object-ok db x ho, eo, eqz_refl) (returns (Effect-set_next k db x ho a))
  append_loop-Effect db (suc fuel) a x (y ∷ ys) l m =
      let (o, ho, eo) = find_next db x y l.0 in
      rw (object-ok db x ho, eo, not_nothing db y l.2.0)
        (append_loop-Effect db fuel a y ys l.2 (omega arith))

  -- The last line of both macros, after a loop with a known effect.
  pub detach :
      (db m : Db) (a r : ℤ) (f h : Table)
      → Effect k f h db m
      → f a ≡ some r
      → Returns
          (λ _ g. Effect k (upd f a (some nothing)) h db g)
          (modify a (λ w. k.set_next w nothing) m)
  detach db m a r f h e d =
      let (o, ho, eo) = find_next m a r (e.nexts_eq a ∙ d) in
      let w = Effect-set_next k m a ho nothing in
      rw (object-ok m a ho) (
        returns (record {
          nexts_eq = λ b. w.nexts_eq b ∙ upd_cong (nexts k m) f a (some nothing) b (e.nexts_eq b);
          heads_eq = λ b. w.heads_eq b ∙ e.heads_eq b;
          same = Same-trans k e.same w.same;
        }))
