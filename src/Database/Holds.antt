-- ===== src/Database/Holds.antt =====
-- All the lists of one kind in the object table of server/db_objects.c at once: which list each
-- object owns, and what LL_REMOVE and LL_APPEND make of them.
use mathlib.Core.Path.{subst}
use waverous.Base.{
  ℕ, ◌+◌, ◌≤◌, ◌<◌, ◌≡◌, refl, ap, sym, ◌∙◌, inl, inr, true, false, Option, none, some, ℤ, pos,
  negsuc, eqz, eqz_iff, List, [], ◌∷◌, ◌++◌, arith, length, if◌then◌else◌, Bool-cases,
}
use waverous.Database.{Object, Db, find_object, valid, is_some}
use waverous.Database.Chains.{
  has, upd_ne, first, Linked, Linked-frame, Linked-Distinct, erase, has-append, not-has-erase,
  erase_absent, length-le-bound,
}
use waverous.Database.Run
use waverous.Database.Run.{Run, Cmd, Returns}
use waverous.Database.Links.{Links, ll_remove, ll_append}
use waverous.Database.Wiring.{strip_option, nexts, heads, Same}
use waverous.Database.Splice.{Linked-next}
use waverous.Database.Rewired.{Rewired, ll_remove-Rewired, ll_append-Rewired}

-- Which items the list of each object holds, in order.
abbrev pub Owned : Type 0
Owned = ℤ → List ℤ

module _ (k : Links) where
  pub record Holds (db : Db) (l : Owned) : Type 0 where
    pub heads_eq : (o : ℤ) → valid db o ≡ true → heads k db o ≡ some (first (l o))
    pub linked : (o : ℤ) → Linked (nexts k db) (l o)
    pub apart : (x o p : ℤ) → has x (l o) ≡ true → has x (l p) ≡ true → o ≡ p
    pub unowned : (o : ℤ) → valid db o ≡ false → l o ≡ []

  is_some-strip : (q : Option Object) → is_some (strip_option k q) ≡ is_some q
  is_some-strip none = refl
  is_some-strip (some o) = refl

  pub valid-Same : {db g : Db} (a : ℤ) → Same k db g → valid g a ≡ valid db a
  unfolding valid
  valid-Same {db} {g} a s =
      sym (is_some-strip (find_object g a))
      ∙ ap is_some (s.strips a)
      ∙ is_some-strip (find_object db a)

  -- The list of an object has at most as many items as there are objects.
  pub length-Holds : {db : Db} {l : Owned} (o : ℤ) → Holds db l → length (l o) ≤ db.num_objects
  unfolding find_object
  length-Holds {db} {l} o h =
      length-le-bound db.num_objects (l o) (Linked-Distinct (nexts k db) (l o) (h.linked o))
        λ a i. inside a (Linked-next (nexts k db) a (l o) (h.linked o) i)
    where
      inside :
          (a : ℤ) → (r : ℤ) × (nexts k db a ≡ some r) → (m : ℕ) × (a ≡ pos m) × (m < db.num_objects)
      inside (pos m) (r, e) = (m, refl, ground arith)
      inside (negsuc m) (r, e) = cc

  pub Holds-ext : {db : Db} {l m : Owned} → ((o : ℤ) → l o ≡ m o) → Holds db l → Holds db m
  Holds-ext {db} {l} {m} e h = subst (λ f. Holds db f) (λ i o. e o i) h

  -- A change of one owner's list, where its new items are in no other list.
  pub Holds-Rewired :
      {db g : Db} {l : Owned} {owner : ℤ} {ys touched : List ℤ}
      → Holds db l
      → valid db owner ≡ true
      → Rewired k owner ys touched db g
      → ((b o : ℤ) → eqz o owner ≡ false → has b (l o) ≡ true → has b touched ≡ false)
      → ((b : ℤ) → has b ys ≡ true → has b touched ≡ true)
      → Holds g (λ o. if eqz o owner then ys else l o)
  Holds-Rewired {db} {g} {l} {owner} {ys} {touched} h v w free sub = record {
    heads_eq = λ o v'. elim (Bool-cases (eqz o owner)) [
      | inl t ↦ rw t (w.heads_eq o ∙ rw t)
      | inr f ↦ rw f (
          w.heads_eq o
          ∙ upd_ne (heads k db) owner (some (first ys)) o f
          ∙ h.heads_eq o (sym (valid-Same o w.same) ∙ v'))
    ];
    linked = λ o. elim (Bool-cases (eqz o owner)) [
      | inl t ↦ rw t w.linked
      | inr f ↦ rw f (Linked-frame (l o) (λ b i. w.outside b (free b o f i)) (h.linked o))
    ];
    apart = λ x o p i j. elim (Bool-cases (eqz o owner)) [
      | inl t ↦ elim (Bool-cases (eqz p owner)) [
        | inl u ↦ (eqz_iff o owner).0 t ∙ sym ((eqz_iff p owner).0 u)
        | inr n ↦ cc (sub x (rw t at i), free x p n (rw n at j))
      ]
      | inr f ↦ elim (Bool-cases (eqz p owner)) [
        | inl u ↦ cc (sub x (rw u at j), free x o f (rw f at i))
        | inr n ↦ h.apart x o p (rw f at i) (rw n at j)
      ]
    ];
    unowned = λ o n. elim (Bool-cases (eqz o owner)) [
      | inl t ↦ cc (ap (valid db) ((eqz_iff o owner).0 t), valid-Same o w.same)
      | inr f ↦ rw f (h.unowned o (sym (valid-Same o w.same) ∙ n))
    ];
  }

  -- LL_REMOVE takes the item out of the only list that has it.
  pub ll_remove-Holds :
      {db : Db} {l : Owned} (owner a : ℤ)
      → Holds db l
      → valid db owner ≡ true
      → has a (l owner) ≡ true
      → Returns
          (λ _ g. Holds g (λ o. erase a (l o)) × Same k db g)
          (ll_remove k (db.num_objects + 1) owner a db)
  ll_remove-Holds {db} {l} owner a h v i =
      Run.mono
        (ll_remove-Rewired k db (db.num_objects + 1) owner a (l owner) (h.heads_eq owner v)
          (h.linked owner) i (omega (arith, length-Holds owner h)))
        λ _ g w.
          (Holds-ext (λ o. only o) (Holds-Rewired h v w (λ b o. free b o) (λ b. kept b)), w.same)
    where
      only : (o : ℤ) → (if eqz o owner then erase a (l owner) else l o) ≡ erase a (l o)
      only o = elim (Bool-cases (eqz o owner)) [
        | inl t ↦ rw t (ap (λ q. erase a (l q)) (sym ((eqz_iff o owner).0 t)))
        | inr f ↦ rw f (sym (erase_absent a (l o) (elsewhere o f)))
      ]
        where
          elsewhere : (q : ℤ) → eqz q owner ≡ false → has a (l q) ≡ false
          elsewhere q f = elim (Bool-cases (has a (l q))) [
            | inl j ↦ cc ((eqz_iff q owner).1 (h.apart a q owner j i))
            | inr n ↦ n
          ]

      free : (b o : ℤ) → eqz o owner ≡ false → has b (l o) ≡ true → has b (l owner) ≡ false
      free b o f j = elim (Bool-cases (has b (l owner))) [
        | inl u ↦ cc ((eqz_iff o owner).1 (h.apart b o owner j u))
        | inr n ↦ n
      ]

      kept : (b : ℤ) → has b (erase a (l owner)) ≡ true → has b (l owner) ≡ true
      kept b j = elim (Bool-cases (has b (l owner))) [
        | inl u ↦ u
        | inr n ↦ cc (not-has-erase a b (l owner) n)
      ]

  -- LL_APPEND puts an item that is in no list behind the last of the owner's list.
  pub ll_append-Holds :
      {db : Db} {l : Owned} (owner a r : ℤ)
      → Holds db l
      → valid db owner ≡ true
      → nexts k db a ≡ some r
      → ((o : ℤ) → has a (l o) ≡ false)
      → Returns
          (λ _ g. Holds g (λ o. if eqz o owner then l owner ++ a ∷ [] else l o) × Same k db g)
          (ll_append k (db.num_objects + 1) owner a db)
  ll_append-Holds {db} {l} owner a r h v e out =
      Run.mono
        (ll_append-Rewired k db (db.num_objects + 1) owner a r (l owner) (h.heads_eq owner v)
          (h.linked owner) (out owner) e (omega (arith, length-Holds owner h)))
        λ _ g w. (Holds-Rewired h v w (λ b o. free b o) (λ b i. i), w.same)
    where
      free :
          (b o : ℤ) → eqz o owner ≡ false → has b (l o) ≡ true → has b (l owner ++ a ∷ []) ≡ false
      free b o f j = rw (has-append a b (l owner)) (elim (Bool-cases (has b (l owner))) [
        | inl u ↦ cc ((eqz_iff o owner).1 (h.apart b o owner j u))
        | inr n ↦ rw n (elim (Bool-cases (eqz b a)) [
          | inl t ↦ cc (ap (λ q. has q (l o)) ((eqz_iff b a).0 t), out o)
          | inr m ↦ m
        ])
      ])

  -- What the lists say depends on the links alone.
  pub Holds-transport :
      {db g : Db} {l : Owned}
      → ((a : ℤ) → nexts k g a ≡ nexts k db a)
      → ((a : ℤ) → heads k g a ≡ heads k db a)
      → ((a : ℤ) → valid g a ≡ valid db a)
      → Holds db l
      → Holds g l
  Holds-transport {db} {g} {l} n e v h = record {
    heads_eq = λ o w. e o ∙ h.heads_eq o (sym (v o) ∙ w);
    linked = λ o. Linked-frame (l o) (λ a i. n a) (h.linked o);
    apart = h.apart;
    unowned = λ o w. h.unowned o (sym (v o) ∙ w);
  }
