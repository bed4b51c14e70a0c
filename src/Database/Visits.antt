-- ===== src/Database/Visits.antt =====
-- The loops of server/db_objects.c that run through the children or the contents of an object.
use waverous.Base.{
  ℕ, zero, suc, ◌+◌, ◌<◌, ◌≡◌, refl, ap, ◌∙◌, inl, inr, Bool, true, false, ℤ, List, [], ◌∷◌, arith,
  length, if◌then◌else◌, Bool-cases,
}
use waverous.Base.Int.{eqz_refl}
use waverous.Database.{Db, valid}
use waverous.Database.Chains.{first, Linked}
use waverous.Database.Run.{ok, pure}
use waverous.Database.Links.{Links}
use waverous.Database.Wiring.{nexts}
use waverous.Database.Splice.{object-ok, find_next, find_head, not_nothing}
use waverous.Database.Holds.{Owned, Holds, length-Holds}
use waverous.Database.Objects.{count_loop, count_items, for_all_loop, for_all_items}

-- The callback on one item after the other, until it says to stop.
unfoldable pub visit : {D : Type 0} → (D → ℤ → D × Bool) → D → List ℤ → D × Bool
visit func d [] = (d, false)
visit func d (x ∷ xs) =
    let rest = visit func (func d x).0 xs in if (func d x).1 then ((func d x).0, true) else rest

module _ (k : Links) (db : Db) where
  count_loop-length :
      (fuel i : ℕ) (xs : List ℤ)
      → Linked (nexts k db) xs
      → length xs < fuel
      → count_loop k fuel (first xs) i db ≡ ok (i + length xs) db
  unfolding count_loop
  count_loop-length zero i xs l h = absurd (omega arith)
  count_loop-length (suc fuel) i [] l h = rw eqz_refl (ap (λ n. ok n db) (omega arith))
  count_loop-length (suc fuel) i (x ∷ xs) l h =
      let (o, e, n) = find_next k db x (first xs) l.0 in
      rw (not_nothing k db x l.0, object-ok db x e, n)
        (count_loop-length fuel (i + 1) xs l.2 (omega arith) ∙ ap (λ n. ok n db) (omega arith))

  for_all_loop-visit :
      {D : Type 0} (func : D → ℤ → D × Bool) (fuel : ℕ) (d : D) (xs : List ℤ)
      → Linked (nexts k db) xs
      → length xs < fuel
      → for_all_loop k (λ a c. pure (func a c)) fuel (first xs) d db ≡ ok (visit func d xs) db
  unfolding for_all_loop visit
  for_all_loop-visit func zero d xs l h = absurd (omega arith)
  for_all_loop-visit func (suc fuel) d [] l h = rw eqz_refl refl
  for_all_loop-visit func (suc fuel) d (x ∷ xs) l h =
      let (o, e, n) = find_next k db x (first xs) l.0 in
      rw (not_nothing k db x l.0, object-ok db x e, n)
        (elim (Bool-cases (func d x).1) [
          | inl t ↦ rw t refl
          | inr f ↦ rw f (for_all_loop-visit func fuel (func d x).0 xs l.2 (omega arith))
        ])

  module _ {l : Owned} (h : Holds k db l) (oid : ℤ) (v : valid db oid ≡ true) where
    -- If the links spell out a list for each object, counting the children or the contents of an
    -- object that is there ends with the length of its list.
    pub count_items-length : count_items k oid db ≡ ok (length (l oid)) db
    unfolding count_items
    count_items-length =
        let (o, e, n) = find_head k db oid (first (l oid)) (h.heads_eq oid v) in
        rw (object-ok db oid e, n)
          (count_loop-length (db.num_objects + 1) 0 (l oid) (h.linked oid)
              (omega (arith, length-Holds k oid h))
            ∙ ap (λ n. ok n db) (omega arith))

    -- If the links spell out a list for each object, the loop over the children or the contents of
    -- an object that is there ends; the callback is called on the items of the object's list, in
    -- order, until it says to stop.
    pub for_all_items-visit :
        {D : Type 0} (func : D → ℤ → D × Bool) (d : D)
        → for_all_items k (λ a c. pure (func a c)) oid d db ≡ ok (visit func d (l oid)) db
    unfolding for_all_items
    for_all_items-visit func d =
        let (o, e, n) = find_head k db oid (first (l oid)) (h.heads_eq oid v) in
        rw (object-ok db oid e, n)
          (for_all_loop-visit func (db.num_objects + 1) d (l oid) (h.linked oid)
            (omega (arith, length-Holds k oid h)))
