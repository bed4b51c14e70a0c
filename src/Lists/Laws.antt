-- ===== src/Lists/Laws.antt =====
-- How the operations of server/list.c undo one another.
use waverous.Base.{
  ℕ, zero, suc, ◌+◌, ◌-◌, ◌≤◌, ◌≡◌, refl, ap, ◌∙◌, false, pos, List, [], ◌∷◌, ◌++◌, arith, leb, ltb,
  if◌then◌else◌, length, take, drop, take-append,
}
use mathlib.Core.Path.{ap₂}
use waverous.Lists.{doinsert, listinsert, listdelete, rangeset, sublist}

module _ {ℓ} {A : Type ℓ} where
  take-drop : (n : ℕ) (l : List A) → take n l ++ drop n l ≡ l
  take-drop zero l = refl
  take-drop (suc n) [] = refl
  take-drop (suc n) (x ∷ l) = ap (λ m. x ∷ m) (take-drop n l)

  take_prefix : (n : ℕ) (l r : List A) → n ≤ length l → take n (take n l ++ r) ≡ take n l
  take_prefix zero l r h = refl
  take_prefix (suc n) [] r h = absurd (omega arith)
  take_prefix (suc n) (x ∷ l) r h = ap (λ m. x ∷ m) (take_prefix n l r (omega arith))

  drop_prefix : (n : ℕ) (l r : List A) → n ≤ length l → drop n (take n l ++ r) ≡ r
  drop_prefix zero l r h = refl
  drop_prefix (suc n) [] r h = absurd (omega arith)
  drop_prefix (suc n) (x ∷ l) r h = drop_prefix n l r (omega arith)

  drop_behind : (n : ℕ) (l r : List A) (x : A) → n ≤ length l → drop (suc n) (take n l ++ x ∷ r) ≡ r
  drop_behind zero l r x h = refl
  drop_behind (suc n) [] r x h = absurd (omega arith)
  drop_behind (suc n) (y ∷ l) r x h = drop_behind n l r x (omega arith)

  -- For a place from 1 to one past the end, `listdelete` where `listinsert` put a value gives the list
  -- back.
  pub listdelete-listinsert :
      (l : List A) (v : A) (at : ℕ)
      → 1 ≤ at
      → at ≤ length l + 1
      → listdelete (listinsert l v (pos at)) at ≡ l
  unfolding listdelete listinsert doinsert
  listdelete-listinsert l v zero h k = absurd (omega arith)
  listdelete-listinsert l v (suc at) h k =
      ap (λ n. delete_at (doinsert l v n)) place
      ∙ ap₂ (λ m n. take m (take n l ++ v ∷ drop n l) ++ drop (suc at) (take n l ++ v ∷ drop n l))
          less less
      ∙ restored
    where
      delete_at : List A → List A
      delete_at m = take (suc at - 1) m ++ drop (suc at) m

      less : suc at - 1 ≡ at
      less = omega arith

      place :
          (if leb (suc at) 0 then 1 else if ltb (length l) (suc at) then length l + 1 else suc at)
          ≡ suc at
      place = ground arith

      restored :
          take at (take at l ++ v ∷ drop at l) ++ drop (suc at) (take at l ++ v ∷ drop at l) ≡ l
      restored =
          ap₂ (λ a b. a ++ b) (take_prefix at l (v ∷ drop at l) (omega arith))
            (drop_behind at l (drop at l) v (omega arith))
          ∙ take-drop at l

  -- After a range that starts inside the list, or right behind it, was set to a value that is not
  -- empty, `sublist` reads the value back at that place.
  pub sublist-rangeset :
      (base value : List A) (from to : ℕ)
      → 1 ≤ from
      → from ≤ length base + 1
      → 1 ≤ length value
      → sublist (rangeset base from to value) from (from + length value - 1) ≡ value
  unfolding sublist rangeset
  sublist-rangeset base value from to h k m =
      rw (nonempty, left, count)
        (ap (take (length value))
            (drop_prefix (from - 1) base (value ++ drop to base) (omega arith))
          ∙ take-append value (drop to base))
    where
      nonempty : ltb (from + length value - 1) from ≡ false
      nonempty = ground arith

      left : (if ltb 1 from then from - 1 else 0) ≡ from - 1
      left = ground arith

      count : from + length value - 1 + 1 - from ≡ length value
      count = omega arith
