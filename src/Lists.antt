-- ===== src/Lists.antt =====
-- The list and string operations of server/list.c on values. Lists and strings are immutable to the
-- language: an operation that writes in place where it holds the only reference gives the value
-- that a copy would give.
pub mod Laws
pub mod Members
use waverous.Base.{
  ℕ, zero, suc, ◌+◌, ◌-◌, ◌≤◌, Bool, true, false, Option, none, some, ℤ, pos, negsuc, List, [], ◌∷◌,
  ◌++◌, leb, ltb, ◌==◌, if◌then◌else◌, length, take, drop, get_elem?,
}
use waverous.Values.{Var}
use waverous.Equality.{equality}

module _ {ℓ} {A : Type ℓ} where
  -- `doinsert(list, value, pos)`: the items in front of place `pos`, the value, the rest.
  unfoldable pub doinsert : List A → A → ℕ → List A
  doinsert l v at = take (at - 1) l ++ v ∷ drop (at - 1) l

  unfoldable pub listinsert : List A → A → ℤ → List A
  unfolding doinsert
  listinsert l v (negsuc n) = doinsert l v 1
  listinsert l v (pos at) =
      doinsert l v (if leb at 0 then 1 else if ltb (length l) at then length l + 1 else at)

  unfoldable pub listappend : List A → A → List A
  unfolding doinsert
  listappend l v = doinsert l v (length l + 1)

  -- For a place from 1 on; one behind the end deletes nothing.
  unfoldable pub listdelete : List A → ℕ → List A
  listdelete l at = take (at - 1) l ++ drop at l

  unfoldable pub listset : List A → A → ℕ → List A
  listset [] v at = []
  listset (x ∷ l) v zero = x ∷ l
  listset (x ∷ l) v (suc zero) = v ∷ l
  listset (x ∷ l) v (suc (suc n)) = x ∷ listset l v (suc n)

  unfoldable pub listconcat : List A → List A → List A
  listconcat first second = first ++ second

  -- `listrangeset` and `strrangeset`, for bounds that are not negative.
  unfoldable pub rangeset : List A → (from to : ℕ) → List A → List A
  rangeset base from to value =
      take (if ltb 1 from then from - 1 else 0) base ++ (value ++ drop to base)

  -- `sublist` and `substr`, for bounds inside the list.
  unfoldable pub sublist : List A → (lower upper : ℕ) → List A
  sublist l lower upper =
      if ltb upper lower then [] else take (upper + 1 - lower) (drop (lower - 1) l)

module _ (feq : ℕ → ℕ → Bool) where
  -- The place of the first item that is equal to the value, 0 if there is none; `none` is a panic.
  unfoldable pub member_loop : ℕ → Var → List Var → Bool → Option ℕ
  member_loop i v [] cm = some 0
  member_loop i v (w ∷ l) cm =
      let rest = member_loop (i + 1) v l cm in
      elim (equality feq cm v w) [ none ↦ none | some true ↦ some i | some false ↦ rest ]

  unfoldable pub ismember : Var → List Var → Bool → Option ℕ
  unfolding member_loop
  ismember v l cm = member_loop 1 v l cm

  abbrev unless_member : Option ℕ → List Var → List Var → Option (List Var)
  unless_member none old new = none
  unless_member (some zero) old new = some new
  unless_member (some (suc i)) old new = some old

  unfoldable pub setadd : List Var → Var → Option (List Var)
  unfolding ismember listappend
  setadd l v = unless_member (ismember v l false) l (listappend l v)

  abbrev without_member : Option ℕ → List Var → Option (List Var)
  without_member none l = none
  without_member (some zero) l = some l
  without_member (some (suc i)) l = some (listdelete l (suc i))

  unfoldable pub setremove : List Var → Var → Option (List Var)
  unfolding ismember listdelete
  setremove l v = without_member (ismember v l false) l
