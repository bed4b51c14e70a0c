-- ===== src/Lists/Members.antt =====
-- `ismember`, `setadd` and `setremove` of server/list.c: lists as sets.
use waverous.Base.{ℕ, ◌+◌, ◌≡◌, ◌⊎◌, Bool, true, false, some, List, [], ◌∷◌}
use waverous.Values.{Var}
use waverous.Equality.{equality}

module _ (feq : ℕ → ℕ → Bool) where
  -- Of the items of the list none is equal to the value, or the result is the place of the first
  -- that is, counted from `i`.
  abbrev pub FirstMember : ℕ → Var → List Var → Bool → ℕ → Type 0
  FirstMember i v [] cm n = n ≡ 0
  FirstMember i v (w ∷ l) cm n =
      ((equality feq cm v w ≡ some true) × (n ≡ i))
      ⊎ ((equality feq cm v w ≡ some false) × FirstMember (i + 1) v l cm n)
