-- ===== src/Equality/Laws.antt =====
-- What `equality` of server/utils.c decides.
use waverous.Base.{
  ℕ, ◌≡◌, ◌↔◌, refl, ap, Bool, true, false, Option, none, some, eqz_iff, [], ◌∷◌, arith,
}
use mathlib.Core.Path.{ap₂}
use waverous.Base.Int.{eqz_refl}
use waverous.Text.{CStr, streq}
use waverous.Values.{
  Var, int, obj, str, err, list, clear, unset, catch, finally, float, Vars, nil, cons, Error,
}
use waverous.Equality.{error_number, count_vars, same_text, and_then, equality, equality_items}

streq_iff : (s t : CStr) → (streq s t ≡ true) ↔ (s ≡ t)
unfolding streq
streq_iff [] [] = (λ _. refl, λ _. refl)
streq_iff [] (b ∷ t) = (λ h. cc, λ h. cc)
streq_iff (a ∷ s) [] = (λ h. cc, λ h. cc)
streq_iff (a ∷ s) (b ∷ t) = (ground (arith, (streq_iff s t).0), ground (arith, (streq_iff s t).1))

error_number-injective : (a b : Error) → error_number a ≡ error_number b → a ≡ b
unfolding error_number
error_number-injective a b h = ground arith

both_true : (a b : Option Bool) → and_then a b ≡ some true → (a ≡ some true) × (b ≡ some true)
both_true none b h = cc
both_true (some false) b h = cc
both_true (some true) b h = (refl, h)

-- A value with no float and no marker, at any depth.
abbrev mutual
  pub IsExact : Var → Type 0
  IsExact clear = ⊥
  IsExact unset = ⊥
  IsExact (catch n) = ⊥
  IsExact (finally n) = ⊥
  IsExact (float d) = ⊥
  IsExact (list l) = AreExact l
  IsExact (int n) = Unit
  IsExact (obj n) = Unit
  IsExact (str s) = Unit
  IsExact (err e) = Unit

  pub AreExact : Vars → Type 0
  AreExact nil = Unit
  AreExact (cons v vs) = IsExact v × AreExact vs

module _ (feq : ℕ → ℕ → Bool) where
  mutual
    unfolding equality count_vars same_text

    sound : (v w : Var) → IsExact v → equality feq true v w ≡ some true → v ≡ w
    sound (int a) (int b) u h = ground (arith, eqz_iff a b)
    sound (int a) _ u h = cc
    sound (obj a) (obj b) u h = ground (arith, eqz_iff a b)
    sound (obj a) _ u h = cc
    sound (str a) (str b) u h = ground (arith, (streq_iff a b).0)
    sound (str a) _ u h = cc
    sound (err a) (err b) u h = ap err (error_number-injective a b (ground arith))
    sound (err a) _ u h = cc
    sound (list a) (list b) u h = ap list (sound_items a b u (ground arith) (ground arith))
    sound (list a) _ u h = cc
    sound (float d) w u h = absurd u
    sound clear w u h = absurd u
    sound unset w u h = absurd u
    sound (catch n) w u h = absurd u
    sound (finally n) w u h = absurd u

    sound_items :
        (vs ws : Vars)
        → AreExact vs
        → count_vars vs ≡ count_vars ws
        → equality_items feq true vs ws ≡ some true
        → vs ≡ ws
    sound_items nil nil u n h = refl
    sound_items nil (cons w ws) u n h = absurd (omega arith)
    sound_items (cons v vs) nil u n h = absurd (omega arith)
    sound_items (cons v vs) (cons w ws) u n h =
        let both = both_true (equality feq true v w) (equality_items feq true vs ws) h in
        ap₂ cons (sound v w u.0 both.0) (sound_items vs ws u.1 (omega arith) both.1)

  mutual
    unfolding equality count_vars same_text

    complete : (v : Var) → IsExact v → equality feq true v v ≡ some true
    complete (int a) u = ap some (eqz_refl a)
    complete (obj a) u = ap some (eqz_refl a)
    complete (str a) u = ap some ((streq_iff a a).1 refl)
    complete (err a) u = ground arith
    complete (list a) u = ground (arith, complete_items a u)
    complete (float d) u = absurd u
    complete clear u = absurd u
    complete unset u = absurd u
    complete (catch n) u = absurd u
    complete (finally n) u = absurd u

    complete_items : (vs : Vars) → AreExact vs → equality_items feq true vs vs ≡ some true
    complete_items nil u = refl
    complete_items (cons v vs) u = rw (complete v u.0) (complete_items vs u.1)

  -- With case significant, and for a left value that has no float and no marker at any depth,
  -- `equality` answers 1 exactly if the two values are the same.
  pub equality_iff : (v w : Var) → IsExact v → (equality feq true v w ≡ some true) ↔ (v ≡ w)
  equality_iff v w u = (sound v w u, λ e. rw (← e) (complete v u))
