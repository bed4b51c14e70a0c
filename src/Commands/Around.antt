-- ===== src/Commands/Around.antt =====
-- How `parse_command` of server/parse_cmd.c divides the words of a command's arguments.
use waverous.Base.{
  ℕ, zero, suc, ◌+◌, ◌≡◌, ◌⊎◌, refl, ap, sym, ◌∙◌, inl, inr, false, Option, none, some, pos, List,
  [], ◌∷◌, ◌++◌, arith, length, take, drop,
}
use mathlib.Core.Path.{subst}
use mathlib.Core.List.{append-nil}
use waverous.Text.{CStr}
use waverous.Verbs.{prep_none}
use waverous.Verbs.Preps.{Aliases, PrepFound, db_find_prep}
use waverous.Verbs.PrepFront.{Stands, here, word, IsPhrase}
use waverous.Verbs.PrepPlaces.{Finds, db_find_prep-Finds}
use waverous.Commands.Parse.{Around, around_prep}

Stands-take : {alias argv : List CStr} → Stands alias argv → Stands alias (take (length alias) argv)
Stands-take here = here
Stands-take (word e s) = word e (Stands-take s)

length-Stands :
    {alias argv : List CStr} → Stands alias argv → length (take (length alias) argv) ≡ length alias
length-Stands here = refl
length-Stands (word e s) = ap suc (length-Stands s)

take-drop : (n : ℕ) (xs : List CStr) → take n xs ++ drop n xs ≡ xs
take-drop zero xs = refl
take-drop (suc n) [] = refl
take-drop (suc n) (x ∷ xs) = ap (λ ys. x ∷ ys) (take-drop n xs)

drop-nil : (n : ℕ) → drop {A = CStr} n [] ≡ []
drop-nil zero = refl
drop-nil (suc n) = refl

drop-drop : (k n : ℕ) (xs : List CStr) → drop n (drop k xs) ≡ drop (k + n) xs
drop-drop zero n xs = ap (λ m. drop m xs) (omega arith)
drop-drop (suc k) n [] = drop-nil n ∙ sym (drop-nil (suc k + n))
drop-drop (suc k) n (x ∷ xs) =
    let e : suc (k + n) ≡ suc k + n = omega arith in drop-drop k n xs ∙ ap (λ m. drop m (x ∷ xs)) e

-- Either there is no preposition, and all words come before it; or its words are those of one of
-- its phrases, in whatever case.
abbrev pub IsPrep : List Aliases → Around → Type 0
IsPrep table p =
    (p.which ≡ prep_none) × (p.words ≡ []) × (p.after ≡ [])
    ⊎ ((j : ℕ) × (alias : List CStr) × (p.which ≡ pos j)
        × IsPhrase table j alias
        × Stands alias p.words
        × (length p.words ≡ length alias))

-- The words before the preposition, its own and those behind it are the arguments of the command;
-- if there is no preposition then all come before it, and otherwise its words are those of a
-- phrase that the table has for its number, in whatever case.
pub around_prep-IsPrep :
    (table : List Aliases) (args : List CStr)
    → let p : Around = around_prep args (db_find_prep table false args) in
      (p.before ++ (p.words ++ p.after) ≡ args) × IsPrep table p
unfolding around_prep
around_prep-IsPrep table args = go (db_find_prep table false args) (db_find_prep-Finds table args)
  where
    go :
        (r : Option PrepFound)
        → Finds table args r
        → let p : Around = around_prep args r in
          (p.before ++ (p.words ++ p.after) ≡ args) × IsPrep table p
    go none f = (append-nil args, inl (refl, refl, refl))
    go (some f) (lt, (alias, p, s, l, _), _) = (
      ap (λ r. take f.first args ++ (take f.nwords (drop f.first args) ++ r))
            (sym (drop-drop f.first f.nwords args))
          ∙ ap (λ r. take f.first args ++ r) (take-drop f.nwords (drop f.first args))
          ∙ take-drop f.first args,
      inr (
        f.prep,
        alias,
        refl,
        p,
        subst (λ n. Stands alias (take n (drop f.first args))) l (Stands-take s),
        subst (λ n. length (take n (drop f.first args)) ≡ length alias) l (length-Stands s),
      ),
    )
