-- ===== src/Tests/Verbs.antt =====
-- Verbs and the verb cache of server/db_verbs.c.
use waverous.Base.{
  Option, none, ◌∷◌, [], ℤ, true, false, ℕ, negsuc, ◌+◌, ◌*◌, ◌-◌, ◌==◌, if◌then◌else◌, isdigit,
  ◌≡◌, refl, some, pos, codes, arith,
}
use waverous.Text.{IsText, CStr}
use waverous.Database.{Db, Verbdef, find_object}
use waverous.Database.Run.{ok, Returns, object}
use waverous.Verbs.Handles.{db_set_verb_owner, db_set_verb_arg_specs, update_verb, verb_at}
use waverous.Verbs.Callable.{callable}
use waverous.Verbs.Cache.{
  Buckets, new_entry, db_find_callable_verb, make_vc_table, first_with_verbs, find_entry,
  search_from,
}
use waverous.Verbs.Answers.{Answers, db_find_callable_verb-callable}
use waverous.Verbs.Views.{Coherent}
use waverous.Verbs.Steps.{given, looked_up, start, next, Steps-Coherent}
use waverous.Verbs.{Strtol, apart, Handle, find_verbdef_by_name, search_up, first_verb, is_verb}
use waverous.Verbs.Preps.{prep_list, db_match_prep, db_unparse_prep}
use waverous.Verbs.PrepNames.{is_letter, phrases, db_match_prep-db_unparse_prep}
use waverous.Verbs.ArgSpecs.{Specified, db_verb_arg_specs-db_set_verb_arg_specs}
use waverous.Tests.Tree.{upper, tree, way, way-Up, tree-Coherent}

look-IsText : IsText (codes "LOOK")
look-IsText = (omega arith, (omega arith, (omega arith, (omega arith, tt))))

db_find_callable_verb-callable_example :
    Returns
      (Answers tree (callable way (codes "LOOK")))
      (db_find_callable_verb apart (pos 1) (codes "LOOK") tree)
db_find_callable_verb-callable_example =
    db_find_callable_verb-callable apart tree (pos 1) way (codes "LOOK") (λ v h. cc) tree-Coherent.0
      tt way-Up look-IsText

-- A lookup that misses the cache and fills it.
looked :
    (h : Option Handle) × (g : Db) × (db_find_callable_verb apart (pos 1) (codes "LOOK") tree
      ≡ ok h g)
unfolding db_find_callable_verb make_vc_table first_with_verbs find_object find_entry search_from
    find_verbdef_by_name search_up first_verb is_verb
looked = (_, _, refl)

given_away :
    (g : Db) × (db_set_verb_owner (some (record { definer = pos 0; verbdef = 0 })) (pos 1) looked.1
      ≡ ok tt g)
unfolding db_set_verb_owner update_verb verb_at find_object object looked
given_away = (_, refl)

Steps-Coherent_example : Coherent given_away.0
Steps-Coherent_example = Steps-Coherent tree given_away.0 tree-Coherent (
    next
      (next start
        (looked_up apart (pos 1) (codes "LOOK") (λ v h. cc) look-IsText (looked.0, looked.2)))
      (given _ (pos 1) (tt, given_away.1)))

-- A cache with one entry.
abbrev one_entry : Buckets
one_entry b = if b == 3 then new_entry 3 (pos 0) (codes "look") none ∷ [] else []

-- Unsigned numbers only.
abbrev digits : ℕ → CStr → ℤ × CStr
digits n [] = (pos n, [])
digits n (c ∷ s) =
    let rest = digits (10 * n + (c - 48)) s in if isdigit c then rest else (pos n, c ∷ s)

abbrev strtol : Strtol
strtol s = digits 0 s

leaves : (c : ℕ) (s : CStr) → is_letter c ≡ true → (strtol (c ∷ s)).1 ≡ c ∷ s
leaves c s h = let none_read : isdigit c ≡ false = ground arith in rw none_read refl

onto : db_unparse_prep (pos 4) ≡ some (codes "on top of/on/onto/upon")
unfolding db_unparse_prep prep_list
onto = refl

db_match_prep-db_unparse_prep_example :
    db_match_prep strtol phrases (codes "on top of/on/onto/upon") ≡ some (pos 4)
db_match_prep-db_unparse_prep_example =
    db_match_prep-db_unparse_prep strtol 4 (codes "on top of/on/onto/upon") leaves onto

abbrev look : Verbdef
look = record { name = codes "l*ook"; program = 0; owner = pos 0; perms = 4; prep = negsuc 0 }

upper-at : find_object tree (pos 0) ≡ some upper
unfolding find_object
upper-at = refl

db_verb_arg_specs-db_set_verb_arg_specs_example :
    Returns
      (Specified (record { definer = pos 0; verbdef = 0 }) look 2 (pos 3) 1)
      (db_set_verb_arg_specs (some (record { definer = pos 0; verbdef = 0 })) 2 (pos 3) 1 tree)
db_verb_arg_specs-db_set_verb_arg_specs_example =
    db_verb_arg_specs-db_set_verb_arg_specs tree (record { definer = pos 0; verbdef = 0 }) upper
      look 2 (pos 3) 1 upper-at refl (omega arith) (omega arith) (omega arith)
