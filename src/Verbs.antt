-- ===== src/Verbs.antt =====
-- The verbs of objects, server/db_verbs.c: definitions, lookups without the cache, and handles. A
-- handle points to a verb; here it is the verb's definer and its place among the definer's verbs.
pub mod Handles
pub mod Cache
pub mod Same
pub mod Callable
pub mod PrepNames
pub mod PrepFront
pub mod PrepPlaces
pub mod Stats
pub mod Coherent
pub mod Addresses
pub mod Answers
pub mod Views
pub mod Effects
pub mod ArgSpecs
pub mod Steps
pub mod Preps
use waverous.Base.{
  ℕ, zero, suc, ◌+◌, ◌-◌, ◌*◌, ◌/◌, ◌%◌, Bool, true, false, ◌&&◌, ◌||◌, not, Option, none, some, ℤ,
  pos, negsuc, eqz, List, [], ◌∷◌, ◌++◌, ◌==◌, if◌then◌else◌, length, isspace,
}
use waverous.Numbers.{bits, of_bits}
use waverous.Numbers.Shorts.{short_bits, to_short}
use Prim.Native.Nat.{bit_or}
use waverous.Text.{CStr}
use waverous.Text.Verbs.{verbcasecmp}
use waverous.Database.{Object, Db, Verbdef, find_object}
use waverous.Database.Run.{Cmd, Skip, out_of_fuel, pure, ◌>>=◌, ◌>>◌, gets, object, store, modify}
use waverous.Database.Objects.{test_bit, db_priv_affected_callable_verb_lookup}

pub record Handle : Type 0 where
  pub definer : ℤ
  pub verbdef : ℕ

-- For which verbs the word of a search is the string of their names itself, at one address. Verbs
-- that agree in every field are taken to agree in this.
abbrev pub Shares : Type 0
Shares = Verbdef → Bool

-- A word at an address of its own.
abbrev pub apart : Shares
apart v = false

-- `verbcasecmp(verb, word)`, whose loop never runs out of fuel.
unfoldable pub names_match : (same : Bool) → CStr → CStr → Bool
unfolding verbcasecmp
names_match same verb word = elim (verbcasecmp same verb word) [ none ↦ false | some b ↦ b ]

-- `ASPEC_ANY` and `PREP_ANY`
abbrev pub aspec_any : ℕ
aspec_any = 1

abbrev pub prep_any : ℤ
prep_any = negsuc 1

abbrev pub prep_none : ℤ
prep_none = negsuc 0

-- `(perms >> DOBJSHIFT) & OBJMASK` and `(perms >> IOBJSHIFT) & OBJMASK`
abbrev pub dobj_of : ℕ → ℕ
dobj_of perms = perms / 16 % 4

abbrev pub iobj_of : ℕ → ℕ
iobj_of perms = perms / 64 % 4

unfoldable pub db_add_verb : ℤ → CStr → ℤ → ℕ → (dobj : ℕ) → (prep : ℤ) → (iobj : ℕ) → Cmd ℕ
unfolding db_priv_affected_callable_verb_lookup to_short
db_add_verb oid vnames owner flags dobj prep iobj = do
  db_priv_affected_callable_verb_lookup
  o ← object oid
  store oid (record o {
    verbdefs =
        o.verbdefs
        ++ record {
          name = vnames;
          program = 0;
          owner = owner;
          perms = short_bits (bit_or (bit_or flags (dobj * 16)) (iobj * 64));
          prep = to_short prep;
        }
          ∷ [];
  })
  pure (length o.verbdefs + 1)

-- `verbcasecmp(v->name, vname) && (!check_x_bit || (v->perms & VF_EXEC))`
unfoldable pub is_verb : Shares → CStr → Bool → Verbdef → Bool
unfolding names_match test_bit
is_verb same vname check_x_bit v =
    names_match (same v) v.name vname && (not check_x_bit || test_bit v.perms 2)

-- The place of the first verb that passes the test.
unfoldable pub first_verb : (Verbdef → Bool) → List Verbdef → Option ℕ
first_verb test [] = none
first_verb test (v ∷ vs) =
    let rest = first_verb test vs in
    if test v then some 0 else elim rest [ none ↦ none | some i ↦ some (suc i) ]

unfoldable pub find_verbdef_by_name : Shares → Object → CStr → Bool → Option ℕ
unfolding first_verb is_verb
find_verbdef_by_name same o vname check_x_bit =
    first_verb (is_verb same vname check_x_bit) o.verbdefs

unfoldable pub db_count_verbs : ℤ → Cmd ℕ
db_count_verbs oid = do o ← object oid; pure (length o.verbdefs)

module _ {D : Type 0} (func : D → CStr → D × Bool) where
  verbs_loop : List Verbdef → D → D × Bool
  verbs_loop [] d = (d, false)
  verbs_loop (v ∷ vs) d =
      let rest = verbs_loop vs (func d v.name).0 in
      if (func d v.name).1 then ((func d v.name).0, true) else rest

  unfoldable pub db_for_all_verbs : ℤ → D → Cmd (D × Bool)
  unfolding verbs_loop
  db_for_all_verbs oid d = do o ← object oid; pure (verbs_loop o.verbdefs d)

-- `for (o = ...; o; o = dbpriv_find_object(o->parent))` around a search among the verbs of `o`.
unfoldable pub search_up : (Object → Option ℕ) → ℕ → ℤ → Cmd (Option Handle)
search_up search zero oid = λ _. out_of_fuel
search_up search (suc fuel) oid = do
  found ← gets (λ db. find_object db oid)
  elim found [
    | none ↦ pure none
    | some o ↦ elim (search o) [
      | none ↦ search_up search fuel o.parent
      | some i ↦ pure (some (record { definer = o.id; verbdef = i }))
    ]
  ]

-- The test of `db_find_command_verb`.
unfoldable pub fits_command : Shares → CStr → (dobj : ℕ) → (prep : ℤ) → (iobj : ℕ) → Verbdef → Bool
unfolding names_match
fits_command same verb dobj prep iobj v =
    names_match (same v) v.name verb
    && ((dobj_of v.perms == aspec_any || dobj_of v.perms == dobj)
        && ((eqz v.prep prep_any || eqz v.prep prep)
            && (iobj_of v.perms == aspec_any || iobj_of v.perms == iobj)))

unfoldable pub db_find_command_verb :
    Shares → ℤ → CStr → (dobj : ℕ) → (prep : ℤ) → (iobj : ℕ) → Cmd (Option Handle)
unfolding search_up first_verb fits_command
db_find_command_verb same oid verb dobj prep iobj = do
  n ← gets (λ db. db.num_objects + 1)
  search_up (λ o. first_verb (fits_command same verb dobj prep iobj) o.verbdefs) n oid

-- `i == num || verbcasecmp(v->name, vname)`
unfoldable pub defined_place : Shares → CStr → ℤ → ℕ → List Verbdef → Option ℕ
unfolding names_match
defined_place same vname num i [] = none
defined_place same vname num i (v ∷ vs) =
    let rest = defined_place same vname num (i + 1) vs in
    if eqz (pos i) num || names_match (same v) v.name vname then some i else rest

-- `strtol` of the C library: the number at the front of a text, and the text behind it.
abbrev pub Strtol : Type 0
Strtol = CStr → ℤ × CStr

abbrev pub is_end : CStr → Bool
is_end [] = true
is_end (c ∷ s) = false

abbrev pub starts_with_space : CStr → Bool
starts_with_space [] = false
starts_with_space (c ∷ s) = isspace c

-- The number that the name spells, -1 if numbers are not allowed or the name is none.
unfoldable pub verb_number : Strtol → CStr → Bool → ℤ
verb_number strtol vname allow_numbers =
    if not allow_numbers || (starts_with_space vname || not (is_end (strtol vname).1))
    then negsuc 0
    else of_bits (bits (strtol vname).0)

unfoldable pub db_find_defined_verb : Shares → Strtol → ℤ → CStr → Bool → Cmd (Option Handle)
unfolding defined_place verb_number
db_find_defined_verb same strtol oid vname allow_numbers = do
  o ← object oid
  pure (elim (defined_place same vname (verb_number strtol vname allow_numbers) 0 o.verbdefs) [
    | none ↦ none
    | some i ↦ some (record { definer = o.id; verbdef = i })
  ])

-- The verb at the place, counted from 1.
unfoldable pub indexed_place : ℕ → ℕ → List Verbdef → Option ℕ
indexed_place index i [] = none
indexed_place index i (v ∷ vs) =
    let rest = indexed_place index (i + 1) vs in if i + 1 == index then some i else rest

unfoldable pub db_find_indexed_verb : ℤ → ℕ → Cmd (Option Handle)
unfolding indexed_place
db_find_indexed_verb oid index = do
  o ← object oid
  pure (elim (indexed_place index 0 o.verbdefs) [
    | none ↦ none
    | some i ↦ some (record { definer = o.id; verbdef = i })
  ])
