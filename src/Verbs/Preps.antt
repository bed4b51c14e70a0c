-- ===== src/Verbs/Preps.antt =====
-- The prepositions of server/db_verbs.c: the table of phrases and the search for one in a command.
use waverous.Base.{
  ℕ, zero, suc, ◌+◌, Bool, true, false, ◌&&◌, ◌||◌, not, Option, none, some, ℤ, pos, negsuc, eqz,
  List, [], ◌∷◌, leb, ◌==◌, if◌then◌else◌, length, get_elem?, codes, isdigit,
}
use waverous.Text.{CStr, mystrcasecmp}
use waverous.Numbers.{bits, of_bits}
use waverous.Commands.{parse_into_words}
use waverous.Verbs.{Strtol, is_end, prep_none}

unfoldable pub prep_list : List CStr
prep_list =
    codes "with/using"
    ∷ codes "at/to"
    ∷ codes "in front of"
    ∷ codes "in/inside/into"
    ∷ codes "on top of/on/onto/upon"
    ∷ codes "out of/from inside/from"
    ∷ codes "over"
    ∷ codes "through"
    ∷ codes "under/underneath/beneath"
    ∷ codes "behind"
    ∷ codes "beside"
    ∷ codes "for/about"
    ∷ codes "is"
    ∷ codes "as"
    ∷ codes "off/off of"
    ∷ []

-- `while (*p && *p != '/') *t++ = *p++;`
unfoldable pub until_slash : CStr → CStr × CStr
until_slash [] = ([], [])
until_slash (c ∷ p) =
    let rest = until_slash p in if c == b'/' then ([], c ∷ p) else (c ∷ rest.0, rest.1)

abbrev pub skip_slash : CStr → CStr
skip_slash [] = []
skip_slash (c ∷ p) = if c == b'/' then p else c ∷ p

abbrev pub Aliases : Type 0
Aliases = List (List CStr)

abbrev pub put_alias : Option (List CStr) → Option Aliases → Option Aliases
put_alias (some words) (some aliases) = some (words ∷ aliases)
put_alias _ _ = none

-- The phrases of one entry, each as its words.
unfoldable pub alias_loop : ℕ → CStr → Option Aliases
unfolding until_slash parse_into_words
alias_loop fuel [] = some []
alias_loop zero (c ∷ p) = none
alias_loop (suc fuel) (c ∷ p) =
    let (cprep, rest) = until_slash (skip_slash (c ∷ p)) in
    put_alias (parse_into_words cprep) (alias_loop fuel rest)

abbrev pub put_entry : Option Aliases → Option (List Aliases) → Option (List Aliases)
put_entry (some aliases) (some table) = some (aliases ∷ table)
put_entry _ _ = none

unfoldable pub build_table : List CStr → Option (List Aliases)
unfolding alias_loop
build_table [] = some []
build_table (p ∷ ps) = put_entry (alias_loop (length p) p) (build_table ps)

-- `prep_table`
unfoldable pub dbpriv_build_prep_table : Option (List Aliases)
unfolding build_table prep_list
dbpriv_build_prep_table = build_table prep_list

-- Do the words of the command start with the words of the phrase?
unfoldable pub phrase_at : List CStr → List CStr → Bool
phrase_at [] argv = true
phrase_at (w ∷ ws) [] = false
phrase_at (w ∷ ws) (a ∷ argv) =
    let rest = phrase_at ws argv in if eqz (mystrcasecmp a w) (pos 0) then rest else false

-- The number of words of the first phrase that stands at the front of the command.
unfoldable pub alias_at : Bool → Aliases → List CStr → Option ℕ
unfolding phrase_at
alias_at exact_match [] argv = none
alias_at exact_match (alias ∷ aliases) argv =
    let rest = alias_at exact_match aliases argv in
    if phrase_at alias argv && (not exact_match || length alias == length argv)
    then some (length alias)
    else rest

abbrev pub next_prep : Option (ℕ × ℕ) → Option (ℕ × ℕ)
next_prep none = none
next_prep (some (j, n)) = some (suc j, n)

-- The first preposition of the table with such a phrase, and the phrase's number of words.
unfoldable pub prep_at : Bool → List Aliases → List CStr → Option (ℕ × ℕ)
unfolding alias_at
prep_at exact_match [] argv = none
prep_at exact_match (aliases ∷ table) argv =
    let rest = prep_at exact_match table argv in
    elim (alias_at exact_match aliases argv) [ some n ↦ some (0, n) | none ↦ next_prep rest ]

-- A preposition with the place of its first word and its number of words.
pub record PrepFound : Type 0 where
  pub prep : ℕ
  pub first : ℕ
  pub nwords : ℕ

abbrev pub found_at : ℕ → ℕ × ℕ → PrepFound
found_at i (j, n) = record { prep = j; first = i; nwords = n }

-- The search from the `i`-th word on; an exact match tries only the first place.
unfoldable pub find_prep_from : List Aliases → Bool → ℕ → List CStr → Option PrepFound
unfolding prep_at
find_prep_from table exact_match i [] = none
find_prep_from table exact_match i (a ∷ argv) =
    let rest = find_prep_from table exact_match (i + 1) argv in
    elim (prep_at exact_match table (a ∷ argv)) [
      | some found ↦ some (found_at i found)
      | none ↦ if exact_match then none else rest
    ]

unfoldable pub db_find_prep : List Aliases → Bool → List CStr → Option PrepFound
unfolding find_prep_from
db_find_prep table exact_match argv = find_prep_from table exact_match 0 argv

abbrev pub starts_with_digit : CStr → Bool
starts_with_digit [] = false
starts_with_digit (c ∷ s) = isdigit c

abbrev pub skip_hash : CStr → CStr
skip_hash [] = []
skip_hash (c ∷ s) = if c == b'#' then s else c ∷ s

abbrev pub prep_of : Option PrepFound → ℤ
prep_of none = prep_none
prep_of (some f) = pos f.prep

abbrev pub words_prep : List Aliases → Option (List CStr) → Option ℤ
words_prep table none = none
words_prep table (some argv) = some (prep_of (db_find_prep table true argv))

-- Is the number of a preposition too large? It is compared as an unsigned number.
abbrev pub no_prep : ℤ → Bool
no_prep (pos n) = leb 15 n
no_prep (negsuc n) = true

unfoldable pub db_match_prep : Strtol → List Aliases → CStr → Option ℤ
unfolding db_find_prep until_slash parse_into_words
db_match_prep strtol table prepname =
    let s = skip_hash prepname in
    let prep = of_bits (bits (strtol s).0) in
    if is_end (strtol s).1
    then some (if not (starts_with_digit s) || no_prep prep then prep_none else prep)
    else words_prep table (parse_into_words (until_slash s).0)

-- For a number that is none of a preposition the table is read out of bounds.
unfoldable pub db_unparse_prep : ℤ → Option CStr
unfolding prep_list
db_unparse_prep (pos n) = get_elem? prep_list n
db_unparse_prep (negsuc zero) = some (codes "none")
db_unparse_prep (negsuc (suc zero)) = some (codes "any")
db_unparse_prep (negsuc (suc (suc n))) = none
