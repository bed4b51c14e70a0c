-- ===== src/Tests/Strings.antt =====
-- The string routines of server/utils.c on short texts.
use waverous.Base.{
  ◌≡◌, refl, true, false, ◌||◌, codes, some, pos, List, [], ◌∷◌, ◌+◌, ◌-◌, ◌<◌, ◌↔◌, none, All,
  length, arith,
}
use waverous.Text.{CStr, IsText, cmap, strneq, mystrcasecmp, str_hash}
use waverous.Text.Compare.{lower, mystrcasecmp-eq-zero, str_hash-mystrcasecmp}
use waverous.Text.Verbs.{
  verbcasecmp, skip_stars, inner_loop, accepts, skip_name, skip_spaces, verb_loop,
}
use waverous.Text.VerbSpec.{any_matches, join}
use waverous.Text.VerbNames.{verbcasecmp-any_matches}
use waverous.Text.Binary.{raw_bytes_to_binary, binary_to_raw_bytes}
use waverous.Text.BinaryLaws.{binary_to_raw_bytes-raw_bytes_to_binary}
use waverous.Text.Search.{strindex, strrindex, sub_loop, rindex_loop, same_here}
use waverous.Text.SearchLaws.{FirstHit, strindex-FirstHit, sub_loop-empty}

-- "foo*bar" and "@x*"
abbrev verb_names : List CStr
verb_names = (102 ∷ 111 ∷ 111 ∷ 42 ∷ 98 ∷ 97 ∷ 114 ∷ []) ∷ (64 ∷ 120 ∷ 42 ∷ []) ∷ []

-- "foob"
abbrev typed : CStr
typed = 102 ∷ 111 ∷ 111 ∷ 98 ∷ []

-- "Ab" and "aB"
abbrev one_case : CStr
one_case = 65 ∷ 98 ∷ []

abbrev other_case : CStr
other_case = 97 ∷ 66 ∷ []

one_case-IsText : IsText one_case
one_case-IsText = ((omega arith, omega arith), ((omega arith, omega arith), tt))

other_case-IsText : IsText other_case
other_case-IsText = ((omega arith, omega arith), ((omega arith, omega arith), tt))

one_case-other_case : mystrcasecmp one_case other_case ≡ pos 0
unfolding mystrcasecmp cmap
one_case-other_case = refl

-- "abcab" and "ab"
abbrev source : CStr
source = 97 ∷ 98 ∷ 99 ∷ 97 ∷ 98 ∷ []

abbrev pattern_text : CStr
pattern_text = 97 ∷ 98 ∷ []

last_found : strrindex source pattern_text true ≡ 4
unfolding strrindex rindex_loop same_here strneq
last_found = refl

-- A byte that prints, one that does not, and the sign of escapes.
abbrev bytes : CStr
bytes = 65 ∷ 10 ∷ 126 ∷ []

bytes_small : All (λ c. c < 256) bytes
bytes_small = (omega arith, (omega arith, (omega arith, tt)))

verbcasecmp-any_matches_example :
    verbcasecmp false (join verb_names) typed ≡ some (false || any_matches typed verb_names)
verbcasecmp-any_matches_example =
    verbcasecmp-any_matches false verb_names typed
      ((refl, (refl, (refl, (refl, (refl, (refl, (refl, tt))))))), ((refl, (refl, (refl, tt))), tt))

-- The string of the names matches at its own address, and not at another if it has a star.
star_apart :
    (verbcasecmp true (codes "foo*bar") (codes "foo*bar") ≡ some true)
    × (verbcasecmp false (codes "foo*bar") (codes "foo*bar") ≡ some false)
unfolding verbcasecmp verb_loop inner_loop skip_stars accepts skip_name skip_spaces cmap
star_apart = (refl, refl)

binary_to_raw_bytes-raw_bytes_to_binary_example :
    binary_to_raw_bytes (raw_bytes_to_binary bytes) ≡ some bytes
binary_to_raw_bytes-raw_bytes_to_binary_example =
    binary_to_raw_bytes-raw_bytes_to_binary bytes bytes_small

mystrcasecmp-eq-zero_example :
    (mystrcasecmp one_case other_case ≡ pos 0) ↔ (lower one_case ≡ lower other_case)
mystrcasecmp-eq-zero_example =
    mystrcasecmp-eq-zero one_case other_case one_case-IsText other_case-IsText

str_hash-mystrcasecmp_example : str_hash one_case ≡ str_hash other_case
str_hash-mystrcasecmp_example =
    str_hash-mystrcasecmp one_case other_case one_case-IsText other_case-IsText one_case-other_case

strindex-FirstHit_example :
    FirstHit 0
      (length source + 1 - length pattern_text)
      source
      pattern_text
      true
      (strindex source pattern_text true)
strindex-FirstHit_example = strindex-FirstHit pattern_text true source

sub_loop-empty_example : sub_loop 50 source [] bytes true ≡ none
sub_loop-empty_example = sub_loop-empty 50 97 (98 ∷ 99 ∷ 97 ∷ 98 ∷ []) bytes true
