-- ===== src/Tests/Commands.antt =====
-- Command lines of server/parse_cmd.c.
use waverous.Base.{eqz, false, codes, ◌++◌, ◌≡◌, refl, some, List, [], ◌∷◌, map}
use waverous.Text.{CStr, mystrcasecmp, cmap, char_diff}
use waverous.Text.Verbs.{skip_spaces}
use waverous.Commands.{read_word, words_loop, parse_into_words, build_string}
use waverous.Commands.Quoting.{quote, parse_into_words-build_string}
use waverous.Commands.Ends.{parse_into_words_total}
use waverous.Verbs.Preps.{
  prep_list, until_slash, alias_loop, build_table, dbpriv_build_prep_table, phrase_at, alias_at,
  prep_at, find_prep_from, db_find_prep,
}
use waverous.Verbs.PrepNames.{phrases}
use waverous.Verbs.PrepPlaces.{Finds, db_find_prep-Finds}
use waverous.Commands.Parse.{Around, around_prep}
use waverous.Commands.Around.{IsPrep, around_prep-IsPrep}

-- `  a "b c"\"`
abbrev line : CStr
line = 32 ∷ 32 ∷ 97 ∷ 32 ∷ 34 ∷ 98 ∷ 32 ∷ 99 ∷ 34 ∷ 92 ∷ 34 ∷ []

-- A word with a space and a quote in it, and the empty word.
abbrev odd_words : List CStr
odd_words = (98 ∷ 32 ∷ 34 ∷ []) ∷ [] ∷ []

-- `a` and `b c"`
line_words : parse_into_words line ≡ some ((97 ∷ []) ∷ (98 ∷ 32 ∷ 99 ∷ 34 ∷ []) ∷ [])
unfolding parse_into_words words_loop read_word skip_spaces
line_words = refl

parse_into_words-build_string_example :
    parse_into_words (build_string (map quote odd_words)) ≡ some odd_words
parse_into_words-build_string_example = parse_into_words-build_string odd_words

parse_into_words_total_example : (words : List CStr) × (parse_into_words line ≡ some words)
parse_into_words_total_example = parse_into_words_total line

-- `put box in bag`
abbrev put_args : List CStr
put_args = codes "box" ∷ codes "IN" ∷ codes "bag" ∷ []

db_find_prep-Finds_example : Finds phrases put_args (db_find_prep phrases false put_args)
db_find_prep-Finds_example = db_find_prep-Finds phrases put_args

around_prep-IsPrep_example :
    let p : Around = around_prep put_args (db_find_prep phrases false put_args) in
    (p.before ++ (p.words ++ p.after) ≡ put_args) × IsPrep phrases p
around_prep-IsPrep_example = around_prep-IsPrep phrases put_args

-- The preposition is the one of `in/inside/into`.
prep_in : db_find_prep phrases false put_args ≡ some (record { prep = 3; first = 1; nwords = 1 })
unfolding prep_list until_slash alias_loop build_table dbpriv_build_prep_table phrase_at alias_at
    prep_at find_prep_from db_find_prep parse_into_words words_loop read_word skip_spaces
    mystrcasecmp cmap eqz char_diff
prep_in = refl
