-- ===== src/Commands.antt =====
-- The splitting of a command line into words, of server/parse_cmd.c. The words are written over the
-- part of the line that was read already, so what is still to be read is as it was, and the words
-- are lists of their own here. The array of words grows as they need it.
pub mod Quoting
pub mod Ends
pub mod Match
pub mod Parse
pub mod Around
use waverous.Base.{
  ℕ, zero, suc, Bool, true, false, ◌&&◌, not, Option, none, some, List, [], ◌∷◌, ◌++◌, ◌==◌,
  if◌then◌else◌, length,
}
use waverous.Text.{CStr}
use waverous.Text.Verbs.{skip_spaces}

-- The word at the front of the line, and what is left of the line behind it. A quote is dropped and
-- turns the meaning of spaces over; a backslash is dropped and the byte behind it taken as it is.
unfoldable pub read_word : CStr → (in_quotes : Bool) → CStr × CStr
read_word [] in_quotes = ([], [])
read_word (c ∷ []) in_quotes =
    if not in_quotes && c == 32
    then ([], c ∷ [])
    else if c == 34
    then ([], [])
    else if c == 92
    then ([], [])
    else (c ∷ [], [])
read_word (c ∷ d ∷ input) in_quotes =
    let quoted = read_word (d ∷ input) (not in_quotes) in
    let escaped = read_word input in_quotes in
    let plain = read_word (d ∷ input) in_quotes in
    if not in_quotes && c == 32
    then ([], c ∷ d ∷ input)
    else if c == 34
    then quoted
    else if c == 92
    then (d ∷ escaped.0, escaped.1)
    else (c ∷ plain.0, plain.1)

abbrev pub put_first : CStr → Option (List CStr) → Option (List CStr)
put_first word none = none
put_first word (some words) = some (word ∷ words)

-- One word in each round; `none` means that the fuel ran out.
unfoldable pub words_loop : ℕ → CStr → Option (List CStr)
words_loop fuel [] = some []
words_loop zero (c ∷ input) = none
words_loop (suc fuel) (c ∷ input) =
    let (word, rest) = read_word (c ∷ input) false in
    put_first word (words_loop fuel (skip_spaces rest))

unfoldable pub parse_into_words : CStr → Option (List CStr)
unfolding words_loop skip_spaces
parse_into_words input = words_loop (length input) (skip_spaces input)

-- The loop of `build_string`: a space and a word, for each further word.
unfoldable pub add_words : List CStr → CStr
add_words [] = []
add_words (word ∷ words) = 32 ∷ (word ++ add_words words)

unfoldable pub build_string : List CStr → CStr
unfolding add_words
build_string [] = []
build_string (word ∷ words) = word ++ add_words words
