-- ===== src/Commands/Parse.antt =====
-- `parse_command` of server/parse_cmd.c: the parts of a command line.
use waverous.Base.{
  ℕ, ◌+◌, Bool, true, false, ◌&&◌, not, Option, none, some, ℤ, pos, List, [], ◌∷◌, ◌++◌, ◌==◌,
  if◌then◌else◌, take, drop, codes,
}
use waverous.Text.{CStr}
use waverous.Text.Verbs.{skip_spaces}
use waverous.Database.Chains.{nothing}
use waverous.Database.Run.{Cmd, out_of_fuel, pure, ◌>>=◌}
use waverous.Commands.{parse_into_words, build_string}
use waverous.Commands.Match.{match_object}
use waverous.Verbs.{Strtol, prep_none}
use waverous.Verbs.Preps.{Aliases, PrepFound, db_find_prep}

pub record ParsedCommand : Type 0 where
  pub verb : CStr
  pub argstr : CStr
  pub args : List CStr
  pub dobjstr : CStr
  pub dobj : ℤ
  pub prepstr : CStr
  pub prep : ℤ
  pub iobjstr : CStr
  pub iobj : ℤ

-- What is left of the command behind its first word, with quotes and backslashes passed over.
unfoldable pub skip_verb : CStr → (in_quotes : Bool) → CStr
skip_verb [] in_quotes = []
skip_verb (c ∷ []) in_quotes = if not in_quotes && c == 32 then c ∷ [] else []
skip_verb (c ∷ d ∷ s) in_quotes =
    let quoted = skip_verb (d ∷ s) (not in_quotes) in
    let escaped = skip_verb s in_quotes in
    let plain = skip_verb (d ∷ s) in_quotes in
    if not in_quotes && c == 32
    then c ∷ d ∷ s
    else if c == b'"'
    then quoted
    else if c == b'\\'
    then escaped
    else plain

-- The verb that a special first byte stands for.
unfoldable pub special_verb : ℕ → Option CStr
special_verb c =
    if c == b'"'
    then some (codes "say")
    else if c == b':'
    then some (codes "emote")
    else if c == b';'
    then some (codes "eval")
    else none

-- `buf` and `argstr`
unfoldable pub split_command : CStr → CStr × CStr
unfolding skip_verb special_verb skip_spaces
split_command [] = ([], [])
split_command (c ∷ s) = elim (special_verb c) [
  | some verb ↦ (verb ++ 32 ∷ s, s)
  | none ↦ (c ∷ s, skip_spaces (skip_verb (c ∷ s) false))
]

-- The words of the arguments around the preposition, and its number.
pub record Around : Type 0 where
  pub before : List CStr
  pub words : List CStr
  pub after : List CStr
  pub which : ℤ

unfoldable pub around_prep : List CStr → Option PrepFound → Around
around_prep args none = record { before = args; words = []; after = []; which = prep_none }
around_prep args (some f) = record {
  before = take f.first args;
  words = take f.nwords (drop f.first args);
  after = drop (f.first + f.nwords) args;
  which = pos f.prep;
}

-- An object is looked for only where there is a preposition, or are words.
abbrev pub has_prep : Option PrepFound → Bool
has_prep none = false
has_prep (some f) = true

abbrev pub no_words : List CStr → Bool
no_words [] = true
no_words (w ∷ ws) = false

unfoldable pub parse_words :
    Strtol → List Aliases → ℤ → CStr → List CStr → Cmd (Option ParsedCommand)
unfolding around_prep build_string match_object db_find_prep
parse_words strtol table user argstr [] = pure none
parse_words strtol table user argstr (verb ∷ args) = do
  let found = db_find_prep table false args
  let parts = around_prep args found
  iobj ←
      (if has_prep found then match_object strtol user (build_string parts.after) else pure nothing)
  dobj ←
      (if no_words parts.before
        then pure nothing
        else match_object strtol user (build_string parts.before))
  pure (
      some (record {
        verb = verb;
        argstr = argstr;
        args = args;
        dobjstr = build_string parts.before;
        dobj = dobj;
        prepstr = build_string parts.words;
        prep = parts.which;
        iobjstr = build_string parts.after;
        iobj = iobj;
      }))

unfoldable pub parse_command : Strtol → List Aliases → CStr → ℤ → Cmd (Option ParsedCommand)
unfolding split_command parse_words parse_into_words skip_spaces
parse_command strtol table command user =
    let (buf, argstr) = split_command (skip_spaces command) in
    elim (parse_into_words buf) [
      | none ↦ λ _. out_of_fuel
      | some words ↦ parse_words strtol table user argstr words
    ]
