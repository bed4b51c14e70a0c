-- ===== src/Commands/Match.antt =====
-- The objects that a player can name in a command, server/match.c.
use waverous.Base.{
  Bool, true, false, ◌||◌, not, Option, some, ℤ, pos, negsuc, eqz, List, [], ◌∷◌, ◌==◌,
  if◌then◌else◌, length, drop, codes,
}
use waverous.Text.{CStr, mystrcasecmp, mystrncasecmp}
use waverous.Numbers.{bits, of_bits}
use waverous.Values.{Var, str, list, items}
use waverous.Database.{valid}
use waverous.Database.Chains.{nothing}
use waverous.Database.Run.{Cmd, pure, ◌>>=◌, gets}
use waverous.Database.Links.{contents_links}
use waverous.Database.Objects.{db_object_name, db_object_location, for_all_items}
use waverous.Properties.{db_find_property}
use waverous.Verbs.{Strtol, is_end}

-- `AMBIGUOUS` and `FAILED_MATCH`
abbrev pub ambiguous : ℤ
ambiguous = negsuc 1

abbrev pub failed_match : ℤ
failed_match = negsuc 2

abbrev pub list_of : Option Var → List Var
list_of (some (list l)) = items l
list_of _ = []

unfoldable pub aliases : ℤ → Cmd (List Var)
unfolding db_find_property
aliases oid = do (h, value) ← db_find_property oid (codes "aliases") true; pure (list_of value)

-- The object's name, and those of its aliases that are strings.
unfoldable pub names_of : CStr → List Var → List CStr
names_of name [] = name ∷ []
names_of name (str s ∷ vs) = name ∷ names_of s vs
names_of name (_ ∷ vs) = names_of name vs

pub record MatchData : Type 0 where
  pub name : CStr
  pub exact : ℤ
  pub partial : ℤ

-- The body of the loop of `match_proc` for a name; the second part says that two objects match
-- exactly.
unfoldable pub match_name : ℤ → CStr → MatchData → MatchData × Bool
match_name oid name d =
    if not (eqz (mystrncasecmp name d.name (length d.name)) (pos 0))
    then (d, false)
    else if is_end (drop (length d.name) name)
    then (if eqz d.exact nothing || eqz d.exact oid
        then (record d { exact = oid }, false)
        else (d, true))
    else (
      record d {
        partial = if eqz d.partial failed_match || eqz d.partial oid then oid else ambiguous;
      },
      false,
    )

unfoldable pub match_names : ℤ → List CStr → MatchData → MatchData × Bool
unfolding match_name
match_names oid [] d = (d, false)
match_names oid (name ∷ names) d =
    let rest = match_names oid names (match_name oid name d).0 in
    if (match_name oid name d).1 then match_name oid name d else rest

unfoldable pub match_proc : MatchData → ℤ → Cmd (MatchData × Bool)
unfolding aliases match_names names_of
match_proc d oid = do
  vs ← aliases oid
  name ← db_object_name oid
  pure (match_names oid (names_of name vs) d)

-- One round of the loop of `match_contents`: an object that is not there is passed over.
unfoldable pub match_in : ℤ → MatchData → Cmd (MatchData × Bool)
unfolding match_proc
match_in oid d = do
  v ← gets (λ db. valid db oid)
  if v then for_all_items contents_links match_proc oid d else pure (d, false)

abbrev pub outcome : MatchData → ℤ
outcome d = if eqz d.exact nothing then d.partial else d.exact

unfoldable pub match_contents : ℤ → CStr → Cmd ℤ
unfolding match_in
match_contents player name = do
  v ← gets (λ db. valid db player)
  if not v then pure failed_match else do
    loc ← db_object_location player
    (d, stop) ← match_in player (record { name = name; exact = nothing; partial = failed_match })
    if stop
        then pure ambiguous
        else do (d', stop') ← match_in loc d; pure (if stop' then ambiguous else outcome d')

abbrev pub is_number_sign : CStr → Bool
is_number_sign [] = false
is_number_sign (c ∷ s) = c == b'#'

unfoldable pub match_object : Strtol → ℤ → CStr → Cmd ℤ
unfolding match_contents
match_object strtol player name =
    if is_end name
    then pure nothing
    else if is_number_sign name
    then (do
      let (r, rest) = strtol (drop 1 name)
      v ← gets (λ db. valid db (of_bits (bits r)))
      pure (if not (is_end rest) || not v then failed_match else of_bits (bits r)))
    else (do
      v ← gets (λ db. valid db player)
      if not v
          then pure failed_match
          else if eqz (mystrcasecmp name (codes "me")) (pos 0)
          then pure player
          else if eqz (mystrcasecmp name (codes "here")) (pos 0)
          then db_object_location player
          else match_contents player name)
