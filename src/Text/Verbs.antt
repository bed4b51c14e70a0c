-- ===== src/Text/Verbs.antt =====
-- `verbcasecmp` of server/utils.c: does a word match one of the names of a verb?
-- The names are separated by spaces; `*` in a name says where it may be cut off. `same` says whether
-- the two pointers are one, as when a task calls a verb by the string that `verbs` gave it.
use waverous.Base.{
  ℕ, zero, suc, Bool, true, false, ◌||◌, not, Option, none, some, [], ◌∷◌, ◌==◌, if◌then◌else◌,
  length,
}
use waverous.Text.{CStr, cmap}

-- `enum { none, inner, end } star`
pub data Star : Type 0 where
  absent inner final : Star

-- `!*v || *v == ' '`
abbrev pub at_end : CStr → Bool
at_end [] = true
at_end (c ∷ v) = c == 32

-- `while (*v == '*') { v++; star = ...; }`
unfoldable pub skip_stars : CStr → Star → CStr × Star
skip_stars [] star = ([], star)
skip_stars (c ∷ v) star =
    let rest = skip_stars v (if at_end v then final else inner) in
    if c == 42 then rest else (c ∷ v, star)

-- What the inner loop leaves: `w`, `v` and `star`.
pub record Scan : Type 0 where
  pub word : CStr
  pub verb : CStr
  pub star : Star

abbrev pub scan : CStr → CStr → Star → Scan
scan w v star = record { word = w; verb = v; star = star }

-- `while (1) { skip stars; if (...) break; w++; v++; }`
unfoldable pub inner_loop : CStr → CStr → Star → Scan
unfolding skip_stars cmap
inner_loop [] v star = let (v', star') = skip_stars v star in scan [] v' star'
inner_loop (x ∷ w) v star =
    let (v', star') = skip_stars v star in
    elim v' [
      | [] ↦ scan (x ∷ w) [] star'
      | c ∷ v'' ↦
          let rest = inner_loop w v'' star' in
          if c == 32 || not (cmap x == cmap c) then scan (x ∷ w) (c ∷ v'') star' else rest
    ]

-- `!*w ? (star != none || !*v || *v == ' ') : (star == end)`
abbrev pub accepts_at : CStr → CStr → Star → Bool
accepts_at [] v absent = at_end v
accepts_at [] v _ = true
accepts_at (x ∷ w) v final = true
accepts_at (x ∷ w) v _ = false

unfoldable pub accepts : Scan → Bool
accepts s = accepts_at s.word s.verb s.star

-- `while (*v && *v != ' ') v++;`
unfoldable pub skip_name : CStr → CStr
skip_name [] = []
skip_name (c ∷ v) = if c == 32 then c ∷ v else skip_name v

-- `while (*v == ' ') v++;`
unfoldable pub skip_spaces : CStr → CStr
skip_spaces [] = []
skip_spaces (c ∷ v) = if c == 32 then skip_spaces v else c ∷ v

-- The outer loop, on fuel; `none` means that the fuel ran out.
unfoldable pub verb_loop : ℕ → CStr → CStr → Option Bool
verb_loop fuel [] word = some false
verb_loop zero (c ∷ v) word = none
verb_loop (suc fuel) (c ∷ v) word =
    let s = inner_loop word (c ∷ v) absent in
    let rest = verb_loop fuel (skip_spaces (skip_name s.verb)) word in
    if accepts s then some true else rest

unfoldable pub verbcasecmp : (same : Bool) → CStr → CStr → Option Bool
unfolding inner_loop accepts skip_name skip_spaces verb_loop
verbcasecmp same verb word = if same then some true else verb_loop (length verb) verb word
