-- ===== src/Text/Search.antt =====
-- strsub, strindex and strrindex of server/utils.c.
use waverous.Base.{
  ℕ, zero, suc, ◌+◌, ◌-◌, Bool, Option, none, some, pos, [], ◌∷◌, ◌++◌, eqz, if◌then◌else◌, length,
  drop,
}
use waverous.Text.{CStr, mystrncasecmp, strneq}

-- `!(case_counts ? strncmp(s, what, lwhat) : mystrncasecmp(s, what, lwhat))`
unfoldable pub same_here : Bool → CStr → CStr → Bool
same_here exact s what =
    if exact then strneq s what (length what) else eqz (mystrncasecmp s what (length what)) (pos 0)

-- The loop of `strsub`, on fuel; `none` means that the fuel ran out.
unfoldable pub sub_loop : ℕ → CStr → CStr → CStr → Bool → Option CStr
sub_loop fuel [] what with exact = some []
sub_loop zero (c ∷ source) what with exact = none
sub_loop (suc fuel) (c ∷ source) what with exact =
    let hit = sub_loop fuel (drop (length what) (c ∷ source)) what with exact in
    let miss = sub_loop fuel source what with exact in
    if same_here exact (c ∷ source) what
    then elim hit [ none ↦ none | some out ↦ some (with ++ out) ]
    else elim miss [ none ↦ none | some out ↦ some (c ∷ out) ]

-- The loop of `strindex` from the `at`-th position on, for `n` positions.
unfoldable pub index_loop : ℕ → ℕ → CStr → CStr → Bool → ℕ
index_loop zero at s what exact = 0
index_loop (suc n) at s what exact =
    let rest = index_loop n (at + 1) (drop 1 s) what exact in
    if same_here exact s what then at + 1 else rest

-- `s` runs up to `e = source + strlen(source) - lwhat`, which may lie before `source`.
unfoldable pub strindex : CStr → CStr → Bool → ℕ
strindex source what exact = index_loop (length source + 1 - length what) 0 source what exact

-- The loop of `strrindex`: `n` positions are left, the last of them first.
unfoldable pub rindex_loop : ℕ → CStr → CStr → Bool → ℕ
rindex_loop zero source what exact = 0
rindex_loop (suc n) source what exact =
    let rest = rindex_loop n source what exact in
    if same_here exact (drop n source) what then n + 1 else rest

unfoldable pub strrindex : CStr → CStr → Bool → ℕ
strrindex source what exact = rindex_loop (length source + 1 - length what) source what exact

unfoldable pub strsub : CStr → CStr → CStr → Bool → Option CStr
strsub source what with exact = sub_loop (length source) source what with exact
