-- ===== src/Verbs/Addresses.antt =====
-- The test of `verbcasecmp` in server/utils.c for one address, in the lookups of
-- server/db_verbs.c.
use waverous.Base.{
  ℕ, ◌+◌, ◌%◌, ◌≡◌, refl, ap, inl, inr, true, false, Option, none, some, ℤ, Bool-cases,
}
use mathlib.Core.Path.{fun_ext}
use waverous.Text.{CStr}
use waverous.Text.Verbs.{verbcasecmp}
use waverous.Database.{Object, Db, Verbdef}
use waverous.Database.Run.{Cmd, pure, ◌>>=◌, ◌>>◌, gets, modify_db}
use waverous.Verbs.{
  Shares, apart, Handle, names_match, is_verb, first_verb, find_verbdef_by_name, search_up,
}
use waverous.Verbs.Cache.{
  make_vc_table, first_with_verbs, key_of, vc_hash, vc_size, find_entry, handle_of, new_entry,
  add_entry, count_hit, count_miss, search_from, db_find_callable_verb,
}

-- Where the word is the string of a verb's names itself, the text of the word matches those names,
-- as for names without a star. So the test for one address answers what the texts do.
abbrev pub IsHarmless : Shares → CStr → Type 0
IsHarmless same word = (v : Verbdef) → same v ≡ true → names_match false v.name word ≡ true

is_verb-apart :
    (same : Shares) (word : CStr) (v : Verbdef)
    → IsHarmless same word
    → is_verb same word true v ≡ is_verb apart word true v
unfolding is_verb
is_verb-apart same word v h = elim (Bool-cases (same v)) [
  | inl t ↦ rw (t, h v t, names_match, verbcasecmp) refl
  | inr f ↦ rw f refl
]

find_verbdef_by_name-apart :
    (same : Shares) (word : CStr) (o : Object)
    → IsHarmless same word
    → find_verbdef_by_name same o word true ≡ find_verbdef_by_name apart o word true
unfolding find_verbdef_by_name
find_verbdef_by_name-apart same word o h =
    ap (λ test. first_verb test o.verbdefs) (fun_ext λ v. is_verb-apart same word v h)

search_from-apart :
    (same : Shares) (fuel : ℕ) (start : Option Object) (word : CStr)
    → IsHarmless same word
    → search_from same fuel start word ≡ search_from apart fuel start word
unfolding search_from
search_from-apart same fuel none word h = refl
search_from-apart same fuel (some o) word h =
    ap
      (λ (search : Object → Option ℕ). elim (search o) as (λ _. Cmd (Option Handle)) [
        | none ↦ search_up search fuel o.parent
        | some i ↦ pure (some (record { definer = o.id; verbdef = i }))
      ])
      (fun_ext λ p. find_verbdef_by_name-apart same word p h)

-- `db_find_callable_verb` with a search of its own for what the cache does not have.
abbrev with_search :
    ℤ → (word : CStr) → (ℕ → Option Object → Cmd (Option Handle)) → Cmd (Option Handle)
with_search x word search = do
  table ← make_vc_table
  n ← gets (λ db. db.num_objects + 1)
  start ← first_with_verbs n x
  let hash = vc_hash word (key_of start)
  elim (find_entry hash (key_of start) word (table (hash % vc_size))) [
    | some vc ↦ do modify_db (count_hit vc); pure (handle_of vc)
    | none ↦ do
      modify_db count_miss
      h ← search n start
      modify_db (add_entry (hash % vc_size) (new_entry hash (key_of start) word h))
      pure h
  ]

pub db_find_callable_verb-apart :
    (same : Shares) (x : ℤ) (word : CStr) (db : Db)
    → IsHarmless same word
    → db_find_callable_verb same x word db ≡ db_find_callable_verb apart x word db
unfolding db_find_callable_verb
db_find_callable_verb-apart same x word db h =
    ap (λ search. with_search x word search db)
      (fun_ext λ n. fun_ext λ start. search_from-apart same n start word h)
