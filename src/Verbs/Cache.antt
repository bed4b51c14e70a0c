-- ===== src/Verbs/Cache.antt =====
-- `db_find_callable_verb` of server/db_verbs.c with its cache. An entry is kept under the object
-- where the search starts in earnest, the first on the way up that has verbs, and under the word.
use waverous.Base.{
  ℕ, zero, suc, ◌+◌, ◌-◌, ◌%◌, ◌^◌, Bool, true, false, ◌&&◌, Option, none, some, ℤ, pos, eqz, List,
  [], ◌∷◌, ◌==◌, if◌then◌else◌,
}
use Prim.Native.Nat.{bit_xor}
use waverous.Text.{CStr, mystrcasecmp, str_hash}
use waverous.Numbers.{bits}
use waverous.Database.{Object, Db, Verbdef, VcEntry, find_object}
use waverous.Database.Chains.{nothing}
use waverous.Database.Run.{Cmd, ok, out_of_fuel, pure, ◌>>=◌, ◌>>◌, gets, modify_db}
use waverous.Verbs.{Handle, Shares, search_up, find_verbdef_by_name}

-- `DEFAULT_VC_SIZE`
abbrev pub vc_size : ℕ
vc_size = 7507

abbrev pub Buckets : Type 0
Buckets = ℕ → List VcEntry

unfoldable pub make_vc_table : Cmd Buckets
make_vc_table db = elim db.vc_table [
  | none ↦ ok (λ _. []) (record db { vc_table = some (λ _. []) })
  | some table ↦ ok table db
]

abbrev pub has_verbs : List Verbdef → Bool
has_verbs [] = false
has_verbs (v ∷ vs) = true

-- The first object on the way up that has verbs.
unfoldable pub first_with_verbs : ℕ → ℤ → Cmd (Option Object)
first_with_verbs zero oid = λ _. out_of_fuel
first_with_verbs (suc fuel) oid = do
  found ← gets (λ db. find_object db oid)
  elim found [
    | none ↦ pure none
    | some o ↦ if has_verbs o.verbdefs then pure (some o) else first_with_verbs fuel o.parent
  ]

abbrev pub key_of : Option Object → ℤ
key_of none = nothing
key_of (some o) = o.id

-- `str_hash(verb) ^ (~first_parent_with_verbs)` on 32 bits
unfoldable pub vc_hash : CStr → ℤ → ℕ
vc_hash verb key = bit_xor (str_hash verb) (2 ^ 32 - 1 - bits key)

-- The first entry of the bucket for the key and the word.
unfoldable pub find_entry : ℕ → ℤ → CStr → List VcEntry → Option VcEntry
find_entry hash key verb [] = none
find_entry hash key verb (vc ∷ bucket) =
    let rest = find_entry hash key verb bucket in
    if hash == vc.hash && (eqz key vc.oid_key && eqz (mystrcasecmp verb vc.verbname) (pos 0))
    then some vc
    else rest

-- A miss has no verb.
abbrev pub handle_of : VcEntry → Option Handle
handle_of vc = elim vc.verbdef [
  | none ↦ none
  | some i ↦ some (record { definer = vc.definer; verbdef = i })
]

-- The entry for the outcome of a search; the definer of a miss is never read.
abbrev pub new_entry : ℕ → ℤ → CStr → Option Handle → VcEntry
new_entry hash key verb none = record {
  hash = hash;
  oid_key = key;
  verbname = verb;
  definer = nothing;
  verbdef = none;
}
new_entry hash key verb (some h) = record {
  hash = hash;
  oid_key = key;
  verbname = verb;
  definer = h.definer;
  verbdef = some h.verbdef;
}

abbrev pub add_entry : ℕ → VcEntry → Db → Db
add_entry bucket vc db = elim db.vc_table [
  | none ↦ db
  | some table ↦ record db { vc_table = some (λ b. if b == bucket then vc ∷ table b else table b) }
]

-- `find_verbdef_by_name(o, verb, 1)` for `o` and on the way up from it.
unfoldable pub search_from : Shares → ℕ → Option Object → CStr → Cmd (Option Handle)
unfolding search_up find_verbdef_by_name
search_from same fuel none verb = pure none
search_from same fuel (some o) verb = elim (find_verbdef_by_name same o verb true) [
  | none ↦ search_up (λ p. find_verbdef_by_name same p verb true) fuel o.parent
  | some i ↦ pure (some (record { definer = o.id; verbdef = i }))
]

abbrev pub is_hit : VcEntry → Bool
is_hit vc = elim vc.verbdef [ none ↦ false | some i ↦ true ]

abbrev pub count_hit : VcEntry → Db → Db
count_hit vc db = record db {
  verbcache_hit = if is_hit vc then db.verbcache_hit + 1 else db.verbcache_hit;
  verbcache_neg_hit = if is_hit vc then db.verbcache_neg_hit else db.verbcache_neg_hit + 1;
}

abbrev pub count_miss : Db → Db
count_miss db = record db { verbcache_miss = db.verbcache_miss + 1 }

unfoldable pub db_find_callable_verb : Shares → ℤ → CStr → Cmd (Option Handle)
unfolding make_vc_table first_with_verbs vc_hash find_entry search_from
db_find_callable_verb same oid verb = do
  table ← make_vc_table
  n ← gets (λ db. db.num_objects + 1)
  start ← first_with_verbs n oid
  let key = key_of start
  let hash = vc_hash verb key
  elim (find_entry hash key verb (table (hash % vc_size))) [
    | some vc ↦ do modify_db (count_hit vc); pure (handle_of vc)
    | none ↦ do
      modify_db count_miss
      h ← search_from same n start verb
      modify_db (add_entry (hash % vc_size) (new_entry hash key verb h))
      pure h
  ]
