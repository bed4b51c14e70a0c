-- ===== src/Database.antt =====
-- The object table of server/db_objects.c and the structures of server/db_private.h. A function
-- that reads or writes the table is a command on it.
pub mod Chains
pub mod Up
pub mod Family
pub mod Run
pub mod Links
pub mod Wiring
pub mod Splice
pub mod Rewired
pub mod Holds
pub mod Objects
pub mod Location
pub mod Creation
pub mod Visits
pub mod Flags
pub mod Renumber
use waverous.Base.{
  ℕ, Bool, true, false, Option, none, some, ℤ, pos, negsuc, List, leb, ◌==◌, if◌then◌else◌,
}
use waverous.Text.{CStr}
use waverous.Values.{Var}

-- A program is a pointer, 0 for none; the model never looks behind it.
-- `perms` and `prep` are of type `short`: `perms` holds 16 bits, and what is stored in either goes
-- through `short_bits` or `to_short` of Numbers/Shorts.antt.
pub record Verbdef : Type 0 where
  pub name : CStr
  pub program : ℕ
  pub owner : ℤ
  pub perms : ℕ
  pub prep : ℤ

pub record Propdef : Type 0 where
  pub name : CStr
  pub hash : ℕ

pub record Pval : Type 0 where
  pub var : Var
  pub owner : ℤ
  pub perms : ℕ

-- The arrays `propdefs.l` up to `cur_length` and `propval` are lists, and so is the chain of
-- `verbdefs`, which no two objects share.
pub record Object : Type 0 where
  pub id : ℤ
  pub owner : ℤ
  pub location : ℤ
  pub contents : ℤ
  pub next : ℤ
  pub parent : ℤ
  pub child : ℤ
  pub sibling : ℤ
  pub name : CStr
  pub flags : ℕ
  pub verbdefs : List Verbdef
  pub propdefs : List Propdef
  pub max_propdefs : ℕ
  pub propval : List Pval

-- `struct vc_entry` of server/db_verbs.c: what was asked for, and the answer, the place of a verb
-- among those of its definer, if there is one.
pub record VcEntry : Type 0 where
  pub hash : ℕ
  pub oid_key : ℤ
  pub verbname : CStr
  pub definer : ℤ
  pub verbdef : Option ℕ

-- The static variables: the array `objects` with its two sizes, `all_users`, and the verb cache
-- with its counters, whose table of buckets is `none` until the first lookup.
pub record Db : Type 0 where
  pub slot : ℕ → Option Object
  pub num_objects : ℕ
  pub max_objects : ℕ
  pub all_users : List ℤ
  pub vc_table : Option (ℕ → List VcEntry)
  pub db_verb_generation : ℕ
  pub verbcache_hit : ℕ
  pub verbcache_neg_hit : ℕ
  pub verbcache_miss : ℕ

unfoldable pub find_object : Db → ℤ → Option Object
find_object db (pos n) = if leb db.num_objects n then none else db.slot n
find_object db (negsuc n) = none

abbrev pub is_some : Option Object → Bool
is_some none = false
is_some (some o) = true

unfoldable pub valid : Db → ℤ → Bool
valid db oid = is_some (find_object db oid)

-- `objects[oid] = o`
unfoldable pub put : Db → ℤ → Option Object → Db
put db (pos n) o = record db { slot = λ i. if i == n then o else db.slot i }
put db (negsuc n) o = db
