-- ===== src/Database/Run.antt =====
-- Commands on the object table: each run ends well, with a bad access, in a `panic`, or because a
-- loop used up its fuel.
use waverous.Base.{Bool, none, some, ℤ, if◌then◌else◌}
use waverous.Database.{Object, Db, find_object, put}

pub data Run (A : Type 0) : Type 0 where
  ok : A → Db → Run A
  fault : Run A
  panic : Run A
  out_of_fuel : Run A

abbrev pub Cmd : Type 0 → Type 0
Cmd A = Db → Run A

abbrev pub pure : {A : Type 0} → A → Cmd A
pure = ok

module _ {A B : Type 0} where
  abbrev pub and_then : Run A → (A → Cmd B) → Run B
  and_then (ok a db) k = k a db
  and_then fault k = fault
  and_then panic k = panic
  and_then out_of_fuel k = out_of_fuel

  infixl 5 ◌>>=◌ ◌>>◌
  abbrev pub ◌>>=◌ : Cmd A → (A → Cmd B) → Cmd B
  m >>= k = λ db. and_then (m db) k

  abbrev pub ◌>>◌ : Cmd A → Cmd B → Cmd B
  m >> n = m >>= λ _. n

abbrev pub Skip : Type 0
Skip = Unit {0}

abbrev pub gets : {A : Type 0} → (Db → A) → Cmd A
gets f db = ok (f db) db

abbrev pub modify_db : (Db → Db) → Cmd Skip
modify_db f db = ok tt (f db)

-- `*objects[oid]`, a bad access where there is no object.
unfoldable pub object : ℤ → Cmd Object
object oid db = elim (find_object db oid) [ none ↦ fault | some o ↦ ok o db ]

abbrev pub store : ℤ → Object → Cmd Skip
store oid o db = ok tt (put db oid (some o))

abbrev pub modify : ℤ → (Object → Object) → Cmd Skip
modify oid f = do o ← object oid; store oid (f o)

-- `if (b) m;`
abbrev pub when : Bool → Cmd Skip → Cmd Skip
when b m = if b then m else pure tt

-- A run that ends well, in a result and a table with the property.
pub data Returns {A : Type 0} (P : A → Db → Type 0) : Run A → Type 0 where
  returns : {a : A} {db : Db} → P a db → Returns P (ok a db)

module _ {A : Type 0} {P : A → Db → Type 0} where
  pub bind :
      {B : Type 0} {Q : B → Db → Type 0} {r : Run A} {k : A → Cmd B}
      → Returns P r
      → ((a : A) (db : Db) → P a db → Returns Q (k a db))
      → Returns Q (and_then r k)
  bind (returns p) then_ = then_ _ _ p

  pub mono :
      {Q : A → Db → Type 0} {r : Run A}
      → Returns P r
      → ((a : A) (db : Db) → P a db → Q a db)
      → Returns Q r
  mono (returns p) weaken = returns (weaken _ _ p)
