-- ===== src/Database/Creation.antt =====
-- New objects and the end of objects in server/db_objects.c.
use waverous.Base.{
  ℕ, ◌+◌, ◌≤◌, ◌<◌, ◌*◌, ◌≡◌, ◌≢◌, refl, ap, sym, ◌∙◌, inl, inr, true, false, Option, none, some, ℤ,
  pos, negsuc, eqz, eqz_iff, [], arith, if◌then◌else◌, Bool-cases, leb, ◌==◌,
}
use waverous.Base.Int.{eqz_refl}
use waverous.Database.{Object, Db, find_object, valid, is_some}
use waverous.Database.Chains.{nothing, Linked-frame}
use waverous.Database.Run
use waverous.Database.Run.{Run, Cmd, Skip, Returns, returns, ok, panic}
use waverous.Database.Links.{contents_links}
use waverous.Database.Wiring.{nexts, next_option, head_option, find_object-put}
use waverous.Database.Splice.{object-ok, Linked-next}
use waverous.Database.Holds.{Owned}
use waverous.Database.Location.{Located, locations, location_option}
use waverous.Database.Objects.{ensure_new_object, blank, db_create_object}

-- If the table holds at most as many objects as it has room for, then after `ensure_new_object` it
-- has room for one more, and holds as many as before.
pub num_objects-ensure_new_object :
    (db : Db)
    → db.num_objects ≤ db.max_objects
    → Returns
        (λ _ g. (g.num_objects < g.max_objects) × (g.num_objects ≡ db.num_objects))
        (ensure_new_object db)
unfolding ensure_new_object
num_objects-ensure_new_object db h = returns (ground arith)

-- What a new object is.
abbrev fresh : Object → ℕ → Object
fresh raw n = blank (record raw { id = pos n })

-- The table after `db_create_object`.
pub record Created (raw : Object) (db : Db) (oid : ℤ) (g : Db) : Type 0 where
  pub oid_eq : oid ≡ pos db.num_objects
  pub objects_eq :
      (x : ℤ)
      → find_object g x
        ≡ (if eqz x (pos db.num_objects) then some (fresh raw db.num_objects) else find_object db x)

abbrev grown : ℕ → Object → Db → Db
grown size o db = record db {
  max_objects = size;
  slot = λ i. if i == db.num_objects then some o else db.slot i;
  num_objects = db.num_objects + 1;
}

find_object-grown :
    (size : ℕ) (o : Object) (db : Db) (x : ℤ)
    → find_object (grown size o db) x
      ≡ (if eqz x (pos db.num_objects) then some o else find_object db x)
unfolding find_object eqz
find_object-grown size o db (pos i) = ground arith
find_object-grown size o db (negsuc i) = refl

-- `db_create_object` takes the next number for an object with no links, and changes no other.
pub db_create_object-Created :
    (raw : Object) (db : Db) → Returns (Created raw db) (db_create_object raw db)
unfolding db_create_object
db_create_object-Created raw db = rw (object-ok mid (pos db.num_objects) there) (
    returns (record {
      oid_eq = refl;
      objects_eq = λ x.
          find_object-put mid (pos db.num_objects) (fresh raw db.num_objects) x there
          ∙ (elim (Bool-cases (eqz x (pos db.num_objects))) [
            | inl t ↦ rw t
            | inr f ↦
                rw f (find_object-grown room (record raw { id = pos db.num_objects }) db x ∙ (rw f))
          ]);
    }))
  where
    size : ℕ
    size = if db.max_objects == 0 then 100 else db.max_objects

    room : ℕ
    room = if leb size db.num_objects then size * 2 else size

    mid : Db
    mid = grown room (record raw { id = pos db.num_objects }) db

    there : find_object mid (pos db.num_objects) ≡ some (record raw { id = pos db.num_objects })
    there =
        find_object-grown room (record raw { id = pos db.num_objects }) db (pos db.num_objects)
        ∙ (rw eqz_refl)

-- What a function of the object's place reads in the new table, and in the old.
objects_at {ℓ} :
    {B : Type ℓ} (f : Option Object → B) {raw : Object} {db g : Db} {oid : ℤ}
    → Created raw db oid g
    → (x : ℤ)
    → f (find_object g x)
      ≡ f (if eqz x (pos db.num_objects) then some (fresh raw db.num_objects) else find_object db x)
objects_at f c x = ap f (c.objects_eq x)

module _ {raw : Object} {db g : Db} {oid : ℤ} {l : Owned} (c : Created raw db oid g)
    (t : Located db l) (free : (x : ℤ) → locations db x ≢ some (pos db.num_objects)) where
  new_invalid : valid db (pos db.num_objects) ≡ false
  unfolding valid find_object
  new_invalid = ground arith

  unplaced : locations db (pos db.num_objects) ≡ none
  unfolding find_object
  unplaced = ground arith

  unlinked : nexts contents_links db (pos db.num_objects) ≡ none
  unfolding find_object
  unlinked = ground arith

  valid-Created : (x : ℤ) → valid g x ≡ (if eqz x (pos db.num_objects) then true else valid db x)
  unfolding valid
  valid-Created x =
      objects_at is_some c x
      ∙ (elim (Bool-cases (eqz x (pos db.num_objects))) [ inl u ↦ rw u | inr f ↦ rw f ])

  none_inside : l (pos db.num_objects) ≡ []
  none_inside = t.holds.unowned (pos db.num_objects) new_invalid

  old_locations : (x o : ℤ) → locations db x ≡ some o → locations g x ≡ some o
  old_locations x o e = elim (Bool-cases (eqz x (pos db.num_objects))) [
    | inl u ↦ cc (ap (locations db) ((eqz_iff x (pos db.num_objects)).0 u), unplaced, e)
    | inr f ↦ objects_at location_option c x ∙ (rw f e)
  ]

  -- The new object has no contents and is in no list, if no object has its number for a location.
  Located-Created : Located g l
  Located-Created = record {
    holds = record {
      heads_eq = λ o v. elim (Bool-cases (eqz o (pos db.num_objects))) [
        | inl u ↦
            objects_at (head_option contents_links) c o
            ∙ (rw (u, ap l ((eqz_iff o (pos db.num_objects)).0 u) ∙ none_inside))
        | inr f ↦
            objects_at (head_option contents_links) c o
            ∙ (rw f (t.holds.heads_eq o (sym (rw f at (valid-Created o)) ∙ v)))
      ];
      linked = λ o.
          Linked-frame (l o)
            (λ x i.
              same_next x (Linked-next (nexts contents_links db) x (l o) (t.holds.linked o) i))
            (t.holds.linked o);
      apart = t.holds.apart;
      unowned = λ o n. elim (Bool-cases (eqz o (pos db.num_objects))) [
        | inl u ↦ ap l ((eqz_iff o (pos db.num_objects)).0 u) ∙ none_inside
        | inr f ↦ t.holds.unowned o (sym (rw f at (valid-Created o)) ∙ n)
      ];
    };
    location_of = λ x o i. old_locations x o (t.location_of x o i);
    contained = λ x o e v. elim (Bool-cases (eqz x (pos db.num_objects))) [
      | inl u ↦
          let at : some nothing ≡ some o = sym (objects_at location_option c x ∙ (rw u)) ∙ e in
          let q : nothing ≡ o = cc in cc (ap (valid g) q, invalid_nothing, v)
      | inr f ↦
          let e' : locations db x ≡ some o = sym (objects_at location_option c x ∙ (rw f)) ∙ e in
          elim (Bool-cases (eqz o (pos db.num_objects))) [
            | inl u ↦ absurd (free x (e' ∙ ap some ((eqz_iff o (pos db.num_objects)).0 u)))
            | inr n ↦ t.contained x o e' (sym (rw n at (valid-Created o)) ∙ v)
          ]
    ];
  }
    where
      invalid_nothing : valid g nothing ≡ false
      invalid_nothing = unfold valid find_object in refl

      same_next :
          (x : ℤ)
          → (r : ℤ) × (nexts contents_links db x ≡ some r)
          → nexts contents_links g x ≡ nexts contents_links db x
      same_next x (r, e) = elim (Bool-cases (eqz x (pos db.num_objects))) [
        | inl u ↦
            cc (ap (nexts contents_links db) ((eqz_iff x (pos db.num_objects)).0 u), unlinked, e)
        | inr f ↦ objects_at (next_option contents_links) c x ∙ (rw f)
      ]

-- In a table whose contents lists agree with the locations, and where no object has the number that
-- comes next for its location, `db_create_object` ends. The new object has that number, is valid
-- and blank, and has no contents; the other objects and all the contents are those of before.
pub db_create_object-Located :
    (raw : Object) {db : Db} {l : Owned}
    → Located db l
    → ((x : ℤ) → locations db x ≢ some (pos db.num_objects))
    → Returns
        (λ oid g. Created raw db oid g × Located g l × (l oid ≡ []) × (valid g oid ≡ true))
        (db_create_object raw db)
db_create_object-Located raw {db} {l} t free = Run.mono (db_create_object-Created raw db) λ oid g c.
    (
      c,
      Located-Created c t free,
      ap l c.oid_eq ∙ none_inside c t free,
      ap (valid g) c.oid_eq ∙ valid-Created c t free (pos db.num_objects) ∙ (rw eqz_refl),
    )
