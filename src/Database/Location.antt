-- ===== src/Database/Location.antt =====
-- `db_change_location` of server/db_objects.c against the abstract view: each object has a list of
-- contents, and a move takes an object from one list to the end of another.
use waverous.Base.{
  ℕ, ◌+◌, ◌≡◌, refl, ap, sym, ◌∙◌, inl, inr, Bool, true, false, ◌&&◌, Option, none, some, ℤ, eqz,
  eqz_iff, [], ◌∷◌, ◌++◌, arith, if◌then◌else◌, Bool-cases,
}
use waverous.Database.{Object, Db, find_object, put, valid, is_some}
use waverous.Database.Chains.{
  nothing, has, Linked-Distinct, erase, has-erase, has-append, has-erase_self, erase_absent,
}
use waverous.Database.Run
use waverous.Database.Run.{Run, Cmd, Skip, Returns, returns, when, modify}
use waverous.Database.Links.{contents_links, ll_remove, ll_append}
use waverous.Database.Wiring.{
  strip, strip_option, put_keeps, put-num_objects, put-max_objects, put-all_users, put-vc_table,
  put-db_verb_generation, nexts, next_option, head_option, Same, Same-refl, Same-trans,
  find_object-put,
}
use waverous.Database.Splice.{object-ok}
use waverous.Database.Holds.{
  Owned, Holds, Holds-ext, valid-Same, ll_remove-Holds, ll_append-Holds, Holds-transport,
}
use waverous.Database.Objects.{db_change_location}

abbrev pub location_option : Option Object → Option ℤ
location_option none = none
location_option (some o) = some o.location

abbrev pub locations : Db → ℤ → Option ℤ
locations db a = location_option (find_object db a)

-- Every object stands in the list of its location, if that is an object, and in no other.
pub record Located (db : Db) (l : Owned) : Type 0 where
  pub holds : Holds contents_links db l
  pub location_of : (x o : ℤ) → has x (l o) ≡ true → locations db x ≡ some o
  pub contained : (x o : ℤ) → locations db x ≡ some o → valid db o ≡ true → has x (l o) ≡ true

-- The contents after a move; `into` says whether the new location is an object.
unfoldable pub moved : ℤ → ℤ → Bool → Owned → Owned
moved oid location into l o =
    if into && eqz o location then erase oid (l o) ++ oid ∷ [] else erase oid (l o)

-- An object but for its location and the links of the contents.
abbrev pub rest_option : Option Object → Option Object
rest_option none = none
rest_option (some o) = some (record o { contents = nothing; next = nothing; location = nothing })

-- The object has the location, no other location changed, and neither did anything else but links.
pub record Placed (oid location : ℤ) (db g : Db) : Type 0 where
  pub placed : (x : ℤ) → locations g x ≡ (if eqz x oid then some location else locations db x)
  pub rests : (x : ℤ) → rest_option (find_object g x) ≡ rest_option (find_object db x)
  pub num_objects : g.num_objects ≡ db.num_objects
  pub max_objects : g.max_objects ≡ db.max_objects
  pub all_users : g.all_users ≡ db.all_users
  pub vc_table : g.vc_table ≡ db.vc_table
  pub db_verb_generation : g.db_verb_generation ≡ db.db_verb_generation

locations-Same : {db g : Db} (a : ℤ) → Same contents_links db g → locations g a ≡ locations db a
locations-Same {db} {g} a s =
    sym (unstrip (find_object g a)) ∙ ap location_option (s.strips a) ∙ unstrip (find_object db a)
  where
    unstrip :
        (q : Option Object) → location_option (strip_option contents_links q) ≡ location_option q
    unstrip none = refl
    unstrip (some o) = unfold strip in refl

pub find_valid : (db : Db) (a : ℤ) → valid db a ≡ true → (o : Object) × (find_object db a ≡ some o)
unfolding valid
find_valid db a v = go (find_object db a) v
  where
    go : (q : Option Object) → is_some q ≡ true → (o : Object) × (q ≡ some o)
    go none h = cc
    go (some o) h = (o, refl)

rests-Same :
    {db g : Db} (a : ℤ)
    → Same contents_links db g
    → rest_option (find_object g a) ≡ rest_option (find_object db a)
rests-Same {db} {g} a s =
    sym (unstrip (find_object g a)) ∙ ap rest_option (s.strips a) ∙ unstrip (find_object db a)
  where
    unstrip : (q : Option Object) → rest_option (strip_option contents_links q) ≡ rest_option q
    unstrip none = refl
    unstrip (some o) = unfold strip in refl

valid-put :
    (g : Db) {o : Object} (a : ℤ) (n : Object)
    → find_object g a ≡ some o
    → (x : ℤ) → valid (put g a (some n)) x ≡ valid g x
unfolding valid
valid-put g a n e x = put_keeps is_some g a n e refl x

second : (a b : Bool) → (a && b) ≡ true → b ≡ true
second a b h = ground arith

both : {a b : Bool} → a ≡ true → b ≡ true → (a && b) ≡ true
both {a} {b} h k = ground arith

module _ {db : Db} {l : Owned} (oid : ℤ) (t : Located db l) where
  absent :
      (old : ℤ)
      → locations db oid ≡ some old
      → valid db old ≡ false
      → (o : ℤ) → has oid (l o) ≡ false
  absent old e v o = elim (Bool-cases (has oid (l o))) [
    | inl i ↦
        let p : some o ≡ some old = sym (t.location_of oid o i) ∙ e in
        let q : o ≡ old = cc in cc (ap (has oid) (t.holds.unowned o (ap (valid db) q ∙ v)))
    | inr n ↦ n
  ]

  -- The first half: the object leaves the list of its old location, if that is an object.
  leave :
      (old : ℤ)
      → locations db oid ≡ some old
      → Returns
          (λ _ g. Holds contents_links g (λ o. erase oid (l o)) × Same contents_links db g)
          (when (valid db old) (ll_remove contents_links (db.num_objects + 1) old oid) db)
  leave old e = elim (Bool-cases (valid db old)) [
    | inl v ↦ rw v (ll_remove-Holds contents_links old oid t.holds v (t.contained oid old e v))
    | inr n ↦ rw n (
        returns (
          Holds-ext contents_links (λ o. sym (erase_absent oid (l o) (absent old e n o))) t.holds,
          Same-refl contents_links db,
        ))
  ]

  -- The second half: it joins the list of its new location, if that is an object.
  enter :
      (g : Db) (location : ℤ) (n : ℕ)
      → g.num_objects + 1 ≡ n
      → valid db oid ≡ true
      → Holds contents_links g (λ o. erase oid (l o))
      → Same contents_links db g
      → Returns
          (λ _ m.
            Holds contents_links m (moved oid location (valid db location) l)
            × Same contents_links db m)
          (when (valid g location) (ll_append contents_links n location oid) g)
  unfolding moved
  enter g location n e v h s =
      rw (valid-Same contents_links location s) (elim (Bool-cases (valid db location)) [
        | inl w ↦
            rw (w, ← e)
              (Run.mono
                (ll_append-Holds contents_links location oid (linked_to.0) h
                  (valid-Same contents_links location s ∙ w) linked_to.1 gone)
                λ _ m (h', s'). (
                  Holds-ext contents_links (λ o. at_location o) h',
                  Same-trans contents_links s s',
                ))
        | inr f ↦ rw f (returns (h, s))
      ])
    where
      gone : (o : ℤ) → has oid (erase oid (l o)) ≡ false
      gone o = has-erase_self (nexts contents_links db) oid (l o) (t.holds.linked o)

      linked_to : (r : ℤ) × (nexts contents_links g oid ≡ some r)
      linked_to =
          let (o, e) = find_valid g oid (valid-Same contents_links oid s ∙ v) in
          (o.next, ap (next_option contents_links) e)

      at_location :
          (o : ℤ)
          → (if eqz o location then erase oid (l location) ++ oid ∷ [] else erase oid (l o))
            ≡ (if true && eqz o location then erase oid (l o) ++ oid ∷ [] else erase oid (l o))
      at_location o = elim (Bool-cases (eqz o location)) [
        | inl u ↦ rw u (ap (λ q. erase oid (l q) ++ oid ∷ []) (sym ((eqz_iff o location).0 u)))
        | inr n ↦ rw n
      ]

  has-moved :
      (location : ℤ) (into : Bool) (x o : ℤ)
      → has x (moved oid location into l o)
        ≡ (if eqz x oid then into && eqz o location else has x (l o))
  unfolding moved
  has-moved location into x o = ground (
    arith,
    has-append oid x (erase oid (l o)),
    has-erase oid x (l o) (Linked-Distinct (nexts contents_links db) (l o) (t.holds.linked o)),
    eqz_iff x oid,
    eqz_iff oid x,
  )

  -- The last write, to the field `location` alone.
  arrive :
      (g : Db) (location : ℤ)
      → valid db oid ≡ true
      → Holds contents_links g (moved oid location (valid db location) l)
      → Same contents_links db g
      → Returns
          (λ _ m. Located m (moved oid location (valid db location) l) × Placed oid location db m)
          (modify oid (λ o. record o { location = location }) g)
  arrive g location v h s =
      let (o, e) = find_valid g oid (valid-Same contents_links oid s ∙ v) in
      let n : Object = record o { location = location } in
      rw (object-ok g oid e) (
        returns (
          record {
            holds =
                Holds-transport contents_links
                  (put_keeps (next_option contents_links) g oid n e refl)
                  (put_keeps (head_option contents_links) g oid n e refl) (still_valid o e) h;
            location_of = λ x q i.
                set_location o e x
                ∙ at_place x q (sym (has-moved location (valid db location) x q) ∙ i);
            contained = λ x q p w.
                has-moved location (valid db location) x q
                ∙ in_place x q (sym (set_location o e x) ∙ p)
                    (sym (valid-Same contents_links q s) ∙ sym (still_valid o e q) ∙ w);
          },
          record {
            placed = set_location o e;
            rests = λ x. put_keeps rest_option g oid n e refl x ∙ rests-Same x s;
            num_objects = put-num_objects g (some n) oid ∙ s.num_objects;
            max_objects = put-max_objects g (some n) oid ∙ s.max_objects;
            all_users = put-all_users g (some n) oid ∙ s.all_users;
            vc_table = put-vc_table g (some n) oid ∙ s.vc_table;
            db_verb_generation = put-db_verb_generation g (some n) oid ∙ s.db_verb_generation;
          },
        ))
    where
      still_valid :
          (o : Object)
          → find_object g oid ≡ some o
          → (x : ℤ) → valid (put g oid (some (record o { location = location }))) x ≡ valid g x
      still_valid o e x = valid-put g oid (record o { location = location }) e x

      set_location :
          (o : Object)
          → find_object g oid ≡ some o
          → (x : ℤ)
          → locations (put g oid (some (record o { location = location }))) x
            ≡ (if eqz x oid then some location else locations db x)
      set_location o e x =
          ap location_option (find_object-put g oid (record o { location = location }) x e)
          ∙ (elim (Bool-cases (eqz x oid)) [ inl t ↦ rw t | inr f ↦ rw f (locations-Same x s) ])

      at_place :
          (x q : ℤ)
          → (if eqz x oid then valid db location && eqz q location else has x (l q)) ≡ true
          → (if eqz x oid then some location else locations db x) ≡ some q
      at_place x q i = elim (Bool-cases (eqz x oid)) [
        | inl u ↦ rw u (
            ap some (
              sym
                ((eqz_iff q location).0 (second (valid db location) (eqz q location) (rw u at i)))))
        | inr f ↦ rw f (t.location_of x q (rw f at i))
      ]

      in_place :
          (x q : ℤ)
          → (if eqz x oid then some location else locations db x) ≡ some q
          → valid db q ≡ true
          → (if eqz x oid then valid db location && eqz q location else has x (l q)) ≡ true
      in_place x q p w = elim (Bool-cases (eqz x oid)) [
        | inl u ↦
            let at_q : some location ≡ some q = rw u at p in
            let e : location ≡ q = cc in
            rw u (both (ap (valid db) e ∙ w) ((eqz_iff q location).1 (sym e)))
        | inr f ↦ rw f (t.contained x q (rw f at p) w)
      ]

-- In a table whose contents lists are well linked and agree with the locations, and for an object
-- that is there, `db_change_location` ends and keeps the table so. The object is then the last of
-- the contents of its new location, if that is an object, and gone from those of the old one; all
-- else, but for the links of the contents, is as before.
pub db_change_location-Located :
    {db : Db} {l : Owned} (oid location : ℤ)
    → Located db l
    → valid db oid ≡ true
    → Returns
        (λ _ g. Located g (moved oid location (valid db location) l) × Placed oid location db g)
        (db_change_location oid location db)
unfolding db_change_location
db_change_location-Located {db} {l} oid location t v =
    let (o, e) = find_valid db oid v in
    rw (object-ok db oid e) (
      Run.bind (leave oid t o.location (ap location_option e)) λ _ g (h, s).
        Run.bind (enter oid t g location (db.num_objects + 1) (ap (λ n. n + 1) s.num_objects) v h s)
          λ _ m (h', s'). arrive oid t m location v h' s')
