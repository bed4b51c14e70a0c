-- ===== src/Database/Flags.antt =====
-- The flags of the objects of server/db_objects.c and the list of users that is kept with them.
use waverous.Base.{
  ℕ, ◌≡◌, refl, ap, sym, ◌∙◌, inl, inr, Bool, true, false, ◌&&◌, ◌||◌, Option, none, some, ℤ, pos,
  negsuc, eqz, eqz_iff, List, [], ◌∷◌, ◌++◌, arith, ◌==◌, if◌then◌else◌, Bool-cases,
}
use waverous.Database.{Object, Db, find_object, valid, put}
use waverous.Database.Chains.{has, Distinct, has-append, has-erase, Distinct-erase}
use waverous.Database.Run.{Returns, returns, when, modify_db}
use waverous.Database.Wiring.{find_object-put, put_keeps, put-all_users}
use waverous.Database.Splice.{object-ok}
use waverous.Database.Location.{find_valid}
use waverous.Database.Objects.{
  Flag, bit, user, is_user_flag, test_bit, set_bit, clear_bit, add_user, remove_user,
  db_set_object_flag, db_clear_object_flag,
}

abbrev pub same_flag : Flag → Flag → Bool
same_flag f g = bit f == bit g

test_bit-set_bit :
    (n : ℕ) (f g : Flag)
    → test_bit (set_bit n (bit f)) (bit g) ≡ (if same_flag f g then true else test_bit n (bit g))
unfolding test_bit set_bit
test_bit-set_bit n f g = ground arith

test_bit-clear_bit :
    (n : ℕ) (f g : Flag)
    → test_bit (clear_bit n (bit f)) (bit g) ≡ (if same_flag f g then false else test_bit n (bit g))
unfolding test_bit clear_bit
test_bit-clear_bit n f g = ground arith

abbrev pub flag_of : Flag → Option Object → Bool
flag_of f none = false
flag_of f (some o) = test_bit o.flags (bit f)

-- The object is there and has the flag.
abbrev pub flagged : Db → ℤ → Flag → Bool
flagged db x f = flag_of f (find_object db x)

-- The list of users holds exactly the objects with the flag `user`, each once.
pub record UsersListed (db : Db) : Type 0 where
  pub users_eq : (x : ℤ) → has x db.all_users ≡ flagged db x user
  pub once : Distinct db.all_users

Distinct-append : (a : ℤ) (xs : List ℤ) → has a xs ≡ false → Distinct xs → Distinct (xs ++ a ∷ [])
Distinct-append a [] h d = (refl, tt)
Distinct-append a (x ∷ xs) h d = (
  ground (arith, has-append a x xs, eqz_iff a x, eqz_iff x a, d.0),
  Distinct-append a xs (ground arith) d.1,
)

has-add_user :
    (a x : ℤ) (db : Db) → has x (add_user a db).all_users ≡ (eqz x a || has x db.all_users)
unfolding add_user
has-add_user a x db = ground (arith, has-append a x db.all_users, eqz_iff x a)

Distinct-add_user : (a : ℤ) (db : Db) → Distinct db.all_users → Distinct (add_user a db).all_users
unfolding add_user
Distinct-add_user a db d = elim (Bool-cases (has a db.all_users)) [
  | inl t ↦ rw t d
  | inr f ↦ rw f (Distinct-append a db.all_users f d)
]

abbrev pub but_flags : Option Object → Option Object
but_flags none = none
but_flags (some o) = some (record o { flags = 0 })

-- One flag of one object has the value; any other flag of any object, and whatever else the objects
-- hold, is as before.
pub record FlagChanged (oid : ℤ) (f : Flag) (val : Bool) (db g : Db) : Type 0 where
  pub flags_eq :
      (x : ℤ) (h : Flag)
      → flagged g x h ≡ (if eqz x oid && same_flag f h then val else flagged db x h)
  pub others : (x : ℤ) → but_flags (find_object g x) ≡ but_flags (find_object db x)

-- What is done to the list of users with the flag `user`.
abbrev change_users : Bool → ℤ → Db → Db
change_users true oid = add_user oid
change_users false oid = remove_user oid

find_object-change_users :
    (val : Bool) (a x : ℤ) (db : Db) → find_object (change_users val a db) x ≡ find_object db x
unfolding find_object add_user remove_user
find_object-change_users true a (pos n) db = refl
find_object-change_users true a (negsuc n) db = refl
find_object-change_users false a (pos n) db = refl
find_object-change_users false a (negsuc n) db = refl

has-change_users :
    (val : Bool) (a x : ℤ) (db : Db)
    → Distinct db.all_users
    → has x (change_users val a db).all_users ≡ (if eqz x a then val else has x db.all_users)
has-change_users true a x db d = ground (arith, has-add_user a x db)
has-change_users false a x db d =
    unfold remove_user in ground (arith, has-erase a x db.all_users d, eqz_iff x a, eqz_iff a x)

Distinct-change_users :
    (val : Bool) (a : ℤ) (db : Db)
    → Distinct db.all_users
    → Distinct (change_users val a db).all_users
Distinct-change_users true a db d = Distinct-add_user a db d
Distinct-change_users false a db d = unfold remove_user in Distinct-erase a db.all_users d

same_flag-user : (f : Flag) → same_flag f user ≡ is_user_flag f
same_flag-user f = ground arith

module _ (oid : ℤ) (f : Flag) (val : Bool) (db : Db) {o : Object} (e : find_object db oid ≡ some o)
    (n : ℕ)
    (n_eq : (h : Flag)
      → test_bit n (bit h) ≡ (if same_flag f h then val else test_bit o.flags (bit h))) where
  abbrev written : Db
  written = put db oid (some (record o { flags = n }))

  written-FlagChanged : FlagChanged oid f val db written
  written-FlagChanged = record {
    flags_eq = λ x h.
        ap (flag_of h) (find_object-put db oid (record o { flags = n }) x e)
        ∙ (elim (Bool-cases (eqz x oid)) [
          | inl t ↦ rw t (
              n_eq h
              ∙ ap (λ b. if same_flag f h then val else b) (before x h ((eqz_iff x oid).0 t)))
          | inr u ↦ rw u
        ]);
    others = λ x. put_keeps but_flags db oid (record o { flags = n }) e refl x;
  }
    where
      before : (x : ℤ) (h : Flag) → x ≡ oid → test_bit o.flags (bit h) ≡ flagged db x h
      before x h at = sym (ap (flag_of h) (ap (find_object db) at ∙ e))

  -- The rest of the two functions keeps the list of users right.
  finish :
      UsersListed db
      → Returns
          (λ _ g. UsersListed g × FlagChanged oid f val db g)
          (when (is_user_flag f) (modify_db (change_users val oid)) written)
  finish u = elim (Bool-cases (is_user_flag f)) [
    | inl t ↦ rw t (
        returns (
          record {
            users_eq = λ x.
                has-change_users val oid x written written-Distinct
                ∙ (rw written-all_users (with_user x t))
                ∙ sym (
                    ap (flag_of user) (find_object-change_users val oid x written)
                    ∙ written-FlagChanged.flags_eq x user);
            once = Distinct-change_users val oid written written-Distinct;
          },
          record {
            flags_eq = λ x h.
                ap (flag_of h) (find_object-change_users val oid x written)
                ∙ written-FlagChanged.flags_eq x h;
            others = λ x.
                ap but_flags (find_object-change_users val oid x written)
                ∙ written-FlagChanged.others x;
          },
        ))
    | inr t ↦ rw t (
        returns (
          record {
            users_eq = λ x.
                ap (has x) written-all_users
                ∙ u.users_eq x
                ∙ sym (written-FlagChanged.flags_eq x user ∙ without_user x t);
            once = written-Distinct;
          },
          written-FlagChanged,
        ))
  ]
    where
      written-all_users : written.all_users ≡ db.all_users
      written-all_users = put-all_users db (some (record o { flags = n })) oid

      written-Distinct : Distinct written.all_users
      written-Distinct = rw written-all_users u.once

      with_user :
          (x : ℤ)
          → is_user_flag f ≡ true
          → (if eqz x oid then val else has x db.all_users)
            ≡ (if eqz x oid && same_flag f user then val else flagged db x user)
      with_user x t =
          rw (same_flag-user f, t, u.users_eq x) (split (eqz x oid) val (flagged db x user))
        where
          split : (a b c : Bool) → (if a then b else c) ≡ (if a && true then b else c)
          split a b c = ground arith

      without_user :
          (x : ℤ)
          → is_user_flag f ≡ false
          → (if eqz x oid && same_flag f user then val else flagged db x user) ≡ flagged db x user
      without_user x t = rw (same_flag-user f, t) (split (eqz x oid) val (flagged db x user))
        where
          split : (a b c : Bool) → (if a && false then b else c) ≡ c
          split a b c = ground arith

-- If the list of users holds exactly the objects with the flag `user`, then setting a flag of an
-- object that is there ends, keeps the list so, sets that flag, and leaves all other flags and the
-- rest of every object as before.
pub db_set_object_flag-UsersListed :
    {db : Db} (oid : ℤ) (f : Flag)
    → UsersListed db
    → valid db oid ≡ true
    → Returns (λ _ g. UsersListed g × FlagChanged oid f true db g) (db_set_object_flag oid f db)
unfolding db_set_object_flag
db_set_object_flag-UsersListed {db} oid f u v =
    let (o, e) = find_valid db oid v in
    rw (object-ok db oid e)
      (finish oid f true db e (set_bit o.flags (bit f)) (λ h. test_bit-set_bit o.flags f h) u)

-- If the list of users holds exactly the objects with the flag `user`, then clearing a flag of an
-- object that is there ends, keeps the list so, clears that flag, and leaves all other flags and the
-- rest of every object as before.
pub db_clear_object_flag-UsersListed :
    {db : Db} (oid : ℤ) (f : Flag)
    → UsersListed db
    → valid db oid ≡ true
    → Returns (λ _ g. UsersListed g × FlagChanged oid f false db g) (db_clear_object_flag oid f db)
unfolding db_clear_object_flag
db_clear_object_flag-UsersListed {db} oid f u v =
    let (o, e) = find_valid db oid v in
    rw (object-ok db oid e)
      (finish oid f false db e (clear_bit o.flags (bit f)) (λ h. test_bit-clear_bit o.flags f h) u)
