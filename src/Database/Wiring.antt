-- ===== src/Database/Wiring.antt =====
-- What the writes of LL_REMOVE and LL_APPEND in server/db_objects.c do to the links of all objects.
use waverous.Base.{
  ◌≡◌, refl, ap, sym, ◌∙◌, inl, inr, Option, none, some, ℤ, pos, negsuc, eqz, eqz_iff, arith,
  if◌then◌else◌, Bool-cases,
}
use waverous.Database.{Object, Db, find_object, put}
use waverous.Database.Chains.{nothing, Table, upd}
use waverous.Database.Links.{Links}

pub find_object-put :
    (db : Db) {o : Object} (a : ℤ) (n : Object) (b : ℤ)
    → find_object db a ≡ some o
    → find_object (put db a (some n)) b ≡ (if eqz b a then some n else find_object db b)
unfolding find_object put eqz
find_object-put db (pos i) n (pos j) h = ground arith
find_object-put db (pos i) n (negsuc j) h = refl
find_object-put db (negsuc i) n b h = cc

-- A write that keeps what `f` reads of the object keeps what it reads of any.
pub put_keeps {ℓ} :
    {B : Type ℓ} (f : Option Object → B) (db : Db) {o : Object} (a : ℤ) (n : Object)
    → find_object db a ≡ some o
    → f (some n) ≡ f (some o)
    → (b : ℤ) → f (find_object (put db a (some n)) b) ≡ f (find_object db b)
put_keeps f db a n h p b = ap f (find_object-put db a n b h) ∙ (elim (Bool-cases (eqz b a)) [
  | inl t ↦ rw t (p ∙ ap f (sym h) ∙ ap (λ q. f (find_object db q)) (sym ((eqz_iff b a).0 t)))
  | inr n ↦ rw n
])

module _ (db : Db) (o : Option Object) where
  pub put-num_objects : (a : ℤ) → (put db a o).num_objects ≡ db.num_objects
  unfolding put
  put-num_objects (pos n) = refl
  put-num_objects (negsuc n) = refl

  pub put-max_objects : (a : ℤ) → (put db a o).max_objects ≡ db.max_objects
  unfolding put
  put-max_objects (pos n) = refl
  put-max_objects (negsuc n) = refl

  pub put-all_users : (a : ℤ) → (put db a o).all_users ≡ db.all_users
  unfolding put
  put-all_users (pos n) = refl
  put-all_users (negsuc n) = refl

  pub put-vc_table : (a : ℤ) → (put db a o).vc_table ≡ db.vc_table
  unfolding put
  put-vc_table (pos n) = refl
  put-vc_table (negsuc n) = refl

  pub put-db_verb_generation : (a : ℤ) → (put db a o).db_verb_generation ≡ db.db_verb_generation
  unfolding put
  put-db_verb_generation (pos n) = refl
  put-db_verb_generation (negsuc n) = refl

module _ (k : Links) where
  -- The object without its links.
  unfoldable pub strip : Object → Object
  strip o = k.set_head (k.set_next o nothing) nothing

  strip-set_next : (o : Object) (r : ℤ) → strip (k.set_next o r) ≡ strip o
  unfolding strip
  strip-set_next o r = ap (λ z. k.set_head z nothing) (k.set_next-set_next o r nothing)

  strip-set_head : (o : Object) (r : ℤ) → strip (k.set_head o r) ≡ strip o
  unfolding strip
  strip-set_head o r =
      ap (λ z. k.set_head z nothing) (k.set_next-set_head o r nothing)
      ∙ k.set_head-set_head (k.set_next o nothing) r nothing

  abbrev pub strip_option : Option Object → Option Object
  strip_option none = none
  strip_option (some o) = some (strip o)

  abbrev pub next_option : Option Object → Option ℤ
  next_option none = none
  next_option (some o) = some (k.next o)

  abbrev pub head_option : Option Object → Option ℤ
  head_option none = none
  head_option (some o) = some (k.head o)

  abbrev pub nexts : Db → Table
  nexts db a = next_option (find_object db a)

  abbrev pub heads : Db → Table
  heads db a = head_option (find_object db a)

  -- The two tables have the same objects, but for these links.
  pub record Same (db g : Db) : Type 0 where
    pub strips : (a : ℤ) → strip_option (find_object g a) ≡ strip_option (find_object db a)
    pub num_objects : g.num_objects ≡ db.num_objects
    pub max_objects : g.max_objects ≡ db.max_objects
    pub all_users : g.all_users ≡ db.all_users
    pub vc_table : g.vc_table ≡ db.vc_table
    pub db_verb_generation : g.db_verb_generation ≡ db.db_verb_generation

  pub Same-refl : (db : Db) → Same db db
  Same-refl db = record {
    strips = λ a. refl;
    num_objects = refl;
    max_objects = refl;
    all_users = refl;
    vc_table = refl;
    db_verb_generation = refl;
  }

  pub Same-trans : {a b c : Db} → Same a b → Same b c → Same a c
  Same-trans p q = record {
    strips = λ x. q.strips x ∙ p.strips x;
    num_objects = q.num_objects ∙ p.num_objects;
    max_objects = q.max_objects ∙ p.max_objects;
    all_users = q.all_users ∙ p.all_users;
    vc_table = q.vc_table ∙ p.vc_table;
    db_verb_generation = q.db_verb_generation ∙ p.db_verb_generation;
  }

  -- The links after a write, and nothing else changed.
  pub record Effect (f h : Table) (db g : Db) : Type 0 where
    pub nexts_eq : (a : ℤ) → nexts g a ≡ f a
    pub heads_eq : (a : ℤ) → heads g a ≡ h a
    pub same : Same db g

  module _ (db : Db) {o : Object} (a : ℤ) (h : find_object db a ≡ some o) where
    Same-put : (n : Object) → strip n ≡ strip o → Same db (put db a (some n))
    Same-put n e = record {
      strips = λ x. rw (find_object-put db a n x h) (elim (Bool-cases (eqz x a)) [
        | inl t ↦ let at : x ≡ a = (eqz_iff x a).0 t in rw (t, at, h) (ap some e)
        | inr f ↦ rw f
      ]);
      num_objects = put-num_objects db (some n) a;
      max_objects = put-max_objects db (some n) a;
      all_users = put-all_users db (some n) a;
      vc_table = put-vc_table db (some n) a;
      db_verb_generation = put-db_verb_generation db (some n) a;
    }

    pub Effect-set_next :
        (r : ℤ)
        → Effect (upd (nexts db) a (some r)) (heads db) db (put db a (some (k.set_next o r)))
    Effect-set_next r = record {
      nexts_eq = λ x. rw (find_object-put db a (k.set_next o r) x h) (elim (Bool-cases (eqz x a)) [
        | inl t ↦ rw t (ap some (k.next-set_next o r))
        | inr f ↦ rw f
      ]);
      heads_eq = λ x. rw (find_object-put db a (k.set_next o r) x h) (elim (Bool-cases (eqz x a)) [
        | inl t ↦
            let at : x ≡ a = (eqz_iff x a).0 t in rw (t, at, h) (ap some (k.head-set_next o r))
        | inr f ↦ rw f
      ]);
      same = Same-put (k.set_next o r) (strip-set_next o r);
    }

    pub Effect-set_head :
        (r : ℤ)
        → Effect (nexts db) (upd (heads db) a (some r)) db (put db a (some (k.set_head o r)))
    Effect-set_head r = record {
      nexts_eq = λ x. rw (find_object-put db a (k.set_head o r) x h) (elim (Bool-cases (eqz x a)) [
        | inl t ↦
            let at : x ≡ a = (eqz_iff x a).0 t in rw (t, at, h) (ap some (k.next-set_head o r))
        | inr f ↦ rw f
      ]);
      heads_eq = λ x. rw (find_object-put db a (k.set_head o r) x h) (elim (Bool-cases (eqz x a)) [
        | inl t ↦ rw t (ap some (k.head-set_head o r))
        | inr f ↦ rw f
      ]);
      same = Same-put (k.set_head o r) (strip-set_head o r);
    }

    pub next_of : (r : ℤ) → nexts db a ≡ some r → k.next o ≡ r
    next_of r e = let p : some (k.next o) ≡ some r = sym (ap next_option h) ∙ e in cc
