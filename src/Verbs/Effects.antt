-- ===== src/Verbs/Effects.antt =====
-- How the writes of server/db_verbs.c to the verbs of an object change the table.
use waverous.Base.{
  ℕ, ◌+◌, ◌≡◌, refl, ap, ◌∙◌, inl, inr, Option, none, some, ℤ, pos, negsuc, [], get_elem?,
  Option-cases,
}
use mathlib.Core.Path.{subst}
use waverous.Database.{Object, Db, Verbdef, find_object, put}
use waverous.Database.Run.{Run, Cmd, and_then, ok, fault, panic, out_of_fuel, object}
use waverous.Database.Objects.{db_priv_affected_callable_verb_lookup}
use waverous.Database.Wiring.{put_keeps}
use waverous.Verbs.{Handle}
use waverous.Verbs.Handles.{verb_at, set_verb, update_verb}
use waverous.Verbs.Cache.{Buckets}
use waverous.Verbs.Coherent.{AreRight}
use waverous.Verbs.Views.{Coherent, shape, Coherent-shape}

-- What holds of the table after a run that ends well.
abbrev pub After : {A : Type 0} → (Db → Type 0) → Run A → Type 0
After P (ok a g) = P g
After P fault = Unit
After P panic = Unit
After P out_of_fuel = Unit

pub after :
    {A : Type 0} (P : Db → Type 0) {r : Run A} {a : A} {g : Db} → After P r → r ≡ ok a g → P g
after P h e = subst (After P) e h

pub put-vc_table : (db : Db) (a : ℤ) (o : Option Object) → (put db a o).vc_table ≡ db.vc_table
unfolding put
put-vc_table db (pos n) o = refl
put-vc_table db (negsuc n) o = refl

-- No entry at all.
abbrev pub IsEmpty : Option Buckets → Type 0
IsEmpty none = Unit
IsEmpty (some table) = (b : ℕ) → table b ≡ []

IsEmpty-AreRight : (g : Db) (t : Option Buckets) → IsEmpty t → AreRight g t
IsEmpty-AreRight g none e = tt
IsEmpty-AreRight g (some table) e = λ b. rw (e b) tt

-- A cache without entries, and each object where it was.
abbrev pub Flushed : Db → Db → Type 0
Flushed db g = IsEmpty g.vc_table × ((x : ℤ) → find_object g x ≡ find_object db x)

find_object-flushed :
    (db : Db) (t : Option Buckets) (n : ℕ) (x : ℤ)
    → find_object (record db { vc_table = t; db_verb_generation = n }) x ≡ find_object db x
unfolding find_object
find_object-flushed db t n (pos i) = refl
find_object-flushed db t n (negsuc i) = refl

pub flush-ok :
    (db : Db) → (g : Db) × (db_priv_affected_callable_verb_lookup db ≡ ok tt g) × Flushed db g
unfolding db_priv_affected_callable_verb_lookup
flush-ok db = go db.vc_table refl
  where
    go :
        (t : Option Buckets)
        → db.vc_table ≡ t
        → (g : Db) × (db_priv_affected_callable_verb_lookup db ≡ ok tt g) × Flushed db g
    go none e = (db, rw e refl, (rw e tt, λ x. refl))
    go (some table) e = (
      record db { vc_table = some (λ _. []); db_verb_generation = db.db_verb_generation + 1 },
      rw e refl,
      ((λ b. refl), find_object-flushed db _ (db.db_verb_generation + 1)),
    )

-- After the cache is emptied comes whatever the rest of the run does.
pub flush_then :
    {A : Type 0} (P : Db → Type 0) (db : Db) (rest : Cmd A)
    → ((g : Db) → Flushed db g → After P (rest g))
    → After P (and_then (db_priv_affected_callable_verb_lookup db) (λ _. rest))
unfolding db_priv_affected_callable_verb_lookup
flush_then P db rest h = go db.vc_table refl
  where
    go :
        (t : Option Buckets)
        → db.vc_table ≡ t
        → After P (and_then (db_priv_affected_callable_verb_lookup db) (λ _. rest))
    go none e = rw e (h _ (tt, find_object-flushed db none db.db_verb_generation))
    go (some table) e = rw e (h _ (λ b. refl, find_object-flushed db _ (db.db_verb_generation + 1)))

-- A write to an object, with what it reads there.
pub object_then :
    {A : Type 0} (P : Db → Type 0) (db : Db) (a : ℤ) (rest : Object → Cmd A)
    → ((o : Object) → find_object db a ≡ some o → After P (rest o db))
    → After P (and_then (object a db) rest)
unfolding object
object_then P db a rest h = elim (Option-cases (find_object db a)) [
  | inl n ↦ rw (After, and_then, n) tt
  | inr (o, n) ↦ rw (After, and_then, n) (h o n)
]

pub update_verb-After :
    (P : Db → Type 0) (h : Option Handle) (f : Verbdef → Verbdef) (db : Db)
    → ((a : ℤ) (o : Object) (i : ℕ) (v : Verbdef)
        → find_object db a ≡ some o
        → get_elem? o.verbdefs i ≡ some v
        → P (put db a (some (record o { verbdefs = set_verb o.verbdefs i (f v) }))))
    → After P (update_verb h f db)
unfolding update_verb verb_at
update_verb-After P none f db k = tt
update_verb-After P (some h) f db k = object_then P db h.definer _ λ o e.
    elim (Option-cases (get_elem? o.verbdefs h.verbdef)) [
      | inl n ↦ rw (n, and_then) tt
      | inr (v, n) ↦ rw (n, and_then) (k h.definer o h.verbdef v e n)
    ]

-- After a write that keeps number and parent of an object, an empty cache is still right.
pub written :
    (db g : Db) (a : ℤ) (o n : Object)
    → Coherent db
    → Flushed db g
    → find_object g a ≡ some o
    → shape (some n) ≡ shape (some o)
    → Coherent (put g a (some n))
written db g a o n c (e, same) at s =
    Coherent-shape db (put g a (some n)) (λ x. put_keeps shape g a n at s x ∙ ap shape (same x))
      (IsEmpty-AreRight _ _ (rw (put-vc_table g a (some n)) e)) c
