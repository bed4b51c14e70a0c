-- ===== src/Verbs/Steps.antt =====
-- The commands of server/db_verbs.c that look at or change the verbs, as steps from one table to
-- the next, and the verb cache after any number of them.
use waverous.Base.{
  ℕ, zero, suc, ◌≡◌, refl, ap, inl, inr, Bool, true, Option, some, ℤ, List, [], ◌∷◌, length,
  get_elem?, ltb, Bool-cases,
}
use mathlib.Core.Path.{fun_ext, ap₂}
use waverous.Text.{CStr, IsText}
use waverous.Database.{Object, Db, Verbdef, find_object, put}
use waverous.Database.Run.{Run, Cmd, Returns, returns, and_then, ok}
use waverous.Database.Objects.{db_priv_affected_callable_verb_lookup}
use waverous.Database.Wiring.{put_keeps}
use waverous.Verbs.{Handle, Shares, apart, db_add_verb, is_verb, first_verb, find_verbdef_by_name}
use waverous.Verbs.Handles.{
  set_verb, update_verb, db_delete_verb, db_set_verb_names, db_set_verb_owner, db_set_verb_flags,
  db_set_verb_program, db_set_verb_arg_specs,
}
use waverous.Verbs.Cache.{has_verbs, db_find_callable_verb}
use waverous.Verbs.Addresses.{IsHarmless}
use waverous.Verbs.Answers.{Answers, db_find_callable_verb-callable}
use waverous.Verbs.Views.{Coherent, shape, view, Coherent-shape, AreRight-view}
use waverous.Verbs.Effects.{
  After, after, put-vc_table, flush_then, object_then, update_verb-After, written,
}

-- A command that empties the cache and then changes a verb.
flushing :
    (h : Option Handle) (f : Verbdef → Verbdef) (db : Db)
    → Coherent db
    → After Coherent (and_then (db_priv_affected_callable_verb_lookup db) (λ _. update_verb h f))
flushing h f db c =
    flush_then Coherent db (update_verb h f)
      λ g fl. update_verb-After Coherent h f g λ a o i v at n. written db g a o _ c fl at refl

db_add_verb-After :
    (db : Db) (oid : ℤ) (vnames : CStr) (owner : ℤ) (flags dobj : ℕ) (prep : ℤ) (iobj : ℕ)
    → Coherent db
    → After Coherent (db_add_verb oid vnames owner flags dobj prep iobj db)
unfolding db_add_verb
db_add_verb-After db oid vnames owner flags dobj prep iobj c =
    flush_then Coherent db _
      λ g fl. object_then Coherent g oid _ λ o at. written db g oid o _ c fl at refl

db_delete_verb-After : (db : Db) (h : Handle) → Coherent db → After Coherent (db_delete_verb h db)
unfolding db_delete_verb
db_delete_verb-After db h c = flush_then Coherent db _ λ g fl.
    object_then Coherent g h.definer _ λ o at.
      elim (Bool-cases (ltb h.verbdef (length o.verbdefs))) [
        | inl t ↦ rw t (written db g h.definer o _ c fl at refl)
        | inr f ↦ rw f tt
      ]

first_verb-set_verb :
    (test : Verbdef → Bool) (v w : Verbdef) (vs : List Verbdef) (i : ℕ)
    → get_elem? vs i ≡ some v
    → test w ≡ test v
    → first_verb test (set_verb vs i w) ≡ first_verb test vs
unfolding first_verb set_verb
first_verb-set_verb test v w [] i at e = refl
first_verb-set_verb test v w (u ∷ vs) zero at e = let same : test w ≡ test u = cc in rw same refl
first_verb-set_verb test v w (u ∷ vs) (suc i) at e =
    rw (first_verb-set_verb test v w vs i at e) refl

has_verbs-set_verb :
    (vs : List Verbdef) (i : ℕ) (w : Verbdef) → has_verbs (set_verb vs i w) ≡ has_verbs vs
unfolding set_verb
has_verbs-set_verb [] i w = refl
has_verbs-set_verb (v ∷ vs) zero w = refl
has_verbs-set_verb (v ∷ vs) (suc i) w = refl

-- A command that changes a verb in what no search for it reads.
quiet :
    (h : Option Handle) (f : Verbdef → Verbdef) (db : Db)
    → ((w : CStr) (v : Verbdef) → is_verb apart w true (f v) ≡ is_verb apart w true v)
    → Coherent db
    → After Coherent (update_verb h f db)
unfolding find_verbdef_by_name
quiet h f db unseen c = update_verb-After Coherent h f db λ a o i v at n.
    let n' : Object = record o { verbdefs = set_verb o.verbdefs i (f v) } in
    let seen : (λ (w : CStr). find_verbdef_by_name apart n' w true)
        ≡ (λ w. find_verbdef_by_name apart o w true) =
      fun_ext λ w. first_verb-set_verb (is_verb apart w true) v (f v) o.verbdefs i n (unseen w v) in
    let views : view (some n') ≡ view (some o) =
      ap₂ (λ b (s : CStr → Option ℕ). some (o.id, o.parent, b, s))
        (has_verbs-set_verb o.verbdefs i (f v)) seen in
    let same : (x : ℤ) → view (find_object (put db a (some n')) x) ≡ view (find_object db x) =
      put_keeps view db a n' at views in
    Coherent-shape db (put db a (some n')) (put_keeps shape db a n' at refl)
      (AreRight-view db _ same _ (rw (put-vc_table db a (some n')) c.1)) c

db_set_verb_owner-After :
    (db : Db) (h : Option Handle) (owner : ℤ)
    → Coherent db
    → After Coherent (db_set_verb_owner h owner db)
unfolding db_set_verb_owner is_verb
db_set_verb_owner-After db h owner c = quiet h _ db (λ w v. refl) c

db_set_verb_program-After :
    (db : Db) (h : Option Handle) (program : ℕ)
    → Coherent db
    → After Coherent (db_set_verb_program h program db)
unfolding db_set_verb_program is_verb
db_set_verb_program-After db h program c = quiet h _ db (λ w v. refl) c

-- A command that ended well led from the first table to the second.
abbrev From : {A : Type 0} → Cmd A → Db → Db → Type 0
From {A} m db g = (a : A) × (m db ≡ ok a g)

-- One command on the verbs of a table.
pub data Step (db g : Db) : Type 0 where
  looked_up :
      (same : Shares) (x : ℤ) (word : CStr)
      → IsHarmless same word
      → IsText word
      → From (db_find_callable_verb same x word) db g
      → Step db g
  added :
      (oid : ℤ) (vnames : CStr) (owner : ℤ) (flags dobj : ℕ) (prep : ℤ) (iobj : ℕ)
      → From (db_add_verb oid vnames owner flags dobj prep iobj) db g
      → Step db g
  deleted : (h : Handle) → From (db_delete_verb h) db g → Step db g
  renamed : (h : Option Handle) (names : CStr) → From (db_set_verb_names h names) db g → Step db g
  given : (h : Option Handle) (owner : ℤ) → From (db_set_verb_owner h owner) db g → Step db g
  flagged : (h : Option Handle) (flags : ℕ) → From (db_set_verb_flags h flags) db g → Step db g
  programmed :
      (h : Option Handle) (program : ℕ) → From (db_set_verb_program h program) db g → Step db g
  specified :
      (h : Option Handle) (dobj : ℕ) (prep : ℤ) (iobj : ℕ)
      → From (db_set_verb_arg_specs h dobj prep iobj) db g
      → Step db g

-- Any number of commands, the last first.
pub data Steps (db : Db) : Db → Type 0 where
  start : Steps db db
  next : {g k : Db} → Steps db g → Step g k → Steps db k

answered :
    (db g : Db) (expected : Option Handle) (h : Option Handle)
    → Coherent db
    → Answers db expected h g
    → Coherent g
answered db g expected h c (_, a, same) = Coherent-shape db g (λ x. ap shape (same x)) a c

looked_up-Coherent :
    (db g : Db) (same : Shares) (x : ℤ) (word : CStr) (h : Option Handle)
    → IsHarmless same word
    → IsText word
    → Coherent db
    → db_find_callable_verb same x word db ≡ ok h g
    → Coherent g
looked_up-Coherent db g same x word h harmless t c e =
    let (os, u) = c.2 x in
    go _ (db_find_callable_verb-callable same db x os word harmless c.0 c.1 u t) e
  where
    go :
        {expected : Option Handle} (r : Run (Option Handle))
        → Returns (Answers db expected) r
        → r ≡ ok h g
        → Coherent g
    go _ (returns p) e = after Coherent (answered db _ _ _ c p) e

Step-Coherent : (db g : Db) → Step db g → Coherent db → Coherent g
unfolding db_set_verb_names db_set_verb_flags db_set_verb_arg_specs
Step-Coherent db g (looked_up same x word harmless t (h, e)) c =
    looked_up-Coherent db g same x word h harmless t c e
Step-Coherent db g (added oid vnames owner flags dobj prep iobj (n, e)) c =
    after Coherent (db_add_verb-After db oid vnames owner flags dobj prep iobj c) e
Step-Coherent db g (deleted h (_, e)) c = after Coherent (db_delete_verb-After db h c) e
Step-Coherent db g (renamed h names (_, e)) c =
    after Coherent (flushing h (λ v. record v { name = names }) db c) e
Step-Coherent db g (given h owner (_, e)) c =
    after Coherent (db_set_verb_owner-After db h owner c) e
Step-Coherent db g (flagged h flags (_, e)) c = after Coherent (flushing h _ db c) e
Step-Coherent db g (programmed h program (_, e)) c =
    after Coherent (db_set_verb_program-After db h program c) e
Step-Coherent db g (specified h dobj prep iobj (_, e)) c = after Coherent (flushing h _ db c) e

-- From a table in which the field `id` of each object is its number, the way up from each number
-- ends, and the entries of the verb cache are right, any number of lookups, additions, deletions
-- and changes of verbs that end well lead to such a table again. The word of a lookup is not the
-- string of a verb's names itself, unless it matches them as a text.
pub Steps-Coherent : (db g : Db) → Coherent db → Steps db g → Coherent g
Steps-Coherent db _ c start = c
Steps-Coherent db _ c (next {g} {k} steps step) =
    Step-Coherent g k step (Steps-Coherent db g c steps)
