-- ===== src/Verbs/ArgSpecs.antt =====
-- `db_set_verb_arg_specs` of server/db_verbs.c packs the two argument specifications of a verb into
-- the bits above its flags.
use waverous.Base.{
  ℕ, zero, suc, ◌*◌, ◌%◌, ◌<◌, ◌≡◌, refl, ◌∙◌, inl, inr, Bool, true, ◌&&◌, some, ℤ, List, [], ◌∷◌,
  arith, ◌==◌, get_elem?, Bool-cases,
}
use Prim.Native.Nat.{bit_or}
use waverous.Numbers.Shorts.{short_bits, to_short, IsShort, to_short-IsShort}
use waverous.Base.Int.{eqz_refl}
use waverous.Database.{Object, Db, Verbdef, find_object, put}
use waverous.Database.Run.{Returns, returns, and_then, ok}
use waverous.Database.Splice.{object-ok}
use waverous.Database.Wiring.{find_object-put}
use waverous.Verbs.{Handle, dobj_of, iobj_of}
use waverous.Verbs.Handles.{
  verb_at, verbdef_of, set_verb, update_verb, db_verb_names, db_verb_owner, db_verb_flags,
  db_verb_arg_specs, db_set_verb_arg_specs,
}
use waverous.Verbs.Effects.{flush-ok}

abbrev pack : (flags dobj iobj : ℕ) → ℕ
pack flags dobj iobj = short_bits (bit_or (bit_or flags (dobj * 16)) (iobj * 64))

abbrev unpacks : (flags dobj iobj : ℕ) → Bool
unpacks flags dobj iobj =
    dobj_of (pack flags dobj iobj) == dobj
    && (iobj_of (pack flags dobj iobj) == iobj && pack flags dobj iobj % 16 == flags)

abbrev all_below : ℕ → (ℕ → Bool) → Bool
all_below zero test = true
all_below (suc n) test = test n && all_below n test

all_below-elim : (n : ℕ) (test : ℕ → Bool) (i : ℕ) → all_below n test ≡ true → i < n → test i ≡ true
all_below-elim zero test i h lt = absurd (omega arith)
all_below-elim (suc n) test i h lt = elim (Bool-cases (i == n)) [
  | inl t ↦ let same : i ≡ n = ground arith in rw same (ground arith)
  | inr f ↦ all_below-elim n test i (ground arith) (ground arith)
]

unpacks_all : all_below 16 (λ flags. all_below 4 (λ dobj. all_below 4 (unpacks flags dobj))) ≡ true
unpacks_all = refl

-- What was packed is read back.
pack-parts :
    (flags dobj iobj : ℕ)
    → flags < 16
    → dobj < 4
    → iobj < 4
    → (dobj_of (pack flags dobj iobj) ≡ dobj)
      × (iobj_of (pack flags dobj iobj) ≡ iobj)
      × (pack flags dobj iobj % 16 ≡ flags)
pack-parts flags dobj iobj f d i =
    split (dobj_of (pack flags dobj iobj)) (iobj_of (pack flags dobj iobj))
      (pack flags dobj iobj % 16)
      (all_below-elim 4 (unpacks flags dobj) iobj
        (all_below-elim 4 (λ e. all_below 4 (unpacks flags e)) dobj
          (all_below-elim 16 (λ g. all_below 4 (λ e. all_below 4 (unpacks g e))) flags unpacks_all
            f)
          d)
        i)
  where
    split :
        (a b c : ℕ)
        → (a == dobj && (b == iobj && c == flags)) ≡ true
        → (a ≡ dobj) × (b ≡ iobj) × (c ≡ flags)
    split a b c h = ground arith

get_elem?-set_verb :
    (vs : List Verbdef) (i : ℕ) (v w : Verbdef)
    → get_elem? vs i ≡ some v
    → get_elem? (set_verb vs i w) i ≡ some w
unfolding set_verb
get_elem?-set_verb [] i v w e = cc
get_elem?-set_verb (u ∷ vs) zero v w e = refl
get_elem?-set_verb (u ∷ vs) (suc i) v w e = get_elem?-set_verb vs i v w e

-- After a change of a verb, the handle leads to the changed verb.
update_verb-read :
    (db : Db) (h : Handle) (f : Verbdef → Verbdef) (o : Object) (v : Verbdef)
    → find_object db h.definer ≡ some o
    → get_elem? o.verbdefs h.verbdef ≡ some v
    → (g : Db) × (update_verb (some h) f db ≡ ok tt g) × (verbdef_of (some h) g ≡ ok (f v) g)
unfolding update_verb verbdef_of verb_at
update_verb-read db h f o v at e =
    let n : Object = record o { verbdefs = set_verb o.verbdefs h.verbdef (f v) } in
    let g : Db = put db h.definer (some n) in
    let there : find_object g h.definer ≡ some n =
      find_object-put db h.definer n h.definer at ∙ rw eqz_refl refl in
    let here : get_elem? n.verbdefs h.verbdef ≡ some (f v) =
      get_elem?-set_verb o.verbdefs h.verbdef v (f v) e in
    (
      g,
      rw (object-ok db h.definer at, and_then, e, verb_at) refl,
      rw (object-ok g h.definer there, and_then, here, verb_at) refl,
    )

-- The argument specifications of the verb are the given ones, and its names, owner and flags those
-- of the given verb.
abbrev pub Specified :
    Handle → Verbdef → (dobj : ℕ) → (prep : ℤ) → (iobj : ℕ) → Unit {0} → Db → Type 0
Specified h v dobj prep iobj _ g =
    (db_verb_arg_specs (some h) g ≡ ok (dobj, prep, iobj) g)
    × (db_verb_flags (some h) g ≡ ok (v.perms % 16) g)
    × (db_verb_names (some h) g ≡ ok v.name g)
    × (db_verb_owner (some h) g ≡ ok v.owner g)

-- For a handle that leads to a verb, specifications of the objects below 4 and one of the
-- preposition that is a `short`, `db_set_verb_arg_specs` ends well, `db_verb_arg_specs` then reads what was set, and the flags, names and owner of the verb are as
-- before.
pub db_verb_arg_specs-db_set_verb_arg_specs :
    (db : Db) (h : Handle) (o : Object) (v : Verbdef) (dobj : ℕ) (prep : ℤ) (iobj : ℕ)
    → find_object db h.definer ≡ some o
    → get_elem? o.verbdefs h.verbdef ≡ some v
    → dobj < 4
    → iobj < 4
    → IsShort prep
    → Returns (Specified h v dobj prep iobj) (db_set_verb_arg_specs (some h) dobj prep iobj db)
unfolding db_set_verb_arg_specs db_verb_arg_specs db_verb_flags db_verb_names db_verb_owner
db_verb_arg_specs-db_set_verb_arg_specs db h o v dobj prep iobj at e d i p =
    let (g, flushed, fl) = flush-ok db in
    let (k, done, read) =
      update_verb-read g h
        (λ v. record v { perms = pack (v.perms % 16) dobj iobj; prep = to_short prep }) o v
        (fl.1 h.definer ∙ at) e in
    let (dobj_eq, iobj_eq, flags_eq) = pack-parts (v.perms % 16) dobj iobj (omega arith) d i in
    rw (flushed, and_then, done)
      (returns (
        rw (read, and_then, dobj_eq, iobj_eq, to_short-IsShort prep p) refl,
        rw (read, and_then, flags_eq) refl,
        rw (read, and_then) refl,
        rw (read, and_then) refl,
      ))
