-- ===== src/Verbs/Answers.antt =====
-- `db_find_callable_verb` of server/db_verbs.c finds what a search without its cache finds.
use waverous.Base.{
  ℕ, ◌+◌, ◌%◌, ◌<◌, ◌≡◌, refl, ap, sym, ◌∙◌, inl, inr, Option, none, some, ℤ, List, [], ◌∷◌, arith,
  ◌==◌, if◌then◌else◌, length, Bool-cases, Option-cases,
}
use mathlib.Core.Path.{subst}
use waverous.Text.{CStr, IsText}
use waverous.Database.{Object, Db, VcEntry, find_object}
use waverous.Database.Run.{Returns, returns, mono, and_then, ok}
use waverous.Database.Up.{Up, Up-length}
use waverous.Verbs.{Handle, Shares, apart}
use waverous.Verbs.Addresses.{IsHarmless, db_find_callable_verb-apart}
use waverous.Verbs.Callable.{
  callable, first_verbs, callable-none, callable-first, first_with_verbs-first,
  search_from-callable,
}
use waverous.Verbs.Cache.{
  Buckets, make_vc_table, key_of, vc_hash, vc_size, find_entry, new_entry, add_entry, count_hit,
  count_miss, search_from, db_find_callable_verb,
}
use waverous.Verbs.Coherent.{
  HaveIds, AreRight, Up-same, AreRight-same, IsRight, find_object-array, new_entry-IsRight,
  find_entry-hit, hit-callable,
}

-- The answer is the given one, the cache stays right, and no object has changed.
abbrev pub Answers : Db → Option Handle → Option Handle → Db → Type 0
Answers db expected h g =
    (h ≡ expected) × AreRight g g.vc_table × ((x : ℤ) → find_object g x ≡ find_object db x)

search_first :
    (db : Db) (fuel : ℕ) (x : ℤ) (os : List Object) (word : CStr)
    → Up db x os
    → length os < fuel
    → search_from apart fuel (first_verbs os) word db ≡ ok (callable os word) db
unfolding search_from
search_first db fuel x os word u lt = elim (Option-cases (first_verbs os)) [
  | inl n ↦ rw (n, callable-none os word n) refl
  | inr (o, n) ↦
      let (y, rest, v, shorter, c) = callable-first db x os o u n in
      rw (n, c word) (search_from-callable db fuel y o rest word v (omega arith))
]

abbrev with_cache : Db → Option Buckets → Db
with_cache db t = record db { vc_table = t }

-- The answer, with a table of the given state.
module _ (d : Db) (ids : HaveIds d) where
  ids_of : (t : Option Buckets) → HaveIds (with_cache d t)
  ids_of t x o e = ids x o (sym (find_object-array d (with_cache d t) refl refl x) ∙ e)

  with_entry :
      (bucket : ℕ) (vc : VcEntry) (table : Buckets)
      → IsRight (with_cache d (some table)) vc
      → AreRight (with_cache d (some table)) (some table)
      → AreRight
          (with_cache d (some table))
          (some (λ b. if b == bucket then vc ∷ table b else table b))
  with_entry bucket vc table r a b = elim (Bool-cases (b == bucket)) [
    | inl t ↦ rw t (r, a b)
    | inr f ↦ rw f (a b)
  ]

  with_table :
      (table : Buckets) (x : ℤ) (os : List Object) (word : CStr)
      → AreRight (with_cache d (some table)) (some table)
      → Up (with_cache d (some table)) x os
      → IsText word
      → Returns
          (Answers (with_cache d (some table)) (callable os word))
          (db_find_callable_verb apart x word (with_cache d (some table)))
  unfolding db_find_callable_verb make_vc_table
  with_table table x os word a u t =
      rw (first_with_verbs-first db (db.num_objects + 1) x os u few, and_then)
        (elim (Option-cases found) [
          | inl n ↦
              rw
                (
                  n,
                  and_then,
                  search_first missed (db.num_objects + 1) x os word
                      (Up-same db missed (find_object-array db missed refl refl) x os u) few,
                )
                (returns (
                  refl,
                  AreRight-same db (add_entry bucket entry missed)
                      (find_object-array db (add_entry bucket entry missed) refl refl)
                      (add_entry bucket entry missed).vc_table
                      (with_entry bucket entry table
                        (new_entry-IsRight db (ids_of _) hash x os word u t) a),
                  find_object-array db (add_entry bucket entry missed) refl refl,
                ))
          | inr (vc, n) ↦
              let (r, k, m) =
                find_entry-hit db (ids_of _) hash (key_of (first_verbs os)) word (table bucket) vc
                  (a bucket) n in
              rw (n, and_then)
                (returns (
                  hit-callable db (ids_of _) x os word vc u t (r, k, m),
                  AreRight-same db (count_hit vc db)
                      (find_object-array db (count_hit vc db) refl refl) (some table) a,
                  find_object-array db (count_hit vc db) refl refl,
                ))
        ])
    where
      db : Db
      db = with_cache d (some table)

      missed : Db
      missed = count_miss db

      few : length os < db.num_objects + 1
      few = omega (arith, Up-length db x os u)

      hash : ℕ
      hash = vc_hash word (key_of (first_verbs os))

      bucket : ℕ
      bucket = hash % vc_size

      entry : VcEntry
      entry = new_entry hash (key_of (first_verbs os)) word (callable os word)

      found : Option VcEntry
      found = find_entry hash (key_of (first_verbs os)) word (table bucket)

fresh :
    (db : Db) (x : ℤ) (word : CStr)
    → db_find_callable_verb apart x word (with_cache db (some (λ _. [])))
      ≡ db_find_callable_verb apart x word (with_cache db none)
unfolding db_find_callable_verb make_vc_table
fresh db x word = refl

Answers-apart :
    (db : Db) (x : ℤ) (os : List Object) (word : CStr)
    → HaveIds db
    → AreRight db db.vc_table
    → Up db x os
    → IsText word
    → Returns (Answers db (callable os word)) (db_find_callable_verb apart x word db)
Answers-apart db x os word ids a u t = go db.vc_table refl a
  where
    go :
        (table : Option Buckets)
        → db.vc_table ≡ table
        → AreRight db table
        → Returns (Answers db (callable os word)) (db_find_callable_verb apart x word db)
    go none e r =
        let c : db ≡ with_cache db none = ap (with_cache db) e in
        mono
          (subst (λ l. Returns (Answers (with_cache db (some (λ _. []))) (callable os word)) l)
            (fresh db x word ∙ ap (db_find_callable_verb apart x word) (sym c))
            (with_table db ids (λ _. []) x os word (λ b. tt)
              (Up-same db _ (find_object-array db _ refl refl) x os u) t))
          λ h g q. (q.0, q.1, λ y. q.2 y ∙ find_object-array db _ refl refl y)
    go (some table) e r =
        let c : db ≡ with_cache db (some table) = ap (with_cache db) e in
        subst (λ d. Returns (Answers d (callable os word)) (db_find_callable_verb apart x word d))
          (sym c)
          (with_table db ids table x os word (subst (λ d. AreRight d (some table)) c r)
            (subst (λ d. Up d x os) c u) t)

-- If the field `id` of each object is its number, and each entry of the cache gives the answer of
-- a search from any object with its key, then for an object, the objects on the way up from it,
-- and a text, which is not the string of a verb's names itself unless it matches them as a text,
-- `db_find_callable_verb` ends without running out of fuel, with the first executable verb on the
-- way up that matches the text, whether the cache has it or not; the entries of the cache still
-- give those answers, and no object has changed.
pub db_find_callable_verb-callable :
    (same : Shares) (db : Db) (x : ℤ) (os : List Object) (word : CStr)
    → IsHarmless same word
    → HaveIds db
    → AreRight db db.vc_table
    → Up db x os
    → IsText word
    → Returns (Answers db (callable os word)) (db_find_callable_verb same x word db)
db_find_callable_verb-callable same db x os word h ids a u t =
    rw (db_find_callable_verb-apart same x word db h) (Answers-apart db x os word ids a u t)
