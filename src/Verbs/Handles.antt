-- ===== src/Verbs/Handles.antt =====
-- The functions of server/db_verbs.c on a handle. A null handle is a panic.
use waverous.Base.{
  ℕ, zero, suc, ◌-◌, ◌*◌, ◌%◌, ◌+◌, Bool, true, Option, none, some, ℤ, eqz, List, [], ◌∷◌, ◌++◌,
  ◌==◌, if◌then◌else◌, get_elem?, take, drop, ltb, length,
}
use Prim.Native.Nat.{bit_or}
use waverous.Numbers.Shorts.{short_bits, to_short}
use waverous.Text.{CStr}
use waverous.Database.{Verbdef}
use waverous.Database.Run.{Cmd, Skip, ok, fault, panic, pure, ◌>>=◌, ◌>>◌, object, store}
use waverous.Database.Objects.{test_bit, is_wizard, db_priv_affected_callable_verb_lookup}
use waverous.Verbs.{Handle, dobj_of, iobj_of}

-- `h->verbdef`, a bad access where there is no such verb.
unfoldable pub verb_at : List Verbdef → ℕ → Cmd Verbdef
verb_at vs i db = elim (get_elem? vs i) [ none ↦ fault | some v ↦ ok v db ]

unfoldable pub verbdef_of : Option Handle → Cmd Verbdef
unfolding verb_at
verbdef_of none = λ _. panic
verbdef_of (some h) = do o ← object h.definer; verb_at o.verbdefs h.verbdef

unfoldable pub set_verb : List Verbdef → ℕ → Verbdef → List Verbdef
set_verb [] i w = []
set_verb (v ∷ vs) zero w = w ∷ vs
set_verb (v ∷ vs) (suc i) w = v ∷ set_verb vs i w

unfoldable pub update_verb : Option Handle → (Verbdef → Verbdef) → Cmd Skip
unfolding verb_at set_verb
update_verb none f = λ _. panic
update_verb (some h) f = do
  o ← object h.definer
  v ← verb_at o.verbdefs h.verbdef
  store h.definer (record o { verbdefs = set_verb o.verbdefs h.verbdef (f v) })

unfoldable pub db_delete_verb : Handle → Cmd Skip
unfolding db_priv_affected_callable_verb_lookup
db_delete_verb h = do
  db_priv_affected_callable_verb_lookup
  o ← object h.definer
  if ltb h.verbdef (length o.verbdefs)
      then store h.definer
          (record o { verbdefs = take h.verbdef o.verbdefs ++ drop (h.verbdef + 1) o.verbdefs })
      else (λ _. fault)

unfoldable pub db_verb_definer : Option Handle → Cmd ℤ
db_verb_definer none = λ _. panic
db_verb_definer (some h) = pure h.definer

unfoldable pub db_verb_names : Option Handle → Cmd CStr
unfolding verbdef_of
db_verb_names h = do v ← verbdef_of h; pure v.name

unfoldable pub db_set_verb_names : Option Handle → CStr → Cmd Skip
unfolding update_verb db_priv_affected_callable_verb_lookup
db_set_verb_names h names = do
  db_priv_affected_callable_verb_lookup
  update_verb h (λ v. record v { name = names })

unfoldable pub db_verb_owner : Option Handle → Cmd ℤ
unfolding verbdef_of
db_verb_owner h = do v ← verbdef_of h; pure v.owner

unfoldable pub db_set_verb_owner : Option Handle → ℤ → Cmd Skip
unfolding update_verb
db_set_verb_owner h owner = update_verb h (λ v. record v { owner = owner })

unfoldable pub db_verb_flags : Option Handle → Cmd ℕ
unfolding verbdef_of
db_verb_flags h = do v ← verbdef_of h; pure (v.perms % 16)

unfoldable pub db_set_verb_flags : Option Handle → ℕ → Cmd Skip
unfolding update_verb db_priv_affected_callable_verb_lookup
db_set_verb_flags h flags = do
  db_priv_affected_callable_verb_lookup
  update_verb h (λ v. record v { perms = short_bits (bit_or (v.perms - v.perms % 16) flags) })

-- `null_program` is the program of a verb that has none.
unfoldable pub db_verb_program : ℕ → Option Handle → Cmd ℕ
unfolding verbdef_of
db_verb_program null_program h = do
  v ← verbdef_of h
  pure (if v.program == 0 then null_program else v.program)

unfoldable pub db_set_verb_program : Option Handle → ℕ → Cmd Skip
unfolding update_verb
db_set_verb_program h program = update_verb h (λ v. record v { program = program })

unfoldable pub db_verb_arg_specs : Option Handle → Cmd (ℕ × ℤ × ℕ)
unfolding verbdef_of
db_verb_arg_specs h = do v ← verbdef_of h; pure (dobj_of v.perms, v.prep, iobj_of v.perms)

unfoldable pub db_set_verb_arg_specs :
    Option Handle → (dobj : ℕ) → (prep : ℤ) → (iobj : ℕ) → Cmd Skip
unfolding update_verb db_priv_affected_callable_verb_lookup to_short
db_set_verb_arg_specs h dobj prep iobj = do
  db_priv_affected_callable_verb_lookup
  update_verb h (λ v. record v {
    perms = short_bits (bit_or (bit_or (v.perms % 16) (dobj * 16)) (iobj * 64));
    prep = to_short prep;
  })

-- `flag` is the place of the flag's bit.
unfoldable pub db_verb_allows : Option Handle → ℤ → ℕ → Cmd Bool
unfolding db_verb_flags db_verb_owner
db_verb_allows h progr flag = do
  flags ← db_verb_flags h
  if test_bit flags flag
      then pure true
      else do owner ← db_verb_owner h; if eqz progr owner then pure true else is_wizard progr
