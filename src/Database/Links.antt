-- ===== src/Database/Links.antt =====
-- The macros LL_REMOVE and LL_APPEND of server/db_objects.c. They are given two field names,
-- `listname` of the owner and `nextname` of the items; here those are a record of accessors.
use waverous.Base.{ℕ, zero, suc, ◌≡◌, refl, ℤ, eqz, if◌then◌else◌}
use waverous.Database.{Object}
use waverous.Database.Chains.{nothing}
use waverous.Database.Run.{Cmd, Skip, out_of_fuel, pure, ◌>>=◌, ◌>>◌, object, store, modify}

pub record Links : Type 0 where
  pub head : Object → ℤ
  pub next : Object → ℤ
  pub set_head : Object → ℤ → Object
  pub set_next : Object → ℤ → Object
  pub head-set_head : (o : Object) (p : ℤ) → head (set_head o p) ≡ p
  pub next-set_head : (o : Object) (p : ℤ) → next (set_head o p) ≡ next o
  pub head-set_next : (o : Object) (p : ℤ) → head (set_next o p) ≡ head o
  pub next-set_next : (o : Object) (p : ℤ) → next (set_next o p) ≡ p
  pub set_next-set_next : (o : Object) (p q : ℤ) → set_next (set_next o p) q ≡ set_next o q
  pub set_head-set_head : (o : Object) (p q : ℤ) → set_head (set_head o p) q ≡ set_head o q
  pub set_next-set_head :
      (o : Object) (p q : ℤ) → set_next (set_head o p) q ≡ set_head (set_next o q) p

abbrev pub contents_links : Links
contents_links = record {
  head = λ o. o.contents;
  next = λ o. o.next;
  set_head = λ o p. record o { contents = p };
  set_next = λ o p. record o { next = p };
  head-set_head = λ o p. refl;
  next-set_head = λ o p. refl;
  head-set_next = λ o p. refl;
  next-set_next = λ o p. refl;
  set_next-set_next = λ o p q. refl;
  set_head-set_head = λ o p q. refl;
  set_next-set_head = λ o p q. refl;
}

abbrev pub child_links : Links
child_links = record {
  head = λ o. o.child;
  next = λ o. o.sibling;
  set_head = λ o p. record o { child = p };
  set_next = λ o p. record o { sibling = p };
  head-set_head = λ o p. refl;
  next-set_head = λ o p. refl;
  head-set_next = λ o p. refl;
  next-set_next = λ o p. refl;
  set_next-set_next = λ o p q. refl;
  set_head-set_head = λ o p q. refl;
  set_next-set_head = λ o p q. refl;
}

module _ (k : Links) where
  -- The loop of LL_REMOVE, from the item `lid` on.
  unfoldable pub remove_loop : ℕ → (lid what : ℤ) → Cmd Skip
  remove_loop zero lid what = λ _. out_of_fuel
  remove_loop (suc fuel) lid what = if eqz lid nothing then pure tt else do
    l ← object lid
    if eqz (k.next l) what
        then (do w ← object what; store lid (k.set_next l (k.next w)))
        else remove_loop fuel (k.next l) what

  unfoldable pub ll_remove : ℕ → (owner what : ℤ) → Cmd Skip
  ll_remove fuel owner what = do
    o ← object owner
    if eqz (k.head o) what
        then (do w ← object what; store owner (k.set_head o (k.next w)))
        else remove_loop fuel (k.head o) what
    modify what (λ w. k.set_next w nothing)

  -- The loop of LL_APPEND, and the write that follows it.
  unfoldable pub append_loop : ℕ → (lid what : ℤ) → Cmd Skip
  append_loop zero lid what = λ _. out_of_fuel
  append_loop (suc fuel) lid what = do
    l ← object lid
    if eqz (k.next l) nothing
        then store lid (k.set_next l what)
        else append_loop fuel (k.next l) what

  unfoldable pub ll_append : ℕ → (owner what : ℤ) → Cmd Skip
  ll_append fuel owner what = do
    o ← object owner
    if eqz (k.head o) nothing
        then store owner (k.set_head o what)
        else append_loop fuel (k.head o) what
    modify what (λ w. k.set_next w nothing)
