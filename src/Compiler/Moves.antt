-- ===== src/Compiler/Moves.antt =====
-- Runs of the code generator (server/code_gen.c) with what they do to the stack: a run takes every
-- sound state of one depth, saved place and loops to a sound one of another, and does not panic.
use waverous.Base.{ℕ, ◌≡◌, Option, none, some, List, map}
use waverous.Compiler.State.{Loop, State, Gen, Code, ◌>>=◌, ◌>>◌, pure, gets}
use waverous.Compiler.Sound.{IsSound}

abbrev pub loop_id : Loop → Option ℕ
loop_id l = l.id

-- The depth of the stack, the saved place and the loops that are open.
pub record At (depth : ℕ) (saved : Option ℕ) (ids : List (Option ℕ)) (s : State) : Type 0 where
  pub depth_is : s.cur_stack ≡ depth
  pub saved_is : s.saved_stack ≡ saved
  pub ids_are : map loop_id s.loops ≡ ids
  pub sound : IsSound s

pub data Shape : Type 0 where
  at : ℕ → Option ℕ → List (Option ℕ) → Shape

abbrev pub Holds : Shape → State → Type 0
Holds (at c v ls) s = At c v ls s

abbrev pub Returns : {A : Type 0} → (A → State → Type 0) → Option (A × State) → Type 0
Returns P none = ⊥
Returns P (some (a, s)) = P a s

-- Total correctness: from every state of the first shape there is a result, of the second.
pub record Moves {A : Type 0} (i : Shape) (m : Gen A) (j : Shape) : Type 0 where
  pub run : (s : State) → Holds i s → Returns (λ a t. Holds j t) (m s)

Returns-bind :
    {A B : Type 0} {i j : Shape} (o : Option (A × State)) (k : A → Gen B)
    → Returns (λ a t. Holds i t) o
    → ((a : A) → Moves i (k a) j)
    → Returns (λ b t. Holds j t) (elim o [ none ↦ none | some (a, t) ↦ k a t ])
Returns-bind none k h hk = absurd h
Returns-bind (some (a, t)) k h hk = (hk a).run t h

pub bind :
    {A B : Type 0} {i j l : Shape} {m : Gen A} {k : A → Gen B}
    → Moves i m j
    → ((a : A) → Moves j (k a) l)
    → Moves i (m >>= k) l
unfolding ◌>>=◌
bind {m} {k} hm hk = record { run = λ s h. Returns-bind (m s) k (hm.run s h) hk }

infixr 6 ◌then◌
pub ◌then◌ :
    {B : Type 0} {i j l : Shape} {m : Code} {k : Gen B}
    → Moves i m j
    → Moves j k l
    → Moves i (m >> k) l
hm then hk = bind hm (λ _. hk)

pub pure-Moves : {A : Type 0} {i : Shape} (a : A) → Moves i (pure a) i
unfolding pure
pure-Moves a = record { run = λ s h. h }

pub gets-Moves : {A : Type 0} {i : Shape} (f : State → A) → Moves i (gets f) i
unfolding gets
gets-Moves f = record { run = λ s h. h }
