-- ===== src/Compiler/Sound.antt =====
-- What holds of a state of the code generator (server/code_gen.c) between two of its steps: the
-- counters count the fixups of their kinds, and the fixups stand in order at bytes of the code.
use waverous.Base.{
  ℕ, zero, suc, ◌+◌, ◌≤◌, ◌≡◌, refl, ap, ◌∙◌, Option, none, some, List, [], ◌∷◌, ◌++◌, length,
  get_elem?, length-append, All, arith,
}
use waverous.Values.{Var, int, obj, str, err, float}
use waverous.Compiler.State.{
  FixupKind, literal, fork, label, var_ref, stack, Fixup, Bytecodes, GState, Loop, State,
}
use waverous.Compiler.Refs.{point_at, point_chain, next_of}

abbrev pub one : FixupKind → FixupKind → ℕ
one literal literal = 1
one fork fork = 1
one label label = 1
one var_ref var_ref = 1
one stack stack = 1
one _ _ = 0

-- The fixups of a kind.
abbrev pub count : FixupKind → List Fixup → ℕ
count k [] = 0
count k (f ∷ fs) = one k f.kind + count k fs

-- The fixups stand at increasing places from the first number up to the last.
abbrev pub Placed : ℕ → List Fixup → ℕ → Type 0
Placed lo [] hi = lo ≤ hi
Placed lo (f ∷ fs) hi = (lo ≤ f.pc) × Placed (suc f.pc) fs hi

-- A vector whose stack references are one byte wide has the size that was computed for it.
abbrev pub Fits : Bytecodes → Type 0
Fits bc = bc.max_stack ≤ 256 → length bc.vector ≡ bc.size

abbrev pub TopIsLabel : Loop → Type 0
TopIsLabel l = l.top_label.kind ≡ label

-- What the parser makes a literal of. Of two such values it is decided whether they are equal.
abbrev pub IsLiteral : Var → Type 0
IsLiteral (int n) = Unit
IsLiteral (obj n) = Unit
IsLiteral (str t) = Unit
IsLiteral (err e) = Unit
IsLiteral (float d) = Unit
IsLiteral _ = ⊥

abbrev pub GIsSound : GState → Type 0
GIsSound g = All Fits g.fork_vectors × All IsLiteral g.literals

-- The counters count the fixups, and these stand in order at bytes of the code. Stack references
-- are not counted.
pub record CodeIsSound (num_literals num_forks num_var_refs num_labels num_stacks : ℕ)
    (fixups : List Fixup) (bytes : List ℕ) : Type 0 where
  pub literals : num_literals ≡ count literal fixups
  pub forks : num_forks ≡ count fork fixups
  pub var_refs : num_var_refs ≡ count var_ref fixups
  pub labels : num_labels ≡ count label fixups
  pub stacks : num_stacks ≡ 0
  pub placed : Placed 0 fixups (length bytes)

pub record IsSound (s : State) : Type 0 where
  pub code :
      CodeIsSound s.num_literals s.num_forks s.num_var_refs s.num_labels s.num_stacks s.fixups
        s.bytes
  pub within : s.cur_stack ≤ s.max_stack
  pub tops : All TopIsLabel s.loops
  pub globals : GIsSound s.gstate

pub count-append :
    (k : FixupKind) (fs : List Fixup) (g : Fixup)
    → count k (fs ++ g ∷ []) ≡ count k fs + one k g.kind
count-append k [] g = omega arith
count-append k (f ∷ fs) g = omega (arith, count-append k fs g)

pub Placed-later :
    (lo : ℕ) (fs : List Fixup) (hi hi' : ℕ) → hi ≤ hi' → Placed lo fs hi → Placed lo fs hi'
Placed-later lo [] hi hi' le h = omega arith
Placed-later lo (f ∷ fs) hi hi' le h = (h.0, Placed-later (suc f.pc) fs hi hi' le h.1)

pub Placed-append :
    (lo : ℕ) (fs : List Fixup) (g : Fixup) → Placed lo fs g.pc → Placed lo (fs ++ g ∷ []) (g.pc + 1)
Placed-append lo [] g h = (h, omega arith)
Placed-append lo (f ∷ fs) g h = (h.0, Placed-append (suc f.pc) fs g h.1)

count-point_at :
    (k : FixupKind) (h : Fixup) (i : ℕ) (fs : List Fixup) → count k (point_at h i fs) ≡ count k fs
unfolding point_at
count-point_at k h i [] = refl
count-point_at k h zero (f ∷ fs) = refl
count-point_at k h (suc i) (f ∷ fs) = ap (λ n. one k f.kind + n) (count-point_at k h i fs)

pub count-point_chain :
    (k : FixupKind) (fuel : ℕ) (h : Fixup) (l : Option ℕ) (fs : List Fixup)
    → count k (point_chain fuel h l fs) ≡ count k fs
unfolding point_chain
count-point_chain k zero h l fs = refl
count-point_chain k (suc fuel) h none fs = refl
count-point_chain k (suc fuel) h (some i) fs =
    count-point_chain k fuel h (next_of (get_elem? fs i)) (point_at h i fs)
    ∙ count-point_at k h i fs

Placed-point_at :
    (lo hi : ℕ) (h : Fixup) (i : ℕ) (fs : List Fixup)
    → Placed lo fs hi
    → Placed lo (point_at h i fs) hi
unfolding point_at
Placed-point_at lo hi h i [] p = p
Placed-point_at lo hi h zero (f ∷ fs) p = p
Placed-point_at lo hi h (suc i) (f ∷ fs) p = (p.0, Placed-point_at (suc f.pc) hi h i fs p.1)

pub Placed-point_chain :
    (lo hi fuel : ℕ) (h : Fixup) (l : Option ℕ) (fs : List Fixup)
    → Placed lo fs hi
    → Placed lo (point_chain fuel h l fs) hi
unfolding point_chain
Placed-point_chain lo hi zero h l fs p = p
Placed-point_chain lo hi (suc fuel) h none fs p = p
Placed-point_chain lo hi (suc fuel) h (some i) fs p =
    Placed-point_chain lo hi fuel h (next_of (get_elem? fs i)) (point_at h i fs)
      (Placed-point_at lo hi h i fs p)

-- A byte more.
pub Placed-byte : (s : State) (b : ℕ) → IsSound s → Placed 0 s.fixups (length (s.bytes ++ b ∷ []))
Placed-byte s b h =
    Placed-later 0 s.fixups (length s.bytes) (length (s.bytes ++ b ∷ []))
      (omega (arith, length-append {0} s.bytes (b ∷ []))) h.code.placed

-- A fixup at the next byte.
pub Placed-fixup :
    (s : State) (g : Fixup) (b : ℕ)
    → g.pc ≡ length s.bytes
    → IsSound s
    → Placed 0 (s.fixups ++ g ∷ []) (length (s.bytes ++ b ∷ []))
Placed-fixup s g b e h =
    let n : length (s.bytes ++ b ∷ []) ≡ g.pc + 1 =
      omega (arith, length-append {0} s.bytes (b ∷ [])) in
    let p : Placed 0 s.fixups g.pc =
      Placed-later 0 s.fixups (length s.bytes) g.pc (omega arith) h.code.placed in
    rw n (Placed-append 0 s.fixups g p)
