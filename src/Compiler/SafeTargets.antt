-- ===== src/Compiler/SafeTargets.antt =====
-- The parts of an assignment in server/code_gen.c as moves of the stack.
use waverous.Base.{ℕ, suc, ◌≡◌, refl, Bool, true, false, Option, none, some, List, [], ◌∷◌}
use waverous.Compiler.Ast.{
  ScatterKind, scat_required, scat_optional, scat_rest, Expr, MaybeExpr, absent, present, Args,
  no_args, arg, Scatters, no_scatters, target,
}
use waverous.Compiler.Ast.Expr.{id, prop, index, range, scatter}
use waverous.Compiler.State.{Code}
use waverous.Compiler.Targets.{
  scatter_label, scatter_labels, store_lvalue, is_index, when, generate_codes, generate_length,
  assign,
}
use waverous.Compiler.Moves.{at, Moves, ◌then◌, bind, pure-Moves}
use waverous.Compiler.Steps.{
  emit_byte-Moves, emit_op-Moves, emit_extended_byte-Moves, emit_var_op-Moves, add_label-Moves,
  add_pseudo_label-Moves, add_var_ref-Moves, add_stack_ref-Moves,
}
use waverous.Compiler.Depths.{push_1, pop_2, pop_3}
use waverous.Compiler.Valid.{InnerIsValid, PlaceIsValid, is_some}

abbrev pub on_top : Bool → ℕ → ℕ
on_top true c = suc c
on_top false c = c

-- The depth of the stack with the parts of a place on it.
abbrev pub pushed : Expr → Bool → ℕ → ℕ
pushed (id slot) above c = on_top above c
pushed (prop e f) above c = on_top above (suc (suc c))
pushed (index e f) above c = on_top above (suc (pushed e true c))
pushed (range e f g) above c = suc (suc (pushed e true c))
pushed _ above c = c

-- An inner place leaves its value on top.
pub pushed-above :
    (dollar : Bool) (e : Expr) (c : ℕ)
    → InnerIsValid dollar e
    → pushed e true c ≡ suc (pushed e false c)
pushed-above dollar (id slot) c h = refl
pushed-above dollar (prop e f) c h = refl
pushed-above dollar (index e f) c h = refl
pushed-above dollar e c h = absurd h

abbrev pub is_scatter : Expr → Bool
is_scatter (scatter ts) = true
is_scatter _ = false

pub length_case :
    {c : ℕ} {ls : List (Option ℕ)} (v : Option ℕ)
    → is_some v ≡ true
    → Moves (at c v ls) (generate_length v) (at (suc c) v ls)
unfolding generate_length
length_case none h = cc
length_case (some n) h = emit_extended_byte-Moves _ then add_stack_ref-Moves n then push_1

module _ {c : ℕ} {v : Option ℕ} {ls : List (Option ℕ)} where
  scatter_label-Moves :
      (kind : ScatterKind) (default : MaybeExpr)
      → Moves (at c v ls) (scatter_label kind default) (at c v ls)
  unfolding scatter_label
  scatter_label-Moves scat_optional (present e) = add_label-Moves
  scatter_label-Moves scat_optional absent = add_pseudo_label-Moves 1 then pure-Moves none
  scatter_label-Moves scat_required default = add_pseudo_label-Moves 0 then pure-Moves none
  scatter_label-Moves scat_rest default = add_pseudo_label-Moves 0 then pure-Moves none

  pub scatter_labels-Moves : (ts : Scatters) → Moves (at c v ls) (scatter_labels ts) (at c v ls)
  unfolding scatter_labels
  scatter_labels-Moves no_scatters = pure-Moves []
  scatter_labels-Moves (target kind slot default next) =
      add_var_ref-Moves slot
      then bind (scatter_label-Moves kind default)
          λ l. bind (scatter_labels-Moves next) λ ls. pure-Moves (l ∷ ls)

  pub when-Moves :
      (b : Bool) {m : Code}
      → Moves (at c v ls) m (at c v ls)
      → Moves (at c v ls) (when b m) (at c v ls)
  when-Moves true h = h
  when-Moves false h = pure-Moves tt

  pub above-Moves :
      (b : Bool) {m : Code}
      → Moves (at c v ls) m (at (suc c) v ls)
      → Moves (at c v ls) (when b m) (at (on_top b c) v ls)
  above-Moves true h = h
  above-Moves false h = pure-Moves tt

  -- The value stays on top while its place is taken off below it.
  store_inner-Moves :
      (dollar : Bool) (e : Expr) (b : Bool)
      → InnerIsValid dollar e
      → Moves (at (suc (pushed e false c)) v ls) (store_lvalue e b) (at (suc c) v ls)
  unfolding store_lvalue
  store_inner-Moves dollar (id slot) b h = emit_var_op-Moves _ slot then pure-Moves b
  store_inner-Moves dollar (prop e f) b h = emit_op-Moves _ then pop_2 then pure-Moves b
  store_inner-Moves dollar (index e f) b h =
      rw (pushed-above dollar e c h.0)
        (emit_op-Moves _ then pop_2 then store_inner-Moves dollar e true h.0)
  store_inner-Moves dollar e b h = absurd h

  pub generate_codes-Moves :
      (codes : Args) {m : Code}
      → Moves (at c v ls) m (at (suc c) v ls)
      → Moves (at c v ls) (generate_codes codes m) (at (suc c) v ls)
  unfolding generate_codes
  generate_codes-Moves no_args h = emit_byte-Moves _ then push_1
  generate_codes-Moves (arg kind e next) h = h

  store_lvalue-Moves :
      (dollar : Bool) (e : Expr)
      → PlaceIsValid dollar e
      → (is_place : is_scatter e ≡ false)
      → Moves (at (suc (pushed e false c)) v ls) (store_lvalue e false) (at (suc c) v ls)
  unfolding store_lvalue
  store_lvalue-Moves dollar (id slot) h p = store_inner-Moves dollar (id slot) false h
  store_lvalue-Moves dollar (prop e f) h p = store_inner-Moves dollar (prop e f) false h
  store_lvalue-Moves dollar (index e f) h p = store_inner-Moves dollar (index e f) false h
  store_lvalue-Moves dollar (range e f g) h p =
      rw (pushed-above dollar e c h.0)
        (emit_extended_byte-Moves _ then pop_3 then store_inner-Moves dollar e true h.0)
  store_lvalue-Moves dollar (scatter ts) h p = cc
  store_lvalue-Moves dollar e h p = absurd h

  -- A place below another leaves its value on top.
  pub value_on_top :
      (dollar : Bool) (e : Expr) {m : Code}
      → InnerIsValid dollar e
      → Moves (at c v ls) m (at (pushed e true c) v ls)
      → Moves (at c v ls) m (at (suc (pushed e false c)) v ls)
  value_on_top dollar e h hm = rw⁻¹ (pushed-above dollar e c h) hm

module _ {c : ℕ} {v : Option ℕ} {ls : List (Option ℕ)} where
  -- The code of the place and of the new value give the code of the assignment.
  pub assign-Moves :
      (dollar : Bool) (e : Expr) {place rhs : Code}
      → PlaceIsValid dollar e
      → is_scatter e ≡ false
      → Moves (at c v ls) place (at (pushed e false c) v ls)
      → Moves (at (pushed e false c) v ls) rhs (at (suc (pushed e false c)) v ls)
      → Moves (at c v ls) (assign e place rhs) (at (suc c) v ls)
  unfolding assign
  assign-Moves dollar e h p hplace hrhs =
      hplace
      then hrhs
      then when-Moves (is_index e) (emit_op-Moves _)
      then bind (store_lvalue-Moves dollar e h p)
          λ b. when-Moves b (emit_op-Moves _ then emit_op-Moves _)
