-- ===== src/Compiler/Steps.antt =====
-- The steps of server/code_gen.c as moves: each keeps a sound state sound.
use waverous.Base.{
  ℕ, ◌+◌, ◌≡◌, refl, sym, ap, ◌∙◌, Option, none, List, [], ◌∷◌, ◌++◌, length, ◌%◌, Bool-cases, inl,
  inr, leb, map, All-append, arith,
}
use waverous.Compiler.Opcodes.{Opcode, ExtendedOpcode, num_ready_vars}
use waverous.Compiler.State.{
  FixupKind, literal, fork, label, var_ref, stack, Fixup, Bytecodes, State, ◌>>=◌, pure, modify,
  gets, emit_byte, emit_op, emit_extended_byte, add_known_fixup, add_linked_fixup, add_fixup,
  counted,
}
use waverous.Compiler.Refs.{
  add_var_ref, add_linked_label, add_label, add_pseudo_label, add_known_label, define_label, here,
  add_stack_ref, add_fork, emit_var_op,
}
use waverous.Compiler.Sound.{
  Fits, GIsSound, one, count, count-append, count-point_chain, Placed-byte, Placed-fixup,
  Placed-point_chain,
}
use waverous.Compiler.Moves.{loop_id, At, at, Moves, ◌then◌}

-- One fixup more is one more of its kind.
count_more :
    (j k : FixupKind) (s t : State) (g : Fixup) {n m : ℕ}
    → g.kind ≡ k
    → t.fixups ≡ s.fixups ++ g ∷ []
    → n ≡ m + one j k
    → m ≡ count j s.fixups
    → n ≡ count j t.fixups
count_more j k s t g ek ef p q =
    p
    ∙ ap (λ x. x + one j k) q
    ∙ ap (λ x. count j s.fixups + one j x) (sym ek)
    ∙ sym (count-append j s.fixups g)
    ∙ ap (count j) (sym ef)

module _ {c : ℕ} {v : Option ℕ} {ls : List (Option ℕ)} where
  pub emit_byte-Moves : (b : ℕ) → Moves (at c v ls) (emit_byte b) (at c v ls)
  unfolding emit_byte
  emit_byte-Moves b = record {
    run = λ s h. record {
      depth_is = h.depth_is;
      saved_is = h.saved_is;
      ids_are = h.ids_are;
      sound = record {
        code = record {
          literals = h.sound.code.literals;
          forks = h.sound.code.forks;
          var_refs = h.sound.code.var_refs;
          labels = h.sound.code.labels;
          stacks = h.sound.code.stacks;
          placed = Placed-byte s (b % 256) h.sound;
        };
        within = h.sound.within;
        tops = h.sound.tops;
        globals = h.sound.globals;
      };
    };
  }

  pub emit_op-Moves : (op : Opcode) → Moves (at c v ls) (emit_op op) (at c v ls)
  unfolding emit_op
  emit_op-Moves op = emit_byte-Moves _

  pub emit_extended_byte-Moves :
      (op : ExtendedOpcode) → Moves (at c v ls) (emit_extended_byte op) (at c v ls)
  unfolding emit_extended_byte
  emit_extended_byte-Moves op = emit_op-Moves _ then emit_byte-Moves _

  -- A state with one fixup more, at a byte of its own.
  pub added :
      (k : FixupKind) (s t : State) (g : Fixup)
      → g.kind ≡ k
      → g.pc ≡ length s.bytes
      → t.fixups ≡ s.fixups ++ g ∷ []
      → t.bytes ≡ s.bytes ++ 0 ∷ []
      → t.num_literals ≡ s.num_literals + one literal k
      → t.num_forks ≡ s.num_forks + one fork k
      → t.num_var_refs ≡ s.num_var_refs + one var_ref k
      → t.num_labels ≡ s.num_labels + one label k
      → t.num_stacks ≡ s.num_stacks
      → t.cur_stack ≡ s.cur_stack
      → t.max_stack ≡ s.max_stack
      → t.saved_stack ≡ s.saved_stack
      → t.loops ≡ s.loops
      → GIsSound t.gstate
      → At c v ls s
      → At c v ls t
  added k s t g ek epc ef eb el efo ev ela est ec em es elo hv h = record {
    depth_is = ec ∙ h.depth_is;
    saved_is = es ∙ h.saved_is;
    ids_are = ap (map loop_id) elo ∙ h.ids_are;
    sound = record {
      code = record {
        literals = count_more literal k s t g ek ef el h.sound.code.literals;
        forks = count_more fork k s t g ek ef efo h.sound.code.forks;
        var_refs = count_more var_ref k s t g ek ef ev h.sound.code.var_refs;
        labels = count_more label k s t g ek ef ela h.sound.code.labels;
        stacks = est ∙ h.sound.code.stacks;
        placed = rw (ef, eb) (Placed-fixup s g 0 epc h.sound);
      };
      within = rw (ec, em) h.sound.within;
      tops = rw elo h.sound.tops;
      globals = hv;
    };
  }

  pub add_linked_label-Moves :
      (next : Option ℕ) → Moves (at c v ls) (add_linked_label next) (at c v ls)
  unfolding add_linked_label add_linked_fixup add_known_fixup emit_byte modify gets pure ◌>>=◌
  add_linked_label-Moves next = record {
    run = λ s h.
        added label s _ (record (counted label 0 next s) { pc = length s.bytes }) refl refl refl
          refl (omega arith) (omega arith) (omega arith) refl refl refl refl refl refl
          h.sound.globals h;
  }

  pub add_label-Moves : Moves (at c v ls) add_label (at c v ls)
  unfolding add_label
  add_label-Moves = add_linked_label-Moves none

  pub add_known_label-Moves :
      (f : Fixup) → f.kind ≡ label → Moves (at c v ls) (add_known_label f) (at c v ls)
  unfolding add_known_label add_known_fixup emit_byte modify gets pure ◌>>=◌
  add_known_label-Moves f e = record {
    run = λ s h.
        added label s _ (record f { pc = length s.bytes }) e refl refl refl (omega arith)
          (omega arith) (omega arith) refl refl refl refl refl refl h.sound.globals h;
  }

  pub add_pseudo_label-Moves : (n : ℕ) → Moves (at c v ls) (add_pseudo_label n) (at c v ls)
  unfolding add_pseudo_label add_known_fixup emit_byte modify gets pure ◌>>=◌
  add_pseudo_label-Moves n = record {
    run = λ s h.
        added label s _ _ refl refl refl refl (omega arith) (omega arith) (omega arith) refl refl
          refl refl refl refl h.sound.globals h;
  }

  pub add_var_ref-Moves : (slot : ℕ) → Moves (at c v ls) (add_var_ref slot) (at c v ls)
  unfolding add_var_ref add_fixup add_linked_fixup add_known_fixup emit_byte modify gets pure ◌>>=◌
  add_var_ref-Moves slot = record {
    run = λ s h.
        added var_ref s _ _ refl refl refl refl (omega arith) (omega arith) refl (omega arith) refl
          refl refl refl refl h.sound.globals h;
  }

  pub add_stack_ref-Moves : (n : ℕ) → Moves (at c v ls) (add_stack_ref n) (at c v ls)
  unfolding add_stack_ref add_fixup add_linked_fixup add_known_fixup emit_byte modify gets pure
      ◌>>=◌
  add_stack_ref-Moves n = record {
    run = λ s h.
        added stack s _ _ refl refl refl refl (omega arith) (omega arith) (omega arith)
          (omega arith) refl refl refl refl refl h.sound.globals h;
  }

  pub add_fork-Moves : (b : Bytecodes) → Fits b → Moves (at c v ls) (add_fork b) (at c v ls)
  unfolding add_fork add_fixup add_linked_fixup add_known_fixup emit_byte modify gets pure ◌>>=◌
  add_fork-Moves b fits = record {
    run = λ s h.
        added fork s _ _ refl refl refl refl (omega arith) refl (omega arith) (omega arith) refl
          refl refl refl refl
          (
            All-append Fits s.gstate.fork_vectors (b ∷ []) h.sound.globals.0 (fits, tt),
            h.sound.globals.1,
          )
          h;
  }

  pub define_label-Moves : (l : Option ℕ) → Moves (at c v ls) (define_label l) (at c v ls)
  unfolding define_label modify
  define_label-Moves l = record {
    run = λ s h.
        let n = length s.fixups in
        let fs = s.fixups in
        record {
          depth_is = h.depth_is;
          saved_is = h.saved_is;
          ids_are = h.ids_are;
          sound = record {
            code = record {
              literals = h.sound.code.literals ∙ sym (count-point_chain literal n (here s) l fs);
              forks = h.sound.code.forks ∙ sym (count-point_chain fork n (here s) l fs);
              var_refs = h.sound.code.var_refs ∙ sym (count-point_chain var_ref n (here s) l fs);
              labels = h.sound.code.labels ∙ sym (count-point_chain label n (here s) l fs);
              stacks = h.sound.code.stacks;
              placed = Placed-point_chain 0 (length s.bytes) n (here s) l fs h.sound.code.placed;
            };
            within = h.sound.within;
            tops = h.sound.tops;
            globals = h.sound.globals;
          };
        };
  }

  pub emit_var_op-Moves :
      (op : Opcode) (slot : ℕ) → Moves (at c v ls) (emit_var_op op slot) (at c v ls)
  unfolding emit_var_op
  emit_var_op-Moves op slot = elim (Bool-cases (leb num_ready_vars slot)) [
    | inl far ↦ rw far (emit_byte-Moves _ then add_var_ref-Moves slot)
    | inr near ↦ rw near (emit_byte-Moves _)
  ]
