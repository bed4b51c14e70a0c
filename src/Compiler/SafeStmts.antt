-- ===== src/Compiler/SafeStmts.antt =====
-- Statements in server/code_gen.c: the code of a valid one is made without a panic, leaves the
-- stack as it was, and leaves every loop that it enters.
use waverous.Base.{
  ℕ, ◌≡◌, refl, sym, ap, ◌∙◌, true, Option, none, some, List, [], ◌∷◌, map, All, Bool-cases, inl,
  inr, if◌then◌else◌,
}
use mathlib.Core.Path.{subst}
use waverous.Compiler.State.{label, Fixup, Loop, State, Gen, Code, ◌>>=◌, pure, modify, gets}
use waverous.Compiler.Refs.{capture_label, enter_loop, drop_loop, exit_loop, here}
use waverous.Compiler.Loops.{
  loop_body, while_op, ref_if, put_if, same_id, find_loop, exit_target, set_found, set_target,
  exit_op, or_panic, target_loop,
}
use waverous.Compiler.Sound.{TopIsLabel}
use waverous.Compiler.Moves.{
  Holds, Returns, loop_id, At, Shape, at, Moves, ◌then◌, bind, pure-Moves,
}
use waverous.Compiler.Steps.{
  emit_op-Moves, emit_extended_byte-Moves, emit_var_op-Moves, add_known_label-Moves,
  add_var_ref-Moves, define_label-Moves,
}
use waverous.Compiler.Valid.{has_loop, ExitIsValid}

module _ {c : ℕ} {v : Option ℕ} {ls : List (Option ℕ)} where
  pub capture_then :
      {B : Type 0} {j : Shape} (k : Fixup → Gen B)
      → ((f : Fixup) → f.kind ≡ label → Moves (at c v ls) (k f) j)
      → Moves (at c v ls) (capture_label >>= k) j
  unfolding capture_label gets ◌>>=◌
  capture_then k hk = record { run = λ s h. (hk (here s) refl).run s h }

  enter_loop-Moves :
      (i : Option ℕ) (top : Fixup) (n : ℕ) (bottom : Option ℕ) (m : ℕ)
      → top.kind ≡ label
      → Moves (at c v ls) (enter_loop i top n bottom m) (at c v (i ∷ ls))
  unfolding enter_loop modify
  enter_loop-Moves i top n bottom m e = record {
    run = λ s h. record {
      depth_is = h.depth_is;
      saved_is = h.saved_is;
      ids_are = ap (λ l. i ∷ l) h.ids_are;
      sound = record {
        code = h.sound.code;
        within = h.sound.within;
        tops = (e, h.sound.tops);
        globals = h.sound.globals;
      };
    };
  }

  drop_loop-Returns :
      (i : Option ℕ) (loops : List Loop) (s : State)
      → map loop_id loops ≡ i ∷ ls
      → All TopIsLabel loops
      → At c v (i ∷ ls) s
      → Returns (λ a t. At c v ls t) (drop_loop loops s)
  drop_loop-Returns i [] s e tops h = cc
  drop_loop-Returns i (l ∷ loops) s e tops h = record {
    depth_is = h.depth_is;
    saved_is = h.saved_is;
    ids_are = cc;
    sound = record {
      code = h.sound.code;
      within = h.sound.within;
      tops = tops.1;
      globals = h.sound.globals;
    };
  }

  exit_loop-Moves : (i : Option ℕ) → Moves (at c v (i ∷ ls)) exit_loop (at c v ls)
  unfolding exit_loop
  exit_loop-Moves i = record { run = λ s h. drop_loop-Returns i s.loops s h.ids_are h.sound.tops h }

  pub loop_body-Moves :
      (i : Option ℕ) (top : Fixup) (n m : ℕ) (bottom : Option ℕ) {body : Code}
      → top.kind ≡ label
      → Moves (at c v (i ∷ ls)) body (at c v (i ∷ ls))
      → Moves (at c v ls) (loop_body i top n m bottom body) (at c v ls)
  unfolding loop_body
  loop_body-Moves i top n m bottom e h =
      enter_loop-Moves i top n bottom m e
      then h
      then bind (exit_loop-Moves i)
          λ l. emit_op-Moves _ then add_known_label-Moves top e then define_label-Moves l

  pub while_op-Moves : (i : Option ℕ) → Moves (at c v ls) (while_op i) (at c v ls)
  unfolding while_op
  while_op-Moves none = emit_op-Moves _
  while_op-Moves (some slot) = emit_extended_byte-Moves _ then add_var_ref-Moves slot

  pub ref_if-Moves : (i : Option ℕ) → Moves (at c v ls) (ref_if i) (at c v ls)
  unfolding ref_if
  ref_if-Moves none = pure-Moves tt
  ref_if-Moves (some slot) = add_var_ref-Moves slot

  pub put_if-Moves : (i : Option ℕ) → Moves (at c v ls) (put_if i) (at c v ls)
  unfolding put_if
  put_if-Moves none = pure-Moves tt
  put_if-Moves (some slot) = emit_var_op-Moves _ slot

  pub exit_op-Moves : (i : Option ℕ) → Moves (at c v ls) (exit_op i) (at c v ls)
  unfolding exit_op
  exit_op-Moves none = emit_extended_byte-Moves _
  exit_op-Moves (some slot) = emit_extended_byte-Moves _ then add_var_ref-Moves slot

find_loop-found :
    (slot : ℕ) (loops : List Loop)
    → All TopIsLabel loops
    → has_loop slot (map loop_id loops) ≡ true
    → (l : Loop) × (find_loop slot loops ≡ some l) × TopIsLabel l
unfolding find_loop
find_loop-found slot [] t h = cc
find_loop-found slot (l ∷ loops) t h = elim (Bool-cases (same_id slot l.id)) [
  | inl e ↦ (l, rw e refl, t.0)
  | inr e ↦ let (m, f, k) = find_loop-found slot loops t.1 (rw e at h) in (m, rw e f, k)
]

exit_target-found :
    (exit : Option ℕ) (loops : List Loop)
    → All TopIsLabel loops
    → ExitIsValid exit (map loop_id loops)
    → (l : Loop) × (exit_target exit loops ≡ some l) × TopIsLabel l
unfolding exit_target
exit_target-found none [] t h = absurd h
exit_target-found none (l ∷ loops) t h = (l, refl, t.0)
exit_target-found (some slot) loops t h = find_loop-found slot loops t h

-- Another end of a loop leaves the loops' names and tops.
set_found-keeps :
    (slot : ℕ) (b : Option ℕ) (loops : List Loop)
    → All TopIsLabel loops
    → (map loop_id (set_found slot b loops) ≡ map loop_id loops)
      × All TopIsLabel (set_found slot b loops)
unfolding set_found
set_found-keeps slot b [] t = (refl, tt)
set_found-keeps slot b (l ∷ loops) t = elim (Bool-cases (same_id slot l.id)) [
  | inl e ↦ rw e (refl, t)
  | inr e ↦
      let ih = set_found-keeps slot b loops t.1 in rw e (ap (λ is. l.id ∷ is) ih.0, (t.0, ih.1))
]

set_target-keeps :
    (exit b : Option ℕ) (loops : List Loop)
    → All TopIsLabel loops
    → (map loop_id (set_target exit b loops) ≡ map loop_id loops)
      × All TopIsLabel (set_target exit b loops)
unfolding set_target
set_target-keeps none b [] t = (refl, tt)
set_target-keeps none b (l ∷ loops) t = (refl, t)
set_target-keeps (some slot) b loops t = set_found-keeps slot b loops t

module _ {c : ℕ} {v : Option ℕ} {ls : List (Option ℕ)} where
  pub target_then :
      {B : Type 0} {j : Shape} (exit : Option ℕ) (k : Loop → Gen B)
      → ExitIsValid exit ls
      → ((l : Loop) → l.top_label.kind ≡ label → Moves (at c v ls) (k l) j)
      → Moves (at c v ls) (target_loop exit >>= k) j
  unfolding target_loop gets pure ◌>>=◌
  target_then {j} exit k valid hk = record {
    run = λ s h.
        let (l, e, t) =
          exit_target-found exit s.loops h.sound.tops
            (subst (ExitIsValid exit) (sym h.ids_are) valid) in
        subst (λ o. Returns (λ a t. Holds j t) ((or_panic o >>= k) s)) (sym e) ((hk l t).run s h);
  }

  pub set_target-Moves :
      (exit b : Option ℕ)
      → Moves (at c v ls) (modify λ s. record s { loops = set_target exit b s.loops }) (at c v ls)
  unfolding modify
  set_target-Moves exit b = record {
    run = λ s h.
        let k = set_target-keeps exit b s.loops h.sound.tops in
        record {
          depth_is = h.depth_is;
          saved_is = h.saved_is;
          ids_are = k.0 ∙ h.ids_are;
          sound = record {
            code = h.sound.code;
            within = h.sound.within;
            tops = k.1;
            globals = h.sound.globals;
          };
        };
  }
