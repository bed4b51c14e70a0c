-- ===== src/Compiler/Depths.antt =====
-- The steps of server/code_gen.c on the depth of the stack and the saved place, as moves.
use waverous.Base.{ℕ, suc, ◌+◌, ◌≡◌, refl, sym, ap, ◌∙◌, Option, some, List, arith}
use mathlib.Core.Path.{subst}
use waverous.Compiler.State.{Gen, ◌>>=◌, pure, modify, gets}
use waverous.Compiler.Refs.{
  push_stack, pop_stack, max, save_stack_top, saved_stack_top, restore_stack_top, top_of,
}
use waverous.Compiler.Moves.{Holds, Returns, Shape, at, Moves}

module _ {c : ℕ} {v : Option ℕ} {ls : List (Option ℕ)} where
  push_stack-Moves : (n d : ℕ) → d ≡ c + n → Moves (at c v ls) (push_stack n) (at d v ls)
  unfolding push_stack modify max
  push_stack-Moves n d e = record {
    run = λ s h. record {
      depth_is = ap (λ k. k + n) h.depth_is ∙ sym e;
      saved_is = h.saved_is;
      ids_are = h.ids_are;
      sound = record {
        code = h.sound.code;
        within = ground arith;
        tops = h.sound.tops;
        globals = h.sound.globals;
      };
    };
  }

  pub push_1 : Moves (at c v ls) (push_stack 1) (at (suc c) v ls)
  push_1 = push_stack-Moves 1 (suc c) (omega arith)

  pub push_2 : Moves (at c v ls) (push_stack 2) (at (suc (suc c)) v ls)
  push_2 = push_stack-Moves 2 (suc (suc c)) (omega arith)

  pub pop_stack-Moves : (n d : ℕ) → d ≡ c + n → Moves (at d v ls) (pop_stack n) (at c v ls)
  unfolding pop_stack modify
  pop_stack-Moves n d e = record {
    run = λ s h. record {
      depth_is = ground (arith, h.depth_is);
      saved_is = h.saved_is;
      ids_are = h.ids_are;
      sound = record {
        code = h.sound.code;
        within = ground (arith, h.depth_is, h.sound.within);
        tops = h.sound.tops;
        globals = h.sound.globals;
      };
    };
  }

  pub pop_0 : Moves (at c v ls) (pop_stack 0) (at c v ls)
  pop_0 = pop_stack-Moves 0 c (omega arith)

  pub pop_1 : Moves (at (suc c) v ls) (pop_stack 1) (at c v ls)
  pop_1 = pop_stack-Moves 1 (suc c) (omega arith)

  pub pop_2 : Moves (at (suc (suc c)) v ls) (pop_stack 2) (at c v ls)
  pop_2 = pop_stack-Moves 2 (suc (suc c)) (omega arith)

  pub pop_3 : Moves (at (suc (suc (suc c))) v ls) (pop_stack 3) (at c v ls)
  pop_3 = pop_stack-Moves 3 (suc (suc (suc c))) (omega arith)

  pub save_then :
      {B : Type 0} {j : Shape} (k : Option ℕ → Gen B)
      → Moves (at (suc c) (some c) ls) (k v) j
      → Moves (at (suc c) v ls) (save_stack_top >>= k) j
  unfolding save_stack_top modify gets pure ◌>>=◌
  save_then k hk = record {
    run = λ s h. rw h.saved_is (
        hk.run (record s { saved_stack = top_of s.cur_stack })
          (record {
            depth_is = h.depth_is;
            saved_is = ap top_of h.depth_is;
            ids_are = h.ids_are;
            sound = record {
              code = h.sound.code;
              within = h.sound.within;
              tops = h.sound.tops;
              globals = h.sound.globals;
            };
          }));
  }

  pub restore_stack_top-Moves : (w : Option ℕ) → Moves (at c w ls) (restore_stack_top v) (at c v ls)
  unfolding restore_stack_top modify
  restore_stack_top-Moves w = record {
    run = λ s h. record {
      depth_is = h.depth_is;
      saved_is = refl;
      ids_are = h.ids_are;
      sound = record {
        code = h.sound.code;
        within = h.sound.within;
        tops = h.sound.tops;
        globals = h.sound.globals;
      };
    };
  }

  pub saved_then :
      {B : Type 0} {j : Shape} (k : Option ℕ → Gen B)
      → Moves (at c v ls) (k v) j
      → Moves (at c v ls) (saved_stack_top >>= k) j
  unfolding saved_stack_top gets ◌>>=◌
  saved_then {j} k hk = record {
    run = λ s h. subst (λ w. Returns (λ a t. Holds j t) (k w s)) (sym h.saved_is) (hk.run s h);
  }
