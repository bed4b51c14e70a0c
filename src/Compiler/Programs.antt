-- ===== src/Compiler/Programs.antt =====
-- `generate_code` of server/code_gen.c: the vectors and the literals of a program.
use waverous.Base.{ℕ, Bool, Option, none, some, List}
use waverous.Values.{Var}
use waverous.Compiler.Ast.{Stmt}
use waverous.Compiler.State.{Bytecodes, init_gstate}
use waverous.Compiler.Stmts.{stmt_to_code}

-- The parts of a program that its code gives.
pub record Program : Type 0 where
  pub version : ℕ
  pub main_vector : Bytecodes
  pub literals : List Var
  pub fork_vectors : List Bytecodes

unfoldable pub generate_code : (ℕ → ℕ → Bool) → Stmt → ℕ → Option Program
generate_code feq stmt version = elim (stmt_to_code feq stmt init_gstate) [
  | none ↦ none
  | some (bc, g) ↦ some (record {
    version = version;
    main_vector = bc;
    literals = g.literals;
    fork_vectors = g.fork_vectors;
  })
]
