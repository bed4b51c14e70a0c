-- ===== src/Compiler.antt =====
-- The code generator of server/code_gen.c, from a statement to a program.
pub mod Ast
pub mod Opcodes
pub mod State
pub mod Refs
pub mod Targets
pub mod Exprs
pub mod Vector
pub mod Loops
pub mod Stmts
pub mod Programs
pub mod Sound
pub mod Moves
pub mod Depths
pub mod Steps
pub mod Literals
pub mod Valid
pub mod SafeTargets
pub mod SafeExprs
pub mod Sizes
pub mod SafeStmts
pub mod SafeBodies
pub mod SafePrograms
pub mod Safety
pub mod RoundTrips
pub mod Landing
pub mod Chains
pub mod Interning
