-- ===== src/Compiler/Ast.antt =====
-- The syntax trees of server/ast.h. A pointer to the next item is the rest of the list, and an
-- identifier is the number of its variable; the `-1` of a missing identifier is `none`. The labels
-- that the code generator keeps in a tree are values of its functions instead.
use waverous.Base.{ℕ, Option}
use waverous.Values.{Var}

pub data ArgKind : Type 0 where
  arg_normal arg_splice : ArgKind

pub data ScatterKind : Type 0 where
  scat_required scat_optional scat_rest : ScatterKind

-- The operators that compile to their two operands and one instruction.
pub data BinaryKind : Type 0 where
  eq ne ge gt le lt is_in plus minus times divide mod_of : BinaryKind

mutual
  pub data Expr : Type 0 where
    var : Var → Expr
    id : ℕ → Expr
    prop : Expr → Expr → Expr
    verb : Expr → Expr → Args → Expr
    index : Expr → Expr → Expr
    range : Expr → Expr → Expr → Expr
    asgn : Expr → Expr → Expr
    call : ℕ → Args → Expr
    binary : BinaryKind → Expr → Expr → Expr
    exp : Expr → Expr → Expr
    negate : Expr → Expr
    neither : Expr → Expr
    both : Expr → Expr → Expr
    either : Expr → Expr → Expr
    list : Args → Expr
    choose : Expr → Expr → Expr → Expr
    catch : Expr → Args → MaybeExpr → Expr
    length_of : Expr
    scatter : Scatters → Expr

  pub data MaybeExpr : Type 0 where
    absent : MaybeExpr
    present : Expr → MaybeExpr

  pub data Args : Type 0 where
    no_args : Args
    arg : ArgKind → Expr → Args → Args

  pub data Scatters : Type 0 where
    no_scatters : Scatters
    target : ScatterKind → ℕ → MaybeExpr → Scatters → Scatters

mutual
  pub data Stmt : Type 0 where
    done : Stmt
    cond : Arms → Stmt → Stmt → Stmt
    for_list : ℕ → Expr → Stmt → Stmt → Stmt
    for_range : ℕ → Expr → Expr → Stmt → Stmt → Stmt
    while : Option ℕ → Expr → Stmt → Stmt → Stmt
    fork : Option ℕ → Expr → Stmt → Stmt → Stmt
    expr : Expr → Stmt → Stmt
    return : MaybeExpr → Stmt → Stmt
    try_except : Stmt → Excepts → Stmt → Stmt
    try_finally : Stmt → Stmt → Stmt → Stmt
    break : Option ℕ → Stmt → Stmt
    continue : Option ℕ → Stmt → Stmt

  pub data Arms : Type 0 where
    no_arms : Arms
    arm : Expr → Stmt → Arms → Arms

  pub data Excepts : Type 0 where
    no_excepts : Excepts
    except : Option ℕ → Args → Stmt → Excepts → Excepts
