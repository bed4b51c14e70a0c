-- ===== src/Compiler/Valid.antt =====
-- What the parser lets through of the trees of server/ast.h: `$` only inside an index, an assignment
-- only to a place that can be assigned to, and a `break` or `continue` only of a loop around it.
use waverous.Base.{if◌then◌else◌, ℕ, ◌≡◌, Bool, true, false, Option, none, some, List, [], ◌∷◌}
use waverous.Compiler.Ast.{
  Expr, MaybeExpr, absent, present, Args, no_args, arg, Scatters, no_scatters, target, Stmt, Arms,
  no_arms, arm, Excepts, no_excepts, except,
}
use waverous.Compiler.Ast.Expr.{
  var, id, prop, verb, index, range, asgn, call, binary, exp, negate, neither, both, either, list,
  choose, catch, length_of, scatter,
}
use waverous.Compiler.Ast.Stmt.{
  done, cond, for_list, for_range, while, fork, expr, return, try_except, try_finally, break,
  continue,
}
use waverous.Compiler.Loops.{same_id}
use waverous.Compiler.Sound.{IsLiteral}

abbrev mutual
  -- `dollar` says whether a `$` may stand here.
  pub ExprIsValid : Bool → Expr → Type 0
  ExprIsValid dollar (var v) = IsLiteral v
  ExprIsValid dollar (id slot) = Unit
  ExprIsValid dollar (prop e f) = ExprIsValid dollar e × ExprIsValid dollar f
  ExprIsValid dollar (verb e f args) =
      ExprIsValid dollar e × ExprIsValid dollar f × ArgsAreValid dollar args
  ExprIsValid dollar (index e f) = ExprIsValid dollar e × ExprIsValid true f
  ExprIsValid dollar (range e f g) = ExprIsValid dollar e × ExprIsValid true f × ExprIsValid true g
  ExprIsValid dollar (asgn e f) = PlaceIsValid dollar e × ExprIsValid dollar f
  ExprIsValid dollar (call func args) = ArgsAreValid dollar args
  ExprIsValid dollar (binary kind e f) = ExprIsValid dollar e × ExprIsValid dollar f
  ExprIsValid dollar (exp e f) = ExprIsValid dollar e × ExprIsValid dollar f
  ExprIsValid dollar (negate e) = ExprIsValid dollar e
  ExprIsValid dollar (neither e) = ExprIsValid dollar e
  ExprIsValid dollar (both e f) = ExprIsValid dollar e × ExprIsValid dollar f
  ExprIsValid dollar (either e f) = ExprIsValid dollar e × ExprIsValid dollar f
  ExprIsValid dollar (list args) = ArgsAreValid dollar args
  ExprIsValid dollar (choose e f g) =
      ExprIsValid dollar e × ExprIsValid dollar f × ExprIsValid dollar g
  ExprIsValid dollar (catch e codes handler) =
      ExprIsValid dollar e × ArgsAreValid dollar codes × MaybeIsValid dollar handler
  ExprIsValid dollar length_of = dollar ≡ true
  ExprIsValid dollar (scatter targets) = ⊥

  pub MaybeIsValid : Bool → MaybeExpr → Type 0
  MaybeIsValid dollar absent = Unit
  MaybeIsValid dollar (present e) = ExprIsValid dollar e

  pub ArgsAreValid : Bool → Args → Type 0
  ArgsAreValid dollar no_args = Unit
  ArgsAreValid dollar (arg kind e next) = ExprIsValid dollar e × ArgsAreValid dollar next

  pub ScattersAreValid : Bool → Scatters → Type 0
  ScattersAreValid dollar no_scatters = Unit
  ScattersAreValid dollar (target kind slot default next) =
      MaybeIsValid dollar default × ScattersAreValid dollar next

  -- A variable or a property, or an item of such a place.
  pub InnerIsValid : Bool → Expr → Type 0
  InnerIsValid dollar (id slot) = Unit
  InnerIsValid dollar (prop e f) = ExprIsValid dollar e × ExprIsValid dollar f
  InnerIsValid dollar (index e f) = InnerIsValid dollar e × ExprIsValid true f
  InnerIsValid dollar _ = ⊥

  -- A range is assigned to as a whole.
  pub PlaceIsValid : Bool → Expr → Type 0
  PlaceIsValid dollar (scatter targets) = ScattersAreValid dollar targets
  PlaceIsValid dollar (range e f g) =
      InnerIsValid dollar e × ExprIsValid true f × ExprIsValid true g
  PlaceIsValid dollar (id slot) = Unit
  PlaceIsValid dollar (prop e f) = ExprIsValid dollar e × ExprIsValid dollar f
  PlaceIsValid dollar (index e f) = InnerIsValid dollar e × ExprIsValid true f
  PlaceIsValid dollar _ = ⊥

-- One of the open loops has this name.
abbrev pub has_loop : ℕ → List (Option ℕ) → Bool
has_loop slot [] = false
has_loop slot (i ∷ is) = if same_id slot i then true else has_loop slot is

abbrev pub ExitIsValid : Option ℕ → List (Option ℕ) → Type 0
ExitIsValid none [] = ⊥
ExitIsValid none (i ∷ is) = Unit
ExitIsValid (some slot) is = has_loop slot is ≡ true

abbrev mutual
  -- The names of the loops around the statement go along.
  pub StmtIsValid : List (Option ℕ) → Stmt → Type 0
  StmtIsValid loops done = Unit
  StmtIsValid loops (cond arms otherwise next) =
      ArmsAreValid loops arms × StmtIsValid loops otherwise × StmtIsValid loops next
  StmtIsValid loops (for_list slot e body next) =
      ExprIsValid false e × StmtIsValid (some slot ∷ loops) body × StmtIsValid loops next
  StmtIsValid loops (for_range slot e f body next) =
      ExprIsValid false e
      × ExprIsValid false f
      × StmtIsValid (some slot ∷ loops) body
      × StmtIsValid loops next
  StmtIsValid loops (while slot e body next) =
      ExprIsValid false e × StmtIsValid (slot ∷ loops) body × StmtIsValid loops next
  StmtIsValid loops (fork slot e body next) =
      ExprIsValid false e × StmtIsValid [] body × StmtIsValid loops next
  StmtIsValid loops (expr e next) = ExprIsValid false e × StmtIsValid loops next
  StmtIsValid loops (return value next) = MaybeIsValid false value × StmtIsValid loops next
  StmtIsValid loops (try_except body excepts next) =
      StmtIsValid loops body × ExceptsAreValid loops excepts × StmtIsValid loops next
  StmtIsValid loops (try_finally body handler next) =
      StmtIsValid loops body × StmtIsValid loops handler × StmtIsValid loops next
  StmtIsValid loops (break exit next) = ExitIsValid exit loops × StmtIsValid loops next
  StmtIsValid loops (continue exit next) = ExitIsValid exit loops × StmtIsValid loops next

  pub ArmsAreValid : List (Option ℕ) → Arms → Type 0
  ArmsAreValid loops no_arms = Unit
  ArmsAreValid loops (arm e body next) =
      ExprIsValid false e × StmtIsValid loops body × ArmsAreValid loops next

  pub ExceptsAreValid : List (Option ℕ) → Excepts → Type 0
  ExceptsAreValid loops no_excepts = Unit
  ExceptsAreValid loops (except slot codes body next) =
      ArgsAreValid false codes × StmtIsValid loops body × ExceptsAreValid loops next

abbrev pub is_some {ℓ} : {A : Type ℓ} → Option A → Bool
is_some none = false
is_some (some a) = true
