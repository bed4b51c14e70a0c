-- ===== src/Values.antt =====
-- The values of the MOO language, `struct Var` of server/structures.h.
use waverous.Base.{ℕ, ℤ, List, [], ◌∷◌}
use waverous.Text.{CStr}

pub data Error : Type 0 where
  e_none e_type e_div e_perm e_propnf e_verbnf e_varnf e_invind : Error
  e_recmove e_maxrec e_range e_args e_nacc e_invarg e_quota e_float : Error

-- A `double` is its bit pattern; only the operations that the model takes as parameters read it.
mutual
  pub data Var : Type 0 where
    int : ℤ → Var
    obj : ℤ → Var
    str : CStr → Var
    err : Error → Var
    list : Vars → Var
    clear : Var
    unset : Var
    catch : ℤ → Var
    finally : ℤ → Var
    float : ℕ → Var

  pub data Vars : Type 0 where
    nil : Vars
    cons : Var → Vars → Vars

unfoldable pub items : Vars → List Var
items nil = []
items (cons v vs) = v ∷ items vs

unfoldable pub of_items : List Var → Vars
of_items [] = nil
of_items (v ∷ vs) = cons v (of_items vs)
