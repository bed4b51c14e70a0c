-- ===== src/Equality.antt =====
-- `is_true` and `equality` of server/utils.c.
pub mod Laws
use waverous.Base.{
  ℕ, zero, suc, ◌+◌, Bool, true, false, ◌&&◌, not, Option, none, some, ℤ, pos, eqz, List, [], ◌∷◌,
  ◌==◌, if◌then◌else◌,
}
use waverous.Text.{CStr, streq, mystrcasecmp}
use waverous.Values.{
  Var, int, obj, str, err, list, clear, unset, catch, finally, float, Vars, nil, cons, Error,
  e_none, e_type, e_div, e_perm, e_propnf, e_verbnf, e_varnf, e_invind, e_recmove, e_maxrec,
  e_range, e_args, e_nacc, e_invarg, e_quota, e_float,
}

-- `enum error` as the number it is.
unfoldable pub error_number : Error → ℕ
error_number e_none = 0
error_number e_type = 1
error_number e_div = 2
error_number e_perm = 3
error_number e_propnf = 4
error_number e_verbnf = 5
error_number e_varnf = 6
error_number e_invind = 7
error_number e_recmove = 8
error_number e_maxrec = 9
error_number e_range = 10
error_number e_args = 11
error_number e_nacc = 12
error_number e_invarg = 13
error_number e_quota = 14
error_number e_float = 15

unfoldable pub count_vars : Vars → ℕ
count_vars nil = 0
count_vars (cons v vs) = suc (count_vars vs)

-- `fzero` is the test `*v.v.fnum == 0.0` of the machine.
unfoldable pub is_true : (ℕ → Bool) → Var → Bool
is_true fzero (int n) = not (eqz n (pos 0))
is_true fzero (float d) = not (fzero d)
is_true fzero (str []) = false
is_true fzero (str (c ∷ s)) = true
is_true fzero (list nil) = false
is_true fzero (list (cons v vs)) = true
is_true fzero _ = false

unfoldable pub same_text : Bool → CStr → CStr → Bool
same_text case_matters s t = if case_matters then streq s t else eqz (mystrcasecmp s t) (pos 0)

-- The shortcut for two lists at one address is left out.
-- `for (...) if (!equality(...)) return 0; return 1;` behind the result for one item.
abbrev pub and_then : Option Bool → Option Bool → Option Bool
and_then none rest = none
and_then (some false) rest = some false
and_then (some true) rest = rest

-- `feq` compares two doubles. `none` is the panic on a value that no program can hold.
module _ (feq : ℕ → ℕ → Bool) (case_matters : Bool) where
  unfoldable mutual
    pub equality : Var → Var → Option Bool
    equality (float a) (float b) = some (feq a b)
    equality (float a) _ = some false
    equality (int a) (int b) = some (eqz a b)
    equality (int a) _ = some false
    equality (obj a) (obj b) = some (eqz a b)
    equality (obj a) _ = some false
    equality (err a) (err b) = some (error_number a == error_number b)
    equality (err a) _ = some false
    equality (str a) (str b) = some (same_text case_matters a b)
    equality (str a) _ = some false
    equality (list a) (list b) =
        let each = equality_items a b in if count_vars a == count_vars b then each else some false
    equality (list a) _ = some false
    equality clear clear = none
    equality clear _ = some false
    equality unset unset = none
    equality unset _ = some false
    equality (catch a) (catch b) = none
    equality (catch a) _ = some false
    equality (finally a) (finally b) = none
    equality (finally a) _ = some false

    pub equality_items : Vars → Vars → Option Bool
    equality_items nil vs = some true
    equality_items (cons v vs) nil = some true
    equality_items (cons v vs) (cons w ws) = and_then (equality v w) (equality_items vs ws)
