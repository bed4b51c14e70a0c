-- ===== src/Compiler/Opcodes.antt =====
-- The instructions of server/opcode.h and the numbers that they are written as.
use waverous.Base.{ℕ, ◌+◌, ◌-◌, Bool, ℤ, pos, negsuc, leb}
use waverous.Base.Int.{sub_ℕ}

pub data Opcode : Type 0 where
  op_if op_while op_eif op_fork op_fork_with_id op_for_list op_for_range op_indexset : Opcode
  op_push_get_prop op_get_prop op_call_verb op_put_prop op_bi_func_call op_if_ques op_ref : Opcode
  op_range_ref op_make_singleton_list op_check_list_for_splice op_mult op_div op_mod : Opcode
  op_add op_minus op_eq op_ne op_lt op_le op_gt op_ge op_in op_and op_or op_unary_minus : Opcode
  op_not op_put op_push op_imm op_make_empty_list op_list_add_tail op_list_append : Opcode
  op_push_ref op_put_temp op_push_temp op_jump op_return op_return0 op_done op_pop : Opcode
  op_extended optim_num_start : Opcode

pub data ExtendedOpcode : Type 0 where
  eop_rangeset eop_length eop_push_label eop_end_catch eop_end_except : ExtendedOpcode
  eop_end_finally eop_continue eop_catch eop_try_except eop_try_finally : ExtendedOpcode
  eop_while_id eop_exit eop_exit_id eop_scatter eop_exp : ExtendedOpcode

abbrev pub num_ready_vars : ℕ
num_ready_vars = 32

-- `op_put` and `op_push` leave room for one instruction for each ready variable, and one more.
unfoldable pub opcode : Opcode → ℕ
opcode op_if = 0
opcode op_while = 1
opcode op_eif = 2
opcode op_fork = 3
opcode op_fork_with_id = 4
opcode op_for_list = 5
opcode op_for_range = 6
opcode op_indexset = 7
opcode op_push_get_prop = 8
opcode op_get_prop = 9
opcode op_call_verb = 10
opcode op_put_prop = 11
opcode op_bi_func_call = 12
opcode op_if_ques = 13
opcode op_ref = 14
opcode op_range_ref = 15
opcode op_make_singleton_list = 16
opcode op_check_list_for_splice = 17
opcode op_mult = 18
opcode op_div = 19
opcode op_mod = 20
opcode op_add = 21
opcode op_minus = 22
opcode op_eq = 23
opcode op_ne = 24
opcode op_lt = 25
opcode op_le = 26
opcode op_gt = 27
opcode op_ge = 28
opcode op_in = 29
opcode op_and = 30
opcode op_or = 31
opcode op_unary_minus = 32
opcode op_not = 33
opcode op_put = 34
opcode op_push = 67
opcode op_imm = 100
opcode op_make_empty_list = 101
opcode op_list_add_tail = 102
opcode op_list_append = 103
opcode op_push_ref = 104
opcode op_put_temp = 105
opcode op_push_temp = 106
opcode op_jump = 107
opcode op_return = 108
opcode op_return0 = 109
opcode op_done = 110
opcode op_pop = 111
opcode op_extended = 112
opcode optim_num_start = 113

unfoldable pub extended_opcode : ExtendedOpcode → ℕ
extended_opcode eop_rangeset = 0
extended_opcode eop_length = 1
extended_opcode eop_push_label = 2
extended_opcode eop_end_catch = 3
extended_opcode eop_end_except = 4
extended_opcode eop_end_finally = 5
extended_opcode eop_continue = 6
extended_opcode eop_catch = 7
extended_opcode eop_try_except = 8
extended_opcode eop_try_finally = 9
extended_opcode eop_while_id = 10
extended_opcode eop_exit = 11
extended_opcode eop_exit_id = 12
extended_opcode eop_scatter = 13
extended_opcode eop_exp = 14

abbrev pub last_opcode : ℕ
last_opcode = 255

-- `OPTIM_NUM_HI`; the least number with an instruction of its own is -10.
abbrev pub optim_num_hi : ℕ
optim_num_hi = last_opcode - 113 - 10

unfoldable pub in_optim_num_range : ℤ → Bool
in_optim_num_range (pos n) = leb n optim_num_hi
in_optim_num_range (negsuc n) = leb n 9

-- `OPTIM_NUM_START + i - OPTIM_NUM_LOW`
unfoldable pub optim_num_to_opcode : ℤ → ℕ
unfolding opcode
optim_num_to_opcode (pos n) = opcode optim_num_start + n + 10
optim_num_to_opcode (negsuc n) = opcode optim_num_start + 10 - (n + 1)

unfoldable pub is_optim_num_opcode : ℕ → Bool
unfolding opcode
is_optim_num_opcode o = leb (opcode optim_num_start) o

unfoldable pub opcode_to_optim_num : ℕ → ℤ
unfolding opcode
opcode_to_optim_num o = sub_ℕ o (opcode optim_num_start + 10)
