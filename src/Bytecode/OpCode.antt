-- ===== src/Bytecode/OpCode.antt =====
-- bytecode.h: the opcode numbers. `OpCode` is an enum over `uint8_t`, and the code casts any byte of
-- a bytecode array to it, so a value that is no enumerator occurs: an `OpCode` is that byte.
use nari.Prelude.{ℕ}

abbrev pub OpCode : Type 0
OpCode = ℕ

abbrev pub op_load_const : OpCode
op_load_const = 0

abbrev pub op_load_var : OpCode
op_load_var = 1

abbrev pub op_store_var : OpCode
op_store_var = 2

abbrev pub op_load_global : OpCode
op_load_global = 3

abbrev pub op_store_global : OpCode
op_store_global = 4

abbrev pub op_pop : OpCode
op_pop = 5

abbrev pub op_dup : OpCode
op_dup = 6

abbrev pub op_load_none : OpCode
op_load_none = 7

abbrev pub op_load_true : OpCode
op_load_true = 8

abbrev pub op_load_false : OpCode
op_load_false = 9

abbrev pub op_load_zero : OpCode
op_load_zero = 10

abbrev pub op_load_one : OpCode
op_load_one = 11

abbrev pub op_add : OpCode
op_add = 12

abbrev pub op_sub : OpCode
op_sub = 13

abbrev pub op_mul : OpCode
op_mul = 14

abbrev pub op_div : OpCode
op_div = 15

abbrev pub op_mod : OpCode
op_mod = 16

abbrev pub op_pow : OpCode
op_pow = 17

abbrev pub op_neg : OpCode
op_neg = 18

abbrev pub op_str_concat : OpCode
op_str_concat = 19

abbrev pub op_str_append_var : OpCode
op_str_append_var = 20

abbrev pub op_str_append_global : OpCode
op_str_append_global = 21

abbrev pub op_bit_and : OpCode
op_bit_and = 22

abbrev pub op_bit_or : OpCode
op_bit_or = 23

abbrev pub op_bit_xor : OpCode
op_bit_xor = 24

abbrev pub op_bit_not : OpCode
op_bit_not = 25

abbrev pub op_lshift : OpCode
op_lshift = 26

abbrev pub op_rshift : OpCode
op_rshift = 27

abbrev pub op_not : OpCode
op_not = 28

abbrev pub op_eq : OpCode
op_eq = 29

abbrev pub op_ne : OpCode
op_ne = 30

abbrev pub op_lt : OpCode
op_lt = 31

abbrev pub op_le : OpCode
op_le = 32

abbrev pub op_gt : OpCode
op_gt = 33

abbrev pub op_ge : OpCode
op_ge = 34

abbrev pub op_jump : OpCode
op_jump = 35

abbrev pub op_jump_if_false : OpCode
op_jump_if_false = 36

abbrev pub op_jump_if_true : OpCode
op_jump_if_true = 37

abbrev pub op_jump_if_none : OpCode
op_jump_if_none = 38

abbrev pub op_call : OpCode
op_call = 39

abbrev pub op_self_tail_call : OpCode
op_self_tail_call = 40

abbrev pub op_return : OpCode
op_return = 41

abbrev pub op_make_closure : OpCode
op_make_closure = 42

abbrev pub op_spawn : OpCode
op_spawn = 43

abbrev pub op_make_array : OpCode
op_make_array = 44

abbrev pub op_make_object : OpCode
op_make_object = 45

abbrev pub op_array_push : OpCode
op_array_push = 46

abbrev pub op_array_spread : OpCode
op_array_spread = 47

abbrev pub op_object_spread : OpCode
op_object_spread = 48

abbrev pub op_object_set : OpCode
op_object_set = 49

abbrev pub op_call_spread : OpCode
op_call_spread = 50

abbrev pub op_make_regex : OpCode
op_make_regex = 51

abbrev pub op_get_index : OpCode
op_get_index = 52

abbrev pub op_set_index : OpCode
op_set_index = 53

abbrev pub op_get_property : OpCode
op_get_property = 54

abbrev pub op_js_get_prop_static : OpCode
op_js_get_prop_static = 55

abbrev pub op_set_property : OpCode
op_set_property = 56

abbrev pub op_make_iterator : OpCode
op_make_iterator = 57

abbrev pub op_iter_next : OpCode
op_iter_next = 58

abbrev pub op_make_iterator_kv : OpCode
op_make_iterator_kv = 59

abbrev pub op_iter_next_kv : OpCode
op_iter_next_kv = 60

abbrev pub op_load_capture : OpCode
op_load_capture = 61

abbrev pub op_store_capture : OpCode
op_store_capture = 62

abbrev pub op_throw : OpCode
op_throw = 63

abbrev pub op_setup_try : OpCode
op_setup_try = 64

abbrev pub op_pop_try : OpCode
op_pop_try = 65

abbrev pub op_begin_catch : OpCode
op_begin_catch = 66

abbrev pub op_begin_finally : OpCode
op_begin_finally = 67

abbrev pub op_new_instance : OpCode
op_new_instance = 68

abbrev pub op_load_this : OpCode
op_load_this = 69

abbrev pub op_call_method : OpCode
op_call_method = 70

abbrev pub op_check_type : OpCode
op_check_type = 71

abbrev pub op_format_value : OpCode
op_format_value = 72

abbrev pub op_iter_array : OpCode
op_iter_array = 73

abbrev pub op_js_truthy : OpCode
op_js_truthy = 74

abbrev pub op_js_bit_and : OpCode
op_js_bit_and = 75

abbrev pub op_js_bit_or : OpCode
op_js_bit_or = 76

abbrev pub op_js_bit_xor : OpCode
op_js_bit_xor = 77

abbrev pub op_js_bit_not : OpCode
op_js_bit_not = 78

abbrev pub op_js_shl : OpCode
op_js_shl = 79

abbrev pub op_js_shr : OpCode
op_js_shr = 80

abbrev pub op_js_ushr : OpCode
op_js_ushr = 81

abbrev pub op_strict_eq : OpCode
op_strict_eq = 82

abbrev pub op_strict_ne : OpCode
op_strict_ne = 83

abbrev pub op_js_set_prop_static : OpCode
op_js_set_prop_static = 84

abbrev pub op_js_postinc : OpCode
op_js_postinc = 85

abbrev pub op_close_upvalues : OpCode
op_close_upvalues = 86
