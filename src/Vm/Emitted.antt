-- ===== src/Vm/Emitted.antt =====
-- The code that the compiler emits for iterators: what the verifier and the interpreter agree on.
use nari.Prelude.{
  ℕ, zero, suc, ◌≡◌, arith, Bool, true, false, not, ◌&&◌, List, [], ◌∷◌, some, get_elem?, ◌==◌,
  is_one_of, if◌then◌else◌,
}
use nari.Bytecode.OpCode
use nari.Verifier.Insn.{InsnInfo}
use nari.Vm.Control.{iterators}

-- The shape that the compiler emits: for-each loops end by JUMP_IF_FALSE, and no SETUP_TRY.
abbrev pub followed_by : ℕ → List InsnInfo → Bool
followed_by op [] = true
followed_by op (i ∷ _) = i.op == op

unfoldable pub is_emitted : List InsnInfo → Bool
is_emitted [] = true
is_emitted (i ∷ rest) =
    not (i.op == OpCode.op_setup_try)
    && (if is_one_of i.op iterators then followed_by OpCode.op_jump_if_false rest else true)
    && is_emitted rest

pub is_emitted-get_elem? :
    (is : List InsnInfo) (k : ℕ) (i : InsnInfo)
    → is_emitted is ≡ true
    → get_elem? is k ≡ some i
    → (i.op == OpCode.op_setup_try) ≡ false
unfolding is_emitted
is_emitted-get_elem? [] k i h e = absurd (cc)
is_emitted-get_elem? (x ∷ is) zero i h e = ground arith
is_emitted-get_elem? (x ∷ is) (suc k) i h e = is_emitted-get_elem? is k i (ground arith) e

pub is_emitted-branch :
    (is : List InsnInfo) (k : ℕ) (i j : InsnInfo)
    → is_emitted is ≡ true
    → get_elem? is k ≡ some i
    → is_one_of i.op iterators ≡ true
    → get_elem? is (suc k) ≡ some j
    → j.op ≡ OpCode.op_jump_if_false
unfolding is_emitted
is_emitted-branch [] k i j h e s f = absurd (cc)
is_emitted-branch (x ∷ []) zero i j h e s f = absurd (cc)
is_emitted-branch (x ∷ y ∷ is) zero i j h e s f = ground arith
is_emitted-branch (x ∷ is) (suc k) i j h e s f = is_emitted-branch is k i j (ground arith) e s f
