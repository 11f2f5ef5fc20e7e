-- ===== src/Bytecode/Justified.antt =====
-- bytecode.h: what the body of a function returns that `jit_classify_inline` has a kind for.
use nari.Bytecode.OpCode
