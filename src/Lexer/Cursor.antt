-- ===== src/Lexer/Cursor.antt =====
-- parser/lexer.cpp: where `tokenize` stands in the source, and the loops that move on from there.
-- The position `pos` is the list of the bytes from there on.
use nari.Prelude.{
  ℕ, zero, suc, ◌+◌, ◌-◌, Bool, [], ◌∷◌, ◌==◌, not, ◌&&◌, length, get_or, take, if◌then◌else◌,
}
use nari.Bytecode.Chunk.{Bytes}

pub record Position : Type 0 where
  pub line : ℕ
  pub col : ℕ

pub record Cursor : Type 0 where
  pub place : Position
  pub rest : Bytes

-- What `advance` does to `line` and `col` for one byte.
unfoldable pub bump : Position → ℕ → Position
bump p c =
    if c == 10
    then record { line = p.line + 1; col = 1 }
    else record { line = p.line; col = p.col + 1 }

unfoldable pub advance_from : ℕ → Position → Bytes → Cursor
advance_from zero p rest = record { place = p; rest = rest }
advance_from (suc n) p [] = record { place = p; rest = [] }
advance_from (suc n) p (c ∷ rest) = advance_from n (bump p c) rest

abbrev pub advance : ℕ → Cursor → Cursor
advance n c = advance_from n c.place c.rest

-- `cur()` and `peek(n)`: NUL past the end.
abbrev pub cur : Cursor → ℕ
cur c = get_or c.rest 0 0

abbrev pub peek : Cursor → ℕ → ℕ
peek c n = get_or c.rest n 0

-- `src.substr(st, pos - st)`, from cursor `c` to the later cursor `c'`.
abbrev pub slice : Cursor → Cursor → Bytes
slice c c' = take (length c.rest - length c'.rest) c.rest

-- What the body of a loop does in one round: leave the loop after `n` bytes, or go on after one or
-- after two.
pub data Move (S : Type 0) : Type 0 where
  halt : ℕ → S → Move S
  one two : S → Move S

-- What a move leads to.
abbrev pub on_move :
    {S : Type 0} → (ℕ → Cursor) → (S → S × Cursor) → (S → S × Cursor) → Move S → S × Cursor
on_move halted go_one go_two (halt n s) = (s, halted n)
on_move halted go_one go_two (one s) = go_one s
on_move halted go_one go_two (two s) = go_two s

-- A loop over the source; the body sees `cur()` and `peek()`.
unfoldable pub scan : {S : Type 0} → (S → ℕ → ℕ → Move S) → S → Position → Bytes → S × Cursor
scan body s p [] = (s, record { place = p; rest = [] })
scan body s p (c ∷ []) =
    on_move (λ n. advance_from n p (c ∷ [])) (λ s'. (s', record { place = bump p c; rest = [] }))
      (λ s'. (s', record { place = bump p c; rest = [] })) (body s c 0)
scan body s p (c ∷ e ∷ rest) =
    on_move (λ n. advance_from n p (c ∷ e ∷ rest)) (λ s'. scan body s' (bump p c) (e ∷ rest))
      (λ s'. scan body s' (bump (bump p c) e) rest) (body s c e)

abbrev pub scan_at : {S : Type 0} → (S → ℕ → ℕ → Move S) → S → Cursor → S × Cursor
scan_at body s c = scan body s c.place c.rest

-- `while (cur() && test(cur())) advance();`
unfoldable pub while_body : (ℕ → Bool) → Unit {0} → ℕ → ℕ → Move (Unit {0})
while_body test s c e = if not (c == 0) && test c then one s else halt 0 s

abbrev pub skip_while : (ℕ → Bool) → Cursor → Cursor
skip_while test c = (scan_at (while_body test) tt c).1
