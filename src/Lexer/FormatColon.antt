-- ===== src/Lexer/FormatColon.antt =====
-- parser/lexer.cpp: `find_top_level_format_colon`.
use nari.Prelude.{
  ℕ, ◌+◌, ◌-◌, Bool, true, false, [], ◌∷◌, Option, none, some, ◌==◌, not, ◌&&◌, is_one_of,
  if◌then◌else◌,
}
use nari.Bytecode.Chunk.{Bytes}
use nari.Lexer.Chars.{is_space}

-- `quote` is 0 outside of quotes.
pub record ColonState : Type 0 where
  pub paren_depth : ℕ
  pub bracket_depth : ℕ
  pub brace_depth : ℕ
  pub quote : ℕ
  pub escape : Bool

abbrev pub colon_start : ColonState
colon_start = record {
  paren_depth = 0;
  bracket_depth = 0;
  brace_depth = 0;
  quote = 0;
  escape = false;
}

abbrev pub is_quote : ℕ → Bool
is_quote c = is_one_of c (b'\'' ∷ b'"' ∷ b'`' ∷ [])

-- The body of the loop, but for a colon that ends it. `--depth` is under `depth > 0`.
unfoldable pub colon_step : ColonState → ℕ → ColonState
colon_step s c =
    if not (s.quote == 0)
    then if s.escape
      then record s { escape = false }
      else if c == b'\\'
      then record s { escape = true }
      else if c == s.quote
      then record s { quote = 0 }
      else s
    else if is_quote c
    then record s { quote = c }
    else if c == b'('
    then record s { paren_depth = s.paren_depth + 1 }
    else if c == b')'
    then record s { paren_depth = s.paren_depth - 1 }
    else if c == b'['
    then record s { bracket_depth = s.bracket_depth + 1 }
    else if c == b']'
    then record s { bracket_depth = s.bracket_depth - 1 }
    else if c == b'{'
    then record s { brace_depth = s.brace_depth + 1 }
    else if c == b'}'
    then record s { brace_depth = s.brace_depth - 1 }
    else s

-- The inner loop, over what follows the colon.
unfoldable pub is_ternary_false_branch : Bytes → Bool
is_ternary_false_branch [] = false
is_ternary_false_branch (next ∷ rest) =
    if is_space next then is_ternary_false_branch rest else not (next == b'.')

abbrev pub is_top_level : ColonState → Bool
is_top_level s = s.quote == 0 && s.paren_depth == 0 && s.bracket_depth == 0 && s.brace_depth == 0

-- The loop from index `i` on; `none` is npos.
unfoldable pub colon_loop : ColonState → ℕ → Bytes → Option ℕ
unfolding colon_step is_ternary_false_branch
colon_loop s i [] = none
colon_loop s i (c ∷ rest) =
    let more = colon_loop (colon_step s c) (i + 1) rest in
    if c == b':' && is_top_level s && not (is_ternary_false_branch rest) then some i else more

unfoldable pub find_top_level_format_colon : Bytes → Option ℕ
unfolding colon_loop
find_top_level_format_colon expr = colon_loop colon_start 0 expr
