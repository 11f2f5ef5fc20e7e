-- ===== src/Lexer/Literals.antt =====
-- parser/lexer.cpp: string, interpolated string, regex and number literals, and identifiers.
use nari.Prelude.{
  ℕ, ◌+◌, ◌-◌, Bool, true, false, List, [], ◌∷◌, ◌++◌, none, some, ◌==◌, not, ◌&&◌, ◌||◌, ltb,
  is_one_of, length, take, drop, if◌then◌else◌,
}
use nari.Bytecode.Chunk.{Bytes}
use nari.Lexer.Token.{TokenKind, Token, LexMessage}
use nari.Lexer.Chars.{is_digit, is_xdigit, is_identifier_continue, trim_ascii}
use nari.Lexer.Cursor.{
  Position, Cursor, advance, cur, peek, slice, Move, halt, one, two, scan_at, skip_while,
}
use nari.Lexer.FormatColon.{find_top_level_format_colon}

-- What one round of the main loop makes of the source at hand: nothing, a token, or an error at its
-- place.
pub data Piece : Type 0 where
  blank : Piece
  comment token : Token → Piece
  broken : LexMessage → Position → Piece

-- The byte that an escape stands for.
unfoldable pub unescape : ℕ → ℕ
unescape e = if e == b'n' then 10 else if e == b'r' then 13 else if e == b't' then 9 else e

-- The body of the loop over a string literal.
unfoldable pub string_body : Bytes → ℕ → ℕ → Move Bytes
unfolding unescape
string_body out c e =
    if c == 0 || c == b'"'
    then halt 0 out
    else if c == b'\\'
    then if e == 0 then halt 1 out else two (out ++ unescape e ∷ [])
    else one (out ++ c ∷ [])

-- The token under construction; `depth` is 0 in the text between the expressions.
pub record Interp : Type 0 where
  pub current_part : Bytes
  pub parts : List Bytes
  pub exprs : List Bytes
  pub formats : List Bytes
  pub depth : ℕ
  pub expr : Bytes

abbrev pub interp_start : Interp
interp_start = record {
  current_part = [];
  parts = [];
  exprs = [];
  formats = [];
  depth = 0;
  expr = [];
}

-- The expression and its format.
unfoldable pub split_format : Bytes → Bytes × Bytes
split_format expr = elim (find_top_level_format_colon expr) [
  | none ↦ (expr, [])
  | some k ↦ (trim_ascii (take k expr), trim_ascii (drop (k + 1) expr))
]

-- The end of an expression.
unfoldable pub close_expr : Interp → Interp
close_expr s =
    let (source, format) = split_format s.expr in
    record s {
      exprs = s.exprs ++ source ∷ [];
      formats = s.formats ++ format ∷ [];
      depth = 0;
      expr = [];
    }

abbrev pub push_part : Interp → ℕ → Interp
push_part s c = record s { current_part = s.current_part ++ c ∷ [] }

-- `{` in the text.
abbrev pub open_expr : Interp → Interp
open_expr s = record s {
  parts = s.parts ++ s.current_part ∷ [];
  current_part = [];
  depth = 1;
  expr = [];
}

-- The body of the loop over the text.
unfoldable pub part_body : Interp → ℕ → ℕ → Move Interp
part_body s c e =
    if c == 0 || c == b'`'
    then halt 0 s
    else if c == b'\\'
    then if e == 0 then halt 1 s else two (push_part s (unescape e))
    else if c == b'{'
    then one (open_expr s)
    else one (push_part s c)

abbrev pub next_depth : ℕ → ℕ → ℕ
next_depth depth c = if c == b'{' then depth + 1 else if c == b'}' then depth - 1 else depth

-- The body of the loop over an expression.
unfoldable pub expr_body : Interp → ℕ → Move Interp
expr_body s c =
    if c == 0
    then halt 0 s
    else if ltb 0 (next_depth s.depth c)
    then one (record s { depth = next_depth s.depth c; expr = s.expr ++ c ∷ [] })
    else one (close_expr s)

-- Both loops, the inner one while `depth` is not 0.
unfoldable pub interp_body : Interp → ℕ → ℕ → Move Interp
unfolding part_body expr_body close_expr
interp_body s c e = if s.depth == 0 then part_body s c e else expr_body s c

-- An expression that the source ends in is taken all the same.
unfoldable pub finish_interp : Interp → Interp
unfolding close_expr
finish_interp s =
    let t = if s.depth == 0 then s else close_expr s in
    record t { parts = t.parts ++ t.current_part ∷ [] }

pub record RegexScan : Type 0 where
  pub pattern : Bytes
  pub in_char_class : Bool
  pub regex_ok : Bool

unfoldable pub regex_body : RegexScan → ℕ → ℕ → Move RegexScan
regex_body s c e =
    let pushed = s.pattern ++ c ∷ [] in
    if c == 0
    then halt 0 s
    else if c == b'\\' && not (e == 0)
    then two (record s { pattern = s.pattern ++ c ∷ e ∷ [] })
    else if c == b'['
    then one (record s { pattern = pushed; in_char_class = true })
    else if c == b']'
    then one (record s { pattern = pushed; in_char_class = false })
    else if not s.in_char_class && c == b'/'
    then halt 1 (record s { regex_ok = true })
    else if c == 10
    then halt 0 s
    else one (record s { pattern = pushed })

abbrev pub is_regex_flag : ℕ → Bool
is_regex_flag c = is_one_of c (b'g' ∷ b'i' ∷ b'm' ∷ b's' ∷ b'u' ∷ b'v' ∷ b'y' ∷ [])

abbrev pub starts_hex : Cursor → Bool
starts_hex c = cur c == b'0' && (peek c 1 == b'x' || peek c 1 == b'X')

module _ (filename : Bytes) where
  -- `push_tok` with the position at cursor `c`.
  abbrev pub make_token : TokenKind → Bytes → Cursor → Token
  make_token kind text c = record {
    kind = kind;
    text = text;
    line = c.place.line;
    col = c.place.col;
    filename = filename;
    interp_parts = [];
    interp_exprs = [];
    interp_formats = [];
  }

  unfoldable pub lex_string : Cursor → Piece × Cursor
  unfolding string_body
  lex_string c =
      let (out, end) = scan_at string_body [] (advance 1 c) in
      if cur end == b'"'
      then (token (make_token TokenKind.string out c), advance 1 end)
      else (broken LexMessage.unterminated_string c.place, end)

  unfoldable pub interp_token : Interp → Cursor → Token
  interp_token s c = record (make_token TokenKind.interp_string [] c) {
    interp_parts = s.parts;
    interp_exprs = s.exprs;
    interp_formats = s.formats;
  }

  unfoldable pub lex_interp : Cursor → Piece × Cursor
  unfolding interp_body interp_token finish_interp
  lex_interp c =
      let (s, end) = scan_at interp_body interp_start (advance 1 c) in
      if cur end == b'`'
      then (token (interp_token (finish_interp s) c), advance 1 end)
      else (broken LexMessage.unterminated_interp c.place, end)

  -- The token of a regex whose closing `/` is in front of `end`.
  unfoldable pub lex_flags : Bytes → Cursor → Cursor → Piece × Cursor
  lex_flags pattern c end =
      let after = skip_while is_regex_flag end in
      (
        token
            (record (make_token TokenKind.regex pattern c) { interp_parts = slice end after ∷ [] }),
        after,
      )

  unfoldable pub lex_regex : Cursor → Piece × Cursor
  unfolding regex_body lex_flags
  lex_regex c =
      let start : RegexScan = record { pattern = []; in_char_class = false; regex_ok = false } in
      let (s, end) = scan_at regex_body start (advance 1 c) in
      if s.regex_ok
      then lex_flags s.pattern c end
      else (token (make_token TokenKind.unknown (b'/' ∷ []) c), end)

  unfoldable pub lex_hex : Cursor → Piece × Cursor
  lex_hex c =
      let start = advance 2 c in
      let end = skip_while is_xdigit start in
      if length end.rest == length start.rest
      then (broken LexMessage.bad_hex c.place, end)
      else (token (make_token TokenKind.number (slice c end) c), end)

  unfoldable pub lex_decimal : Cursor → Piece × Cursor
  lex_decimal c =
      let whole = skip_while is_digit c in
      let end = if cur whole == b'.' then skip_while is_digit (advance 1 whole) else whole in
      (token (make_token TokenKind.number (slice c end) c), end)

  unfoldable pub lex_number : Cursor → Piece × Cursor
  unfolding lex_hex lex_decimal
  lex_number c = if starts_hex c then lex_hex c else lex_decimal c

  unfoldable pub lex_identifier : Cursor → Piece × Cursor
  lex_identifier c =
      let end = skip_while is_identifier_continue (advance 1 c) in
      (token (make_token TokenKind.ident (slice c end) c), end)
