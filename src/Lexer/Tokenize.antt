-- ===== src/Lexer/Tokenize.antt =====
-- parser/lexer.cpp: the main loop of `tokenize`.
use nari.Prelude.{
  ℕ, zero, suc, Bool, true, false, List, [], ◌∷◌, Option, none, some, ◌==◌, not, ◌&&◌, ◌||◌, length,
  codes, if◌then◌else◌,
}
use nari.Bytecode.Chunk.{Bytes}
use nari.Lexer.Token.{TokenKind, Token, LexMessage, LexError}
use nari.Lexer.Chars.{is_blank, is_digit, is_identifier_start}
use nari.Lexer.Cursor.{
  Position, Cursor, advance, cur, peek, slice, Move, halt, one, scan_at, skip_while,
}
use nari.Lexer.Operators.{operators, first_match}
use nari.Lexer.Literals.{
  Piece, blank, comment, token, broken, make_token, lex_string, lex_interp, lex_regex, lex_number,
  lex_identifier,
}

abbrev eqb_bytes : Bytes → Bytes → Bool
eqb_bytes [] [] = true
eqb_bytes (a ∷ s) (b ∷ t) = a == b && eqb_bytes s t
eqb_bytes [] (b ∷ t) = false
eqb_bytes (a ∷ s) [] = false

abbrev is_member : Bytes → List Bytes → Bool
is_member s [] = false
is_member s (t ∷ ts) = eqb_bytes s t || is_member s ts

-- kPrefixKeywords
abbrev pub prefix_keywords : List Bytes
prefix_keywords =
    codes "return"
    ∷ codes "typeof"
    ∷ codes "new"
    ∷ codes "delete"
    ∷ codes "await"
    ∷ codes "yield"
    ∷ codes "void"
    ∷ codes "not"
    ∷ codes "case"
    ∷ codes "in"
    ∷ []

unfoldable pub ends_expr : TokenKind → Bytes → Bool
ends_expr TokenKind.number text = true
ends_expr TokenKind.string text = true
ends_expr TokenKind.rparen text = true
ends_expr TokenKind.rbracket text = true
ends_expr TokenKind.rbrace text = true
ends_expr TokenKind.plusplus text = true
ends_expr TokenKind.minusminus text = true
ends_expr TokenKind.regex text = true
ends_expr TokenKind.ident text = not (is_member text prefix_keywords)
ends_expr _ text = false

-- `prev` is `tokens_out.back()`.
unfoldable pub prev_can_end_expr : Option Token → Bool
unfolding ends_expr
prev_can_end_expr none = false
prev_can_end_expr (some prev) = ends_expr prev.kind prev.text

-- The body of the loop over a block comment.
unfoldable pub block_body : Unit {0} → ℕ → ℕ → Move (Unit {0})
block_body s c e = if c == 0 then halt 0 s else if c == b'*' && e == b'/' then halt 2 s else one s

abbrev pub not_newline : ℕ → Bool
not_newline c = not (c == 10)

abbrev pub starts_number : Cursor → Bool
starts_number c = is_digit (cur c) || (cur c == b'.' && is_digit (peek c 1))

module _ (filename : Bytes) where
  -- `push_comment`
  unfoldable pub lex_comment : Cursor → Cursor → Piece × Cursor
  lex_comment c end = (comment (make_token filename TokenKind.comment (slice c end) c), end)

  -- The cases behind the operators.
  unfoldable pub lex_literal : Cursor → Piece × Cursor
  lex_literal c =
      if cur c == b'"'
      then lex_string filename c
      else if cur c == b'`'
      then lex_interp filename c
      else if starts_number c
      then lex_number filename c
      else if is_identifier_start (cur c)
      then lex_identifier filename c
      else (token (make_token filename TokenKind.unknown (cur c ∷ []) c), advance 1 c)

  unfoldable pub lex_slash : Option Token → Cursor → Piece × Cursor
  lex_slash prev c =
      if prev_can_end_expr prev
      then (token (make_token filename TokenKind.slash (b'/' ∷ []) c), advance 1 c)
      else lex_regex filename c

  unfoldable pub lex_operator : Option Token → Cursor → Piece × Cursor
  lex_operator prev c = elim (first_match operators c.rest) [
    | some o ↦ (token (make_token filename o.kind o.text c), advance (length o.text) c)
    | none ↦ if cur c == b'/' then lex_slash prev c else lex_literal c
  ]

  -- One round of the loop.
  unfoldable pub lex_piece : Option Token → Cursor → Piece × Cursor
  unfolding lex_comment lex_operator block_body
  lex_piece prev c =
      if is_blank (cur c)
      then (blank, advance 1 c)
      else if cur c == b'#'
      then lex_comment c (skip_while not_newline c)
      else if cur c == b'/' && peek c 1 == b'/'
      then lex_comment c (skip_while not_newline (advance 2 c))
      else if cur c == b'/' && peek c 1 == b'*'
      then lex_comment c (scan_at block_body tt (advance 2 c)).1
      else lex_operator prev c

-- What `tokenize` returns and what it leaves in its sinks. `fatal` is a call of `fatal_error`, which
-- exits; `out_of_fuel` is no outcome of the source.
pub record Lexed : Type 0 where
  pub tokens : List Token
  pub comments : List Token
  pub errors : List LexError

pub data Outcome : Type 0 where
  lexed : Lexed → Outcome
  fatal : LexError → Outcome
  out_of_fuel : Outcome

-- A token, or a comment, in front of what the rest of the loop gives.
unfoldable pub with_token : Token → Outcome → Outcome
with_token t (lexed r) = lexed (record r { tokens = t ∷ r.tokens })
with_token t (fatal e) = fatal e
with_token t out_of_fuel = out_of_fuel

unfoldable pub with_comment : Token → Outcome → Outcome
with_comment t (lexed r) = lexed (record r { comments = t ∷ r.comments })
with_comment t (fatal e) = fatal e
with_comment t out_of_fuel = out_of_fuel

abbrev pub start_cursor : Bytes → Cursor
start_cursor src = record { place = record { line = 1; col = 1 }; rest = src }

-- `collects` says whether the caller gave a sink for errors.
module _ (filename : Bytes) (collects : Bool) where
  unfoldable pub at_error : LexMessage → Position → Cursor → Outcome
  at_error message place end =
      let error : LexError = record {
        filename = filename;
        line = place.line;
        col = place.col;
        message = message;
      } in
      if collects
      then lexed (record {
        tokens = make_token filename TokenKind.eof [] end ∷ [];
        comments = [];
        errors = error ∷ [];
      })
      else fatal error

  unfoldable pub at_end : Cursor → Outcome
  at_end c =
      lexed (record {
        tokens = make_token filename TokenKind.eof [] c ∷ [];
        comments = [];
        errors = [];
      })

  -- What the loop does with a piece; `next` is the loop from behind it, given the last token.
  unfoldable pub proceed :
      Option Token → (Option Token → Cursor → Outcome) → Piece × Cursor → Outcome
  proceed prev next (blank, end) = next prev end
  proceed prev next (comment t, end) = with_comment t (next prev end)
  proceed prev next (token t, end) = with_token t (next (some t) end)
  proceed prev next (broken message place, end) = at_error message place end

  unfoldable pub lex_loop : ℕ → Option Token → Cursor → Outcome
  lex_loop zero prev c = if cur c == 0 then at_end c else out_of_fuel
  lex_loop (suc fuel) prev c =
      let more = proceed prev (lex_loop fuel) (lex_piece filename prev c) in
      if cur c == 0 then at_end c else more

  -- Each round takes a byte at least.
  unfoldable pub tokenize : Bytes → Outcome
  tokenize src = lex_loop (length src) none (start_cursor src)
