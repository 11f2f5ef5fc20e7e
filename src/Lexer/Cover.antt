-- ===== src/Lexer/Cover.antt =====
-- parser/lexer.cpp: what a token stream says of the source. Read in order, the tokens and comments
-- are the source, with blanks between them.
pub mod Pieces
pub mod Rounds
pub mod Stream
use nari.Prelude.{ℕ, ◌≡◌, Bool, true, false, List, [], ◌∷◌, ◌++◌, ◌==◌, ◌||◌}
use nari.Bytecode.Chunk.{Bytes}
use nari.Lexer.Token.{TokenKind, Token, LexMessage, LexError}
use nari.Lexer.Chars.{is_blank, is_digit, is_identifier_start}
use nari.Lexer.Cursor.{Cursor, cur}
use nari.Lexer.Ahead.{Ahead, IsAhead}

-- The kinds whose text is their source, byte for byte.
abbrev pub is_copied : TokenKind → Bool
is_copied TokenKind.string = false
is_copied TokenKind.interp_string = false
is_copied TokenKind.regex = false
is_copied TokenKind.unknown = false
is_copied TokenKind.eof = false
is_copied _ = true

-- The first byte of the kinds that have one of their own.
abbrev pub fits_first : TokenKind → ℕ → Bool
fits_first TokenKind.ident b = is_identifier_start b
fits_first TokenKind.number b = is_digit b
fits_first TokenKind.string b = b == b'"'
fits_first TokenKind.interp_string b = b == b'`'
fits_first TokenKind.regex b = b == b'/'
fits_first TokenKind.slash b = b == b'/'
fits_first TokenKind.comment b = b == b'#' || b == b'/'
fits_first TokenKind.eof b = false
fits_first _ b = true

-- Token `t` stands in the source between two cursors.
pub record IsLexeme (filename : Bytes) (c c' : Cursor) (t : Token) : Type 0 where
  pub first : ℕ
  pub others : Bytes
  pub ahead : Ahead c c' (first ∷ others)
  pub copied : is_copied t.kind ≡ true → t.text ≡ first ∷ others
  pub fits : fits_first t.kind first ≡ true
  pub at_line : t.line ≡ c.place.line
  pub at_col : t.col ≡ c.place.col
  pub of_file : t.filename ≡ filename

-- The tokens and the comments between two cursors.
pub data Covers (filename : Bytes) (e : Cursor) : Cursor → List Token → List Token → Type 0 where
  done : Covers filename e e [] []
  skip :
      {c c' : Cursor} {ts cs : List Token} {b : ℕ}
      → Ahead c c' (b ∷ [])
      → is_blank b ≡ true
      → Covers filename e c' ts cs
      → Covers filename e c ts cs
  remark :
      {c c' : Cursor} {t : Token} {ts cs : List Token}
      → IsLexeme filename c c' t
      → t.kind ≡ TokenKind.comment
      → Covers filename e c' ts cs
      → Covers filename e c ts (t ∷ cs)
  lexeme :
      {c c' : Cursor} {t : Token} {ts cs : List Token}
      → IsLexeme filename c c' t
      → Covers filename e c' ts cs
      → Covers filename e c (t ∷ ts) cs

-- The stream ends at the end of the source or at a NUL, or else with one error, which has the place
-- where the broken literal starts.
pub data Ends (c : Cursor) : Cursor → List LexError → Type 0 where
  clean : cur c ≡ 0 → Ends c c []
  broken :
      {e : Cursor} {error : LexError}
      → IsAhead c e
      → error.line ≡ c.place.line
      → error.col ≡ c.place.col
      → Ends c e (error ∷ [])
