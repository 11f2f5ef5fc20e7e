-- ===== src/Lexer/Token.antt =====
-- parser/token.h and parser/lexer.h: tokens, and errors of the lexer.
use nari.Prelude.{ℕ, List}
use nari.Bytecode.Chunk.{Bytes}

pub data TokenKind : Type 0 where
  eof ident number string interp_string lparen rparen : TokenKind
  lbrace rbrace lbracket rbracket comma equal semicolon : TokenKind
  colon coloncolon dot ellipsis question questiondot at : TokenKind
  plus minus star slash bang lt gt : TokenKind
  le ge eqeq neq strict_eq strict_neq andand : TokenKind
  oror percent plusplus minusminus pluseq minuseq stareq : TokenKind
  slasheq percenteq exponent nullishcoalesce arrow fatarrow ampersand : TokenKind
  pipe caret tilde lshift rshift ampeq pipeeq : TokenKind
  careteq lshifteq rshifteq regex comment unknown : TokenKind

pub record Token : Type 0 where
  pub kind : TokenKind
  pub text : Bytes
  pub line : ℕ
  pub col : ℕ
  pub filename : Bytes
  pub interp_parts : List Bytes
  pub interp_exprs : List Bytes
  pub interp_formats : List Bytes

-- The messages of the lexer.
pub data LexMessage : Type 0 where
  unterminated_string unterminated_interp bad_hex : LexMessage

pub record LexError : Type 0 where
  pub filename : Bytes
  pub line : ℕ
  pub col : ℕ
  pub message : LexMessage
