-- ===== src/Lexer/Operators.antt =====
-- parser/lexer.cpp: the operators and punctuation, in the order in which `tokenize` tries them. `/`
-- alone is not among them, since it may start a regex; no entry behind its place starts with it.
use nari.Prelude.{
  Bool, true, false, List, [], ◌∷◌, ◌++◌, Option, none, some, ◌==◌, ◌&&◌, String, codes,
  if◌then◌else◌,
}
use nari.Bytecode.Chunk.{Bytes}
use nari.Lexer.Token.{TokenKind}

pub record Operator : Type 0 where
  pub text : Bytes
  pub kind : TokenKind

abbrev operator : String → TokenKind → Operator
operator s k = record { text = codes s; kind = k }

-- The operators of two and three bytes.
abbrev pub multi_char_operators : List Operator
multi_char_operators =
    operator "&&" TokenKind.andand
    ∷ operator "&=" TokenKind.ampeq
    ∷ operator "||" TokenKind.oror
    ∷ operator "|=" TokenKind.pipeeq
    ∷ operator "^=" TokenKind.careteq
    ∷ operator "===" TokenKind.strict_eq
    ∷ operator "==" TokenKind.eqeq
    ∷ operator "=>" TokenKind.fatarrow
    ∷ operator "!==" TokenKind.strict_neq
    ∷ operator "!=" TokenKind.neq
    ∷ operator "<<=" TokenKind.lshifteq
    ∷ operator "<<" TokenKind.lshift
    ∷ operator "<=" TokenKind.le
    ∷ operator ">>=" TokenKind.rshifteq
    ∷ operator ">>" TokenKind.rshift
    ∷ operator ">=" TokenKind.ge
    ∷ operator "++" TokenKind.plusplus
    ∷ operator "--" TokenKind.minusminus
    ∷ operator "->" TokenKind.arrow
    ∷ operator "+=" TokenKind.pluseq
    ∷ operator "-=" TokenKind.minuseq
    ∷ operator "**" TokenKind.exponent
    ∷ operator "*=" TokenKind.stareq
    ∷ operator "/=" TokenKind.slasheq
    ∷ operator "%=" TokenKind.percenteq
    ∷ operator "??" TokenKind.nullishcoalesce
    ∷ operator "?." TokenKind.questiondot
    ∷ operator "..." TokenKind.ellipsis
    ∷ []

-- From `(` to `*`, with `::` in front of `:`.
abbrev pub single_char_operators : List Operator
single_char_operators =
    operator "(" TokenKind.lparen
    ∷ operator ")" TokenKind.rparen
    ∷ operator "{" TokenKind.lbrace
    ∷ operator "}" TokenKind.rbrace
    ∷ operator "[" TokenKind.lbracket
    ∷ operator "]" TokenKind.rbracket
    ∷ operator "," TokenKind.comma
    ∷ operator ";" TokenKind.semicolon
    ∷ operator "::" TokenKind.coloncolon
    ∷ operator ":" TokenKind.colon
    ∷ operator "." TokenKind.dot
    ∷ operator "?" TokenKind.question
    ∷ operator "@" TokenKind.at
    ∷ operator "=" TokenKind.equal
    ∷ operator "+" TokenKind.plus
    ∷ operator "-" TokenKind.minus
    ∷ operator "*" TokenKind.star
    ∷ []

-- Those behind the case of `/`.
abbrev pub late_operators : List Operator
late_operators =
    operator "!" TokenKind.bang
    ∷ operator "<" TokenKind.lt
    ∷ operator ">" TokenKind.gt
    ∷ operator "%" TokenKind.percent
    ∷ operator "&" TokenKind.ampersand
    ∷ operator "|" TokenKind.pipe
    ∷ operator "^" TokenKind.caret
    ∷ operator "~" TokenKind.tilde
    ∷ []

unfoldable pub operators : List Operator
operators = multi_char_operators ++ (single_char_operators ++ late_operators)

-- `c == text[0] && peek() == text[1] && …`; past the end of the source `peek` gives NUL, which no
-- operator contains.
abbrev pub starts_with : Bytes → Bytes → Bool
starts_with [] rest = true
starts_with (b ∷ text) [] = false
starts_with (b ∷ text) (c ∷ rest) = c == b && starts_with text rest

unfoldable pub first_match : List Operator → Bytes → Option Operator
first_match [] rest = none
first_match (o ∷ more) rest = if starts_with o.text rest then some o else first_match more rest
