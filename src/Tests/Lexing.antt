-- ===== src/Tests/Lexing.antt =====
-- Tests of the lexer.
use nari.Prelude.{
  ℕ, ◌≡◌, ◌≢◌, ◌≤◌, ◌+◌, refl, arith, false, true, [], ◌∷◌, ◌++◌, codes, some, none, length, map,
  Option, All, Bool,
}
use nari.Bytecode.Chunk.{Bytes}
use nari.Lexer.Token.{TokenKind, Token}
use nari.Lexer.Chars.{trim_ascii}
use nari.Lexer.Cursor.{Cursor, advance, advance_from, scan, while_body}
use nari.Lexer.Operators.{Operator, operators, starts_with, first_match}
use nari.Lexer.FormatColon.{find_top_level_format_colon}
use nari.Lexer.Literals.{
  token, make_token, lex_string, lex_interp, lex_identifier, lex_number, lex_decimal, split_format,
}
use nari.Lexer.Tokenize.{
  Outcome, lexed, lex_operator, lex_literal, lex_piece, with_token, proceed, at_end, lex_loop,
  start_cursor, tokenize,
}
use nari.Lexer.Ahead.{bump_all}
use nari.Lexer.Cover.Rounds.{lex_operator-dot}
use nari.Lexer.Cover.Stream.{Explains, tokenize-Explains}
use nari.Lexer.Munch.{IsLongest, first_match-IsLongest}
use nari.Lexer.Quoted.{quote, lex_string-quote}
use nari.Lexer.Parts.{lex_interp_parts}
use nari.Lexer.Trim.{AllSpace, IsTrimmed, trim_ascii-IsTrimmed}

abbrev sample : Bytes
sample = codes "x = .5 `a{v:.2f}` /[/]x/g\n\"q\\n\" // c"

-- The kinds of the tokens, in order.
abbrev kinds : Outcome → Option (nari.Prelude.List TokenKind)
kinds (lexed r) = some (map (λ (t : Token). t.kind) r.tokens)
kinds _ = none

dot_kinds :
    kinds (tokenize [] true (codes "a= .5"))
    ≡ some
        (TokenKind.ident ∷ TokenKind.equal ∷ TokenKind.dot ∷ TokenKind.number ∷ TokenKind.eof ∷ [])
unfolding tokenize lex_loop proceed lex_piece lex_operator first_match operators lex_literal
    lex_identifier with_token scan advance_from while_body lex_number lex_decimal at_end
dot_kinds = refl

tokenize-Explains_example : Explains [] true (start_cursor sample) (tokenize [] true sample)
tokenize-Explains_example = tokenize-Explains [] true sample

lex_operator-dot_example : lex_operator [] none (start_cursor (codes ".5")) ≡ (
  token (make_token [] TokenKind.dot (codes ".") (start_cursor (codes ".5"))),
  advance 1 (start_cursor (codes ".5")),
)
lex_operator-dot_example = lex_operator-dot [] none (start_cursor (codes ".5")) b'5' [] refl refl

abbrev shift_assign : Operator
shift_assign = record { text = codes "<<="; kind = TokenKind.lshifteq }

takes_shift_assign : first_match operators (codes "<<=x") ≡ some shift_assign
unfolding first_match operators
takes_shift_assign = refl

first_match-IsLongest_example :
    (starts_with (codes "<<=") (codes "<<=x") ≡ true)
    × All (IsLongest shift_assign (codes "<<=x")) operators
first_match-IsLongest_example = first_match-IsLongest (codes "<<=x") shift_assign takes_shift_assign

lex_string-quote_example : lex_string [] (start_cursor (quote (codes "a\n\"") ++ codes " b")) ≡ (
  token (
      make_token [] TokenKind.string
        (codes "a\n\"")
        (start_cursor (quote (codes "a\n\"") ++ codes " b"))),
  record { place = bump_all (start_cursor []).place (quote (codes "a\n\"")); rest = codes " b" },
)
lex_string-quote_example =
    lex_string-quote [] (codes "a\n\"") (codes " b") (start_cursor []).place
      (omega arith, (omega arith, (omega arith, tt)))

abbrev greeting : Cursor
greeting = start_cursor (codes "`a{v:.2f}`")

abbrev greeting_token : Token
greeting_token = record (make_token [] TokenKind.interp_string [] greeting) {
  interp_parts = codes "a" ∷ [] ∷ [];
  interp_exprs = codes "v" ∷ [];
  interp_formats = codes ".2f" ∷ [];
}

greeting_lexed : lex_interp [] greeting ≡ (token greeting_token, advance 10 greeting)
unfolding lex_interp advance_from scan split_format find_top_level_format_colon trim_ascii
greeting_lexed = refl

lex_interp_parts_example :
    (length greeting_token.interp_parts ≡ length greeting_token.interp_exprs + 1)
    × (length greeting_token.interp_formats ≡ length greeting_token.interp_exprs)
lex_interp_parts_example =
    lex_interp_parts [] greeting (advance 10 greeting) greeting_token greeting_lexed

trim_ascii-IsTrimmed_example :
    (front : Bytes) × (back : Bytes) × (codes " v " ≡ front ++ (trim_ascii (codes " v ") ++ back))
    × AllSpace front
    × AllSpace back
    × IsTrimmed (trim_ascii (codes " v "))
trim_ascii-IsTrimmed_example = trim_ascii-IsTrimmed (codes " v ")
