-- ===== src/Lexer/Quoted.antt =====
-- parser/lexer.cpp: string literals. `quote` is how a text is written as a literal.
use nari.Prelude.{
  ℕ, ◌≡◌, refl, ap, ◌∙◌, arith, Bool, [], ◌∷◌, ◌++◌, append_assoc, append-nil, All, ◌≢◌, ◌==◌,
  ==→eq, ◌||◌, if◌then◌else◌, Bool-cases, inl, inr,
}
use nari.Bytecode.Chunk.{Bytes}
use nari.Lexer.Token.{TokenKind}
use nari.Lexer.Cursor.{Position, bump, advance_from, Move, scan}
use nari.Lexer.Literals.{token, make_token, unescape, string_body, lex_string}
use nari.Lexer.Ahead.{bump_all, bump_all-append}
use nari.Lexer.Scan.{scan-one, scan-two, scan-halt}

-- The letter that stands for a byte behind a backslash, where one is needed.
abbrev pub needs_escape : ℕ → Bool
needs_escape c = c == b'"' || c == b'\\'

abbrev pub escape_byte : ℕ → Bytes
escape_byte c =
    if c == 10
    then b'\\' ∷ b'n' ∷ []
    else if c == 13
    then b'\\' ∷ b'r' ∷ []
    else if c == 9
    then b'\\' ∷ b't' ∷ []
    else if needs_escape c
    then b'\\' ∷ c ∷ []
    else c ∷ []

unfoldable pub escape_all : Bytes → Bytes
escape_all [] = []
escape_all (c ∷ s) = escape_byte c ++ escape_all s

abbrev pub quote : Bytes → Bytes
quote s = b'"' ∷ (escape_all s ++ b'"' ∷ [])

-- The loop takes what stands for one byte.
scan-escape_byte :
    (c : ℕ) (out : Bytes) (p : Position) (rest : Bytes)
    → c ≢ 0
    → scan string_body out p (escape_byte c ++ rest)
      ≡ scan string_body (out ++ c ∷ []) (bump_all p (escape_byte c)) rest
unfolding string_body unescape
scan-escape_byte c out p rest z = elim (Bool-cases (c == 10)) [
  | inl e ↦ rw (==→eq c 10 e) (scan-two string_body out _ p b'\\' b'n' rest refl)
  | inr h1 ↦ elim (Bool-cases (c == 13)) [
    | inl e ↦ rw (==→eq c 13 e) (scan-two string_body out _ p b'\\' b'r' rest refl)
    | inr h2 ↦ elim (Bool-cases (c == 9)) [
      | inl e ↦ rw (==→eq c 9 e) (scan-two string_body out _ p b'\\' b't' rest refl)
      | inr h3 ↦ elim (Bool-cases (needs_escape c)) [
        | inl e ↦
            rw (h1, h2, h3, e)
              (scan-two string_body out (out ++ c ∷ []) p b'\\' c rest (ground arith))
        | inr e ↦
            rw (h1, h2, h3, e)
              (scan-one string_body out (out ++ c ∷ []) p c rest (λ x. ground arith))
      ]
    ]
  ]
]

scan-escape_all :
    (s out : Bytes) (p : Position) (rest : Bytes)
    → All (λ c. c ≢ 0) s
    → scan string_body out p (escape_all s ++ b'"' ∷ rest)
      ≡ (out ++ s, record { place = bump_all p (escape_all s); rest = b'"' ∷ rest })
unfolding escape_all
scan-escape_all [] out p rest h =
    scan-halt string_body out out p b'"' rest (λ e. halts out e) ∙ rw (append-nil out)
  where
    halts : (out : Bytes) (e : ℕ) → string_body out b'"' e ≡ Move.halt 0 out
    halts out e = unfold string_body in refl
scan-escape_all (c ∷ s) out p rest h =
    ap (scan string_body out p) (append_assoc (escape_byte c) (escape_all s) (b'"' ∷ rest))
    ∙ scan-escape_byte c out p (escape_all s ++ b'"' ∷ rest) h.0
    ∙ scan-escape_all s (out ++ c ∷ []) (bump_all p (escape_byte c)) rest h.1
    ∙ rw (append_assoc out (c ∷ []) s, bump_all-append p (escape_byte c) (escape_all s))

-- A text without NUL, written as a literal, is read back as the text of a STRING token at the place of
-- the literal, and the cursor moves behind the literal.
pub lex_string-quote :
    (filename s rest : Bytes) (place : Position)
    → All (λ c. c ≢ 0) s
    → lex_string filename (record { place = place; rest = quote s ++ rest }) ≡ (
      token (
          make_token filename TokenKind.string s
            (record { place = place; rest = quote s ++ rest })),
      record { place = bump_all place (quote s); rest = rest },
    )
unfolding lex_string advance_from
lex_string-quote filename s rest place h =
    let text = append_assoc (escape_all s) (b'"' ∷ []) rest in
    let scanned = scan-escape_all s [] (bump place b'"') rest h in
    rw (text, scanned, bump_all-append (bump place b'"') (escape_all s) (b'"' ∷ []))
