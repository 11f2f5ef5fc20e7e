-- ===== src/Lexer/Cover/Rounds.antt =====
-- parser/lexer.cpp: a whole round of the main loop, from its first byte.
use nari.Prelude.{
  ℕ, ◌≡◌, ◌≢◌, refl, sym, ap, ◌∙◌, arith, true, false, [], ◌∷◌, Option, none, some, length, ◌==◌,
  ==→eq, ◌&&◌, ◌||◌, Bool-cases, Option-cases, inl, inr,
}
use nari.Bytecode.Chunk.{Bytes}
use nari.Lexer.Token.{TokenKind, Token}
use nari.Lexer.Chars.{is_blank, is_digit, is_identifier_start}
use nari.Lexer.Cursor.{Cursor, advance, advance_from, cur, peek, skip_while}
use nari.Lexer.Operators.{Operator, operators, first_match}
use nari.Lexer.Literals.{token, make_token}
use nari.Lexer.Tokenize.{
  prev_can_end_expr, block_body, not_newline, starts_number, lex_comment, lex_literal, lex_slash,
  lex_operator, lex_piece,
}
use nari.Lexer.Ahead.{
  Ahead, IsAhead, IsAhead-refl, IsAhead-trans, advance-IsAhead, advance-Ahead, scan_at-IsAhead,
  skip_while-IsAhead, skip_while-first,
}
use nari.Lexer.Cover.{IsLexeme}
use nari.Lexer.Cover.Pieces.{
  IsPiece, IsPiece-if, is_sound, operators_sound, first_match_sound, starts_with-split, made,
  sliced, lex_string-IsPiece, lex_interp-IsPiece, lex_regex-IsPiece, lex_number-IsPiece,
  lex_identifier-IsPiece,
}

-- A dot is always an operator, so a number never starts with one.
first_match-dot : (rest : Bytes) → first_match operators (b'.' ∷ rest) ≢ none
unfolding first_match operators
first_match-dot rest e = ground arith

-- The token of an operator.
operator-IsLexeme :
    (filename : Bytes) (c : Cursor) (o : Operator)
    → first_match operators c.rest ≡ some o
    → IsLexeme filename c (advance (length o.text) c) (make_token filename o.kind o.text c)
operator-IsLexeme filename c o e =
    let (sound, starts) = first_match_sound operators c.rest o operators_sound e in
    go o.text o.kind sound (advance-Ahead c o.text _ (starts_with-split o.text c.rest starts))
  where
    go :
        (text : Bytes) (kind : TokenKind)
        → is_sound (record { text = text; kind = kind }) ≡ true
        → Ahead c (advance (length text) c) text
        → IsLexeme filename c (advance (length text) c) (make_token filename kind text c)
    go [] kind sound ahead = absurd (ground arith)
    go (b ∷ text) kind sound ahead = record {
      first = b;
      others = text;
      ahead = ahead;
      copied = λ _. refl;
      fits = ground arith;
      at_line = refl;
      at_col = refl;
      of_file = refl;
    }

module _ (filename : Bytes) (c : Cursor) (b : ℕ) (rest : Bytes) (at_b : c.rest ≡ b ∷ rest)
    (z : (b == 0) ≡ false) where
  cur-b : cur c ≡ b
  cur-b = rw at_b

  lex_literal-IsPiece :
      first_match operators c.rest ≡ none → IsPiece filename c (lex_literal filename c)
  unfolding lex_literal
  lex_literal-IsPiece e =
      IsPiece-if filename c (cur c == b'"') _ _
        (λ q. lex_string-IsPiece filename c b rest at_b (rw cur-b at q))
        (λ _.
          IsPiece-if filename c (cur c == b'`') _ _
            (λ q. lex_interp-IsPiece filename c b rest at_b (rw cur-b at q))
            (λ _.
              IsPiece-if filename c (starts_number c) _ _
                (λ q. lex_number-IsPiece filename c b rest at_b z (digit q))
                (λ _.
                  IsPiece-if filename c (is_identifier_start (cur c)) _ _
                    (λ q. lex_identifier-IsPiece filename c b rest at_b (rw cur-b at q))
                    (λ _.
                      made filename c b rest at_b (advance 1 c) _ (IsAhead-refl _) refl refl refl
                        refl refl))))
    where
      digit : starts_number c ≡ true → is_digit b ≡ true
      digit q = elim (Bool-cases (b == b'.')) [
        | inl dot ↦ absurd (
            first_match-dot rest
              (sym (ap (first_match operators) (rw (==→eq b b'.' dot) at at_b)) ∙ e))
        | inr other ↦ ground (arith, cur-b)
      ]

  lex_slash-IsPiece :
      (prev : Option Token) → (b == b'/') ≡ true → IsPiece filename c (lex_slash filename prev c)
  unfolding lex_slash
  lex_slash-IsPiece prev q =
      IsPiece-if filename c (prev_can_end_expr prev) _ _
        (λ _. record {
          first = b;
          others = [];
          ahead = advance-Ahead c (b ∷ []) rest at_b;
          copied = λ _. ap (λ (k : ℕ). k ∷ []) (sym (==→eq b b'/' q));
          fits = q;
          at_line = refl;
          at_col = refl;
          of_file = refl;
        })
        (λ _. lex_regex-IsPiece filename c b rest at_b q)

  lex_operator-IsPiece : (prev : Option Token) → IsPiece filename c (lex_operator filename prev c)
  unfolding lex_operator
  lex_operator-IsPiece prev = elim (Option-cases (first_match operators c.rest)) [
    | inl e ↦
        rw (e, lex_operator)
          (IsPiece-if filename c (cur c == b'/') _ _ (λ q. lex_slash-IsPiece prev (rw cur-b at q))
            (λ _. lex_literal-IsPiece e))
    | inr (o, e) ↦ rw (e, lex_operator) (operator-IsLexeme filename c o e)
  ]

  comment-IsPiece :
      (end : Cursor)
      → IsAhead (advance 1 c) end
      → ((b == b'#') || (b == b'/')) ≡ true
      → IsPiece filename c (lex_comment filename c end)
  unfolding lex_comment
  comment-IsPiece end ahead q = (sliced filename c b rest at_b TokenKind.comment end ahead q, refl)

  -- `advance(2)` is behind the first byte.
  second : IsAhead (advance 1 c) (advance 2 c)
  unfolding advance_from
  second = rw at_b (advance-IsAhead 1 (advance 1 (record { place = c.place; rest = b ∷ rest })))

  pub lex_piece-IsPiece : (prev : Option Token) → IsPiece filename c (lex_piece filename prev c)
  unfolding lex_piece
  lex_piece-IsPiece prev =
      IsPiece-if filename c (is_blank (cur c)) _ _
        (λ q. (b, advance-Ahead c (b ∷ []) rest at_b, rw cur-b at q))
        (λ _.
          IsPiece-if filename c (cur c == b'#') _ _
            (λ q. comment-IsPiece _ (line q) (ground (arith, cur-b)))
            (λ _.
              IsPiece-if filename c (cur c == b'/' && peek c 1 == b'/') _ _
                (λ q.
                  comment-IsPiece _
                    (IsAhead-trans second (skip_while-IsAhead not_newline (advance 2 c)))
                    (ground (arith, cur-b)))
                (λ _.
                  IsPiece-if filename c (cur c == b'/' && peek c 1 == b'*') _ _
                    (λ q.
                      comment-IsPiece _
                        (IsAhead-trans second (scan_at-IsAhead block_body tt (advance 2 c)))
                        (ground (arith, cur-b)))
                    (λ _. lex_operator-IsPiece prev))))
    where
      line : (cur c == b'#') ≡ true → IsAhead (advance 1 c) (skip_while not_newline c)
      line q =
          rw (skip_while-first not_newline c b rest at_b z (ground (arith, cur-b)))
            (skip_while-IsAhead not_newline (advance 1 c))

-- A dot in front of a digit is a DOT token, so the case of `tokenize` for numbers that start with a dot
-- is never taken.
pub lex_operator-dot :
    (filename : Bytes) (prev : Option Token) (c : Cursor) (d : ℕ) (rest : Bytes)
    → c.rest ≡ b'.' ∷ d ∷ rest
    → is_digit d ≡ true
    → lex_operator filename prev c
      ≡ (token (make_token filename TokenKind.dot (b'.' ∷ []) c), advance 1 c)
unfolding lex_operator
lex_operator-dot filename prev c d rest e digit =
    let found : first_match operators c.rest
        ≡ some (record { text = b'.' ∷ []; kind = TokenKind.dot }) =
      rw e (unfold first_match operators in ground arith) in
    rw (found, lex_operator)
