-- ===== src/Lexer/Cover/Pieces.antt =====
-- parser/lexer.cpp: each round of the main loop makes a lexeme of what it moves over.
use nari.Prelude.{
  ℕ, ◌≡◌, refl, ap, arith, Bool, true, false, List, [], ◌∷◌, ◌++◌, some, length, ◌==◌, ==→eq, not,
  ◌&&◌, if◌then◌else◌, Bool-cases, inl, inr, subst, drop,
}
use nari.Bytecode.Chunk.{Bytes}
use nari.Lexer.Token.{TokenKind, Token}
use nari.Lexer.Chars.{is_blank, is_digit, is_xdigit, is_identifier_start, is_identifier_continue}
use nari.Lexer.Cursor.{Cursor, advance, advance_from, cur, slice, scan_at, skip_while}
use nari.Lexer.Operators.{Operator, operators, starts_with, first_match}
use nari.Lexer.Literals.{
  Piece, blank, comment, token, broken, make_token, string_body, lex_string, interp_start,
  interp_body, interp_token, lex_interp, RegexScan, regex_body, is_regex_flag, lex_flags, lex_regex,
  starts_hex, lex_hex, lex_decimal, lex_number, lex_identifier,
}
use nari.Lexer.Ahead.{
  Ahead, IsAhead, IsAhead-trans, advance-IsAhead, Ahead-first, scan_at-IsAhead, skip_while-IsAhead,
  skip_while-first, slice-Ahead,
}
use nari.Lexer.Cover.{is_copied, fits_first, IsLexeme}

-- What a round leaves behind: a piece, and the cursor.
abbrev pub IsPiece : Bytes → Cursor → Piece × Cursor → Type 0
IsPiece filename c (blank, c') = (b : ℕ) × Ahead c c' (b ∷ []) × (is_blank b ≡ true)
IsPiece filename c (comment t, c') = IsLexeme filename c c' t × (t.kind ≡ TokenKind.comment)
IsPiece filename c (token t, c') = IsLexeme filename c c' t
IsPiece filename c (broken message place, c') = (place ≡ c.place) × IsAhead c c'

pub IsPiece-if :
    (filename : Bytes) (c : Cursor) (b : Bool) (x y : Piece × Cursor)
    → (b ≡ true → IsPiece filename c x)
    → (b ≡ false → IsPiece filename c y)
    → IsPiece filename c (if b then x else y)
IsPiece-if filename c true x y h k = h refl
IsPiece-if filename c false x y h k = k refl

-- The first byte of an operator, and the kinds of the table.
abbrev pub first_or : Bytes → ℕ
first_or [] = 0
first_or (b ∷ text) = b

abbrev pub is_sound : Operator → Bool
is_sound o = is_copied o.kind && (fits_first o.kind (first_or o.text) && not (first_or o.text == 0))

abbrev pub all_sound : List Operator → Bool
all_sound [] = true
all_sound (o ∷ os) = is_sound o && all_sound os

pub operators_sound : all_sound operators ≡ true
unfolding operators
operators_sound = refl

pub starts_with-split :
    (text rest : Bytes) → starts_with text rest ≡ true → rest ≡ text ++ drop (length text) rest
starts_with-split [] rest h = refl
starts_with-split (b ∷ text) [] h = absurd (cc)
starts_with-split (b ∷ text) (c ∷ rest) h =
    let same : c ≡ b = ==→eq c b (ground arith) in
    rw same (ap (λ (r : Bytes). b ∷ r) (starts_with-split text rest (ground arith)))

pub first_match_sound :
    (os : List Operator) (rest : Bytes) (o : Operator)
    → all_sound os ≡ true
    → first_match os rest ≡ some o
    → (is_sound o ≡ true) × (starts_with o.text rest ≡ true)
unfolding first_match
first_match_sound [] rest o h e = absurd (cc)
first_match_sound (x ∷ os) rest o h e = elim (Bool-cases (starts_with x.text rest)) [
  | inl yes' ↦
      let same : some x ≡ some o = rw yes' at e in
      let is_o : x ≡ o = cc in
      subst (λ (z : Operator). (is_sound z ≡ true) × (starts_with z.text rest ≡ true)) is_o
        (ground arith, yes')
  | inr no' ↦ first_match_sound os rest o (ground arith) (rw no' at e)
]

module _ (filename : Bytes) (c : Cursor) (b : ℕ) (rest : Bytes) (at_b : c.rest ≡ b ∷ rest) where
  -- A token whose text is not copied.
  pub made :
      (c' : Cursor) (t : Token)
      → IsAhead (advance 1 c) c'
      → is_copied t.kind ≡ false
      → fits_first t.kind b ≡ true
      → t.line ≡ c.place.line
      → t.col ≡ c.place.col
      → t.filename ≡ filename
      → IsLexeme filename c c' t
  made c' t ahead raw fits line col file =
      let (others, h) = Ahead-first c c' b rest at_b ahead in
      record {
        first = b;
        others = others;
        ahead = h;
        copied = λ k. absurd (cc);
        fits = fits;
        at_line = line;
        at_col = col;
        of_file = file;
      }

  -- A token whose text is the slice.
  pub sliced :
      (kind : TokenKind) (c' : Cursor)
      → IsAhead (advance 1 c) c'
      → fits_first kind b ≡ true
      → IsLexeme filename c c' (make_token filename kind (slice c c') c)
  sliced kind c' ahead fits =
      let (others, h) = Ahead-first c c' b rest at_b ahead in
      record {
        first = b;
        others = others;
        ahead = h;
        copied = λ _. slice-Ahead h;
        fits = fits;
        at_line = refl;
        at_col = refl;
        of_file = refl;
      }

  pub behind : (c' : Cursor) → IsAhead (advance 1 c) c' → IsAhead c c'
  behind c' h = IsAhead-trans (advance-IsAhead 1 c) h

  pub lex_string-IsPiece : (b == b'"') ≡ true → IsPiece filename c (lex_string filename c)
  unfolding lex_string
  lex_string-IsPiece q =
      let (out, end) = scan_at string_body [] (advance 1 c) in
      let moved = scan_at-IsAhead string_body [] (advance 1 c) in
      IsPiece-if filename c (cur end == b'"') _ _
        (λ _.
          made (advance 1 end) _ (IsAhead-trans moved (advance-IsAhead 1 end)) refl q refl refl
            refl)
        (λ _. (refl, behind end moved))

  pub lex_interp-IsPiece : (b == b'`') ≡ true → IsPiece filename c (lex_interp filename c)
  unfolding lex_interp interp_token
  lex_interp-IsPiece q =
      let (s, end) = scan_at interp_body interp_start (advance 1 c) in
      let moved = scan_at-IsAhead interp_body interp_start (advance 1 c) in
      IsPiece-if filename c (cur end == b'`') _ _
        (λ _.
          made (advance 1 end) _ (IsAhead-trans moved (advance-IsAhead 1 end)) refl q refl refl
            refl)
        (λ _. (refl, behind end moved))

  pub lex_regex-IsPiece : (b == b'/') ≡ true → IsPiece filename c (lex_regex filename c)
  unfolding lex_regex lex_flags
  lex_regex-IsPiece q =
      let start : RegexScan = record { pattern = []; in_char_class = false; regex_ok = false } in
      let (s, end) = scan_at regex_body start (advance 1 c) in
      let moved = scan_at-IsAhead regex_body start (advance 1 c) in
      IsPiece-if filename c s.regex_ok _ _
        (λ _.
          made (skip_while is_regex_flag end) _
            (IsAhead-trans moved (skip_while-IsAhead is_regex_flag end)) refl q refl refl refl)
        (λ _. made end _ moved refl refl refl refl refl)

  lex_hex-IsPiece : is_digit b ≡ true → IsPiece filename c (lex_hex filename c)
  unfolding lex_hex advance_from
  lex_hex-IsPiece q =
      let start = advance 2 c in
      let moved : IsAhead (advance 1 c) (advance 2 c) =
        rw at_b (advance-IsAhead 1 (advance 1 (record { place = c.place; rest = b ∷ rest }))) in
      let skipped = IsAhead-trans moved (skip_while-IsAhead is_xdigit start) in
      IsPiece-if filename c (length (skip_while is_xdigit start).rest == length start.rest) _ _
        (λ _. (refl, behind (skip_while is_xdigit start) skipped))
        (λ _. sliced TokenKind.number (skip_while is_xdigit start) skipped q)

  lex_decimal-IsPiece :
      (b == 0) ≡ false → is_digit b ≡ true → IsPiece filename c (lex_decimal filename c)
  unfolding lex_decimal
  lex_decimal-IsPiece z q =
      let whole = skip_while is_digit c in
      let moved : IsAhead (advance 1 c) whole =
        rw (skip_while-first is_digit c b rest at_b z q)
          (skip_while-IsAhead is_digit (advance 1 c)) in
      sliced TokenKind.number _
        (elim (Bool-cases (cur whole == b'.')) [
          | inl dot ↦ rw dot (
              IsAhead-trans moved (
                IsAhead-trans (advance-IsAhead 1 whole)
                  (skip_while-IsAhead is_digit (advance 1 whole))))
          | inr other ↦ rw other moved
        ])
        q

  pub lex_number-IsPiece :
      (b == 0) ≡ false → is_digit b ≡ true → IsPiece filename c (lex_number filename c)
  unfolding lex_number
  lex_number-IsPiece z q =
      IsPiece-if filename c (starts_hex c) _ _ (λ _. lex_hex-IsPiece q)
        (λ _. lex_decimal-IsPiece z q)

  pub lex_identifier-IsPiece :
      is_identifier_start b ≡ true → IsPiece filename c (lex_identifier filename c)
  unfolding lex_identifier
  lex_identifier-IsPiece q =
      sliced TokenKind.ident _ (skip_while-IsAhead is_identifier_continue (advance 1 c)) q
