-- ===== src/Lexer/Parts.antt =====
-- parser/lexer.cpp: interpolated strings have one part more than expressions, and a format for each.
use nari.Prelude.{
  ℕ, ◌+◌, ◌≡◌, refl, ap, arith, Bool, true, false, List, [], ◌∷◌, ◌++◌, length, length-append, ◌==◌,
  Bool-cases, inl, inr, ltb, subst, ◌||◌, if◌then◌else◌,
}
use nari.Bytecode.Chunk.{Bytes}
use nari.Lexer.Token.{Token, LexMessage}
use nari.Lexer.Cursor.{Cursor, Position, advance, cur, scan_at}
use nari.Lexer.Literals.{
  Piece, token, broken, Interp, interp_start, split_format, unescape, next_depth, close_expr,
  push_part, open_expr, part_body, expr_body, interp_body, finish_interp, interp_token, lex_interp,
}
use nari.Lexer.Scan.{Leaves, Leaves-if, scan-keeps}

-- Inside an expression the part in front of it is already stored.
record IsBalanced (s : Interp) : Type 0 where
  parts : length s.parts ≡ length s.exprs + (if s.depth == 0 then 0 else 1)
  formats : length s.formats ≡ length s.exprs

length-snoc {ℓ} : {A : Type ℓ} (xs : List A) (x : A) → length (xs ++ x ∷ []) ≡ length xs + 1
length-snoc xs x = length-append xs (x ∷ [])

close_expr-IsBalanced :
    (s : Interp) → (s.depth == 0) ≡ false → IsBalanced s → IsBalanced (close_expr s)
unfolding close_expr
close_expr-IsBalanced s d h = record {
  parts = ground (arith, h.parts, d, length-snoc s.exprs (split_format s.expr).0);
  formats = ground (
    arith,
    h.formats,
    length-snoc s.exprs (split_format s.expr).0,
    length-snoc s.formats (split_format s.expr).1,
  );
}

open_expr-IsBalanced :
    (s : Interp) → (s.depth == 0) ≡ true → IsBalanced s → IsBalanced (open_expr s)
open_expr-IsBalanced s d h = record {
  parts = ground (arith, h.parts, d, length-snoc s.parts s.current_part);
  formats = h.formats;
}

part_body-IsBalanced :
    (s : Interp) (c e : ℕ)
    → (s.depth == 0) ≡ true
    → IsBalanced s
    → Leaves IsBalanced (part_body s c e)
unfolding part_body
part_body-IsBalanced s c e d h =
    let pushed : (x : ℕ) → IsBalanced (push_part s x) =
      λ x. record { parts = h.parts; formats = h.formats } in
    Leaves-if IsBalanced (c == 0 || c == b'`') _ _ (λ _. h)
      (λ _.
        Leaves-if IsBalanced (c == b'\\') _ _
          (λ _. Leaves-if IsBalanced (e == 0) _ _ (λ _. h) (λ _. pushed (unescape e)))
          (λ _.
            Leaves-if IsBalanced (c == b'{') _ _ (λ _. open_expr-IsBalanced s d h) (λ _. pushed c)))

expr_body-IsBalanced :
    (s : Interp) (c : ℕ) → (s.depth == 0) ≡ false → IsBalanced s → Leaves IsBalanced (expr_body s c)
unfolding expr_body
expr_body-IsBalanced s c d h =
    Leaves-if IsBalanced (c == 0) _ _ (λ _. h)
      (λ _.
        Leaves-if IsBalanced (ltb 0 (next_depth s.depth c)) _ _
          (λ more. record { parts = deeper (next_depth s.depth c) more; formats = h.formats })
          (λ _. close_expr-IsBalanced s d h))
  where
    deeper :
        (depth : ℕ)
        → ltb 0 depth ≡ true
        → length s.parts ≡ length s.exprs + (if depth == 0 then 0 else 1)
    deeper depth more = ground (arith, h.parts, d)

interp_body-IsBalanced :
    (s : Interp) (c e : ℕ) → IsBalanced s → Leaves IsBalanced (interp_body s c e)
unfolding interp_body
interp_body-IsBalanced s c e h =
    Leaves-if IsBalanced (s.depth == 0) _ _ (λ d. part_body-IsBalanced s c e d h)
      (λ d. expr_body-IsBalanced s c d h)

-- At the end there is the last part, too.
finish_interp-IsBalanced :
    (s : Interp)
    → IsBalanced s
    → (length (finish_interp s).parts ≡ length (finish_interp s).exprs + 1)
      × (length (finish_interp s).formats ≡ length (finish_interp s).exprs)
unfolding finish_interp
finish_interp-IsBalanced s h = elim (Bool-cases (s.depth == 0)) [
  | inl d ↦
      rw (d, finish_interp)
        (ground (arith, h.parts, d, length-snoc s.parts s.current_part), h.formats)
  | inr d ↦
      let closed = close_expr-IsBalanced s d h in
      rw (d, finish_interp) (last (close_expr s) refl closed, closed.formats)
]
  where
    last :
        (t : Interp)
        → t.depth ≡ 0
        → IsBalanced t
        → length (t.parts ++ t.current_part ∷ []) ≡ length t.exprs + 1
    last t z b = ground (arith, b.parts, z, length-snoc t.parts t.current_part)

-- The branch that a literal takes shows in its result.
closed_token :
    (b : Bool) (u t : Token) (x y z : Cursor) (m : LexMessage) (place : Position)
    → ◌≡◌ {A = Piece × Cursor} (if b then (token u, x) else (broken m place, y)) (token t, z)
    → u ≡ t
closed_token true u t x y z m place h = cc (ap (λ (r : Piece × Cursor). r.0) h)
closed_token false u t x y z m place h = absurd (cc (ap (λ (r : Piece × Cursor). r.0) h))

-- An interpolated string that is read as a token has one part more than it has expressions, and a
-- format, which may be empty, for each expression.
pub lex_interp_parts :
    (filename : Bytes) (c end : Cursor) (t : Token)
    → lex_interp filename c ≡ (token t, end)
    → (length t.interp_parts ≡ length t.interp_exprs + 1)
      × (length t.interp_formats ≡ length t.interp_exprs)
unfolding lex_interp interp_token
lex_interp_parts filename c end t h =
    let (s, stop) = scan_at interp_body interp_start (advance 1 c) in
    let start : IsBalanced interp_start = record { parts = refl; formats = refl } in
    let balanced : IsBalanced s =
      scan-keeps interp_body IsBalanced interp_body-IsBalanced interp_start (advance 1 c).place
        (advance 1 c).rest start in
    let (parts, formats) = finish_interp-IsBalanced s balanced in
    let same : interp_token filename (finish_interp s) c ≡ t =
      closed_token (cur stop == b'`') _ t _ _ end _ _ h in
    subst
      (λ (u : Token).
        (length u.interp_parts ≡ length u.interp_exprs + 1)
        × (length u.interp_formats ≡ length u.interp_exprs))
      same (parts, formats)
