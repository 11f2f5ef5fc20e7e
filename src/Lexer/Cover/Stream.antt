-- ===== src/Lexer/Cover/Stream.antt =====
-- parser/lexer.cpp: `tokenize` as a whole.
use nari.Prelude.{
  ℕ, zero, suc, ◌≤◌, ◌<◌, ◌≡◌, refl, ap, arith, Bool, true, false, List, [], ◌∷◌, ◌++◌, Option,
  none, some, length, length-append, ◌==◌, ==→eq, Bool-cases, inl, inr, List-cases,
}
use nari.Bytecode.Chunk.{Bytes}
use nari.Lexer.Token.{TokenKind, Token, LexMessage, LexError}
use nari.Lexer.Cursor.{Position, Cursor, cur}
use nari.Lexer.Literals.{Piece, blank, comment, token, broken, make_token}
use nari.Lexer.Tokenize.{
  lex_piece, Lexed, Outcome, lexed, fatal, out_of_fuel, with_token, with_comment, at_error, at_end,
  proceed, lex_loop, start_cursor, tokenize,
}
use nari.Lexer.Ahead.{Ahead, IsAhead}
use nari.Lexer.Cover.{IsLexeme, Covers, done, skip, remark, lexeme, Ends, clean, broken}
use nari.Lexer.Cover.Pieces.{IsPiece}
use nari.Lexer.Cover.Rounds.{lex_piece-IsPiece}

-- From cursor `c` on: lexemes up to `stop`, the EOF token at `last`, and how the stream ends.
pub record IsStream (filename : Bytes) (c : Cursor) (r : Lexed) : Type 0 where
  pub init : List Token
  pub stop : Cursor
  pub last : Cursor
  pub tokens : r.tokens ≡ init ++ make_token filename TokenKind.eof [] last ∷ []
  pub covers : Covers filename stop c init r.comments
  pub ends : Ends stop last r.errors

-- A fatal error stands at the place where lexemes end, and is for a caller without a sink.
pub record IsFatal (filename : Bytes) (collects : Bool) (c : Cursor) (e : LexError) : Type 0 where
  pub init : List Token
  pub comments : List Token
  pub stop : Cursor
  pub covers : Covers filename stop c init comments
  pub at_line : e.line ≡ stop.place.line
  pub at_col : e.col ≡ stop.place.col
  pub no_sink : collects ≡ false

-- What the outcome says of the source from cursor `c` on.
abbrev pub Explains : Bytes → Bool → Cursor → Outcome → Type 0
Explains filename collects c (lexed r) = IsStream filename c r
Explains filename collects c (fatal e) = IsFatal filename collects c e
Explains filename collects c out_of_fuel = ⊥

shorter :
    {c c' : Cursor} {b : ℕ} {text : Bytes} → Ahead c c' (b ∷ text) → length c'.rest < length c.rest
shorter {c' = c'} {b = b} {text = text} a =
    omega (arith, ap length a.split, length-append text c'.rest)

module _ (filename : Bytes) (collects : Bool) where
  with_token-Explains :
      {c c' : Cursor} {t : Token} (o : Outcome)
      → IsLexeme filename c c' t
      → Explains filename collects c' o
      → Explains filename collects c (with_token t o)
  unfolding with_token
  with_token-Explains {t = t} (lexed r) l h = record {
    init = t ∷ h.init;
    stop = h.stop;
    last = h.last;
    tokens = ap (λ (ts : List Token). t ∷ ts) h.tokens;
    covers = lexeme l h.covers;
    ends = h.ends;
  }
  with_token-Explains {t = t} (fatal e) l h = record {
    init = t ∷ h.init;
    comments = h.comments;
    stop = h.stop;
    covers = lexeme l h.covers;
    at_line = h.at_line;
    at_col = h.at_col;
    no_sink = h.no_sink;
  }
  with_token-Explains out_of_fuel l h = absurd h

  with_comment-Explains :
      {c c' : Cursor} {t : Token} (o : Outcome)
      → IsLexeme filename c c' t
      → t.kind ≡ TokenKind.comment
      → Explains filename collects c' o
      → Explains filename collects c (with_comment t o)
  unfolding with_comment
  with_comment-Explains {t = t} (lexed r) l k h = record {
    init = h.init;
    stop = h.stop;
    last = h.last;
    tokens = h.tokens;
    covers = remark l k h.covers;
    ends = h.ends;
  }
  with_comment-Explains {t = t} (fatal e) l k h = record {
    init = h.init;
    comments = t ∷ h.comments;
    stop = h.stop;
    covers = remark l k h.covers;
    at_line = h.at_line;
    at_col = h.at_col;
    no_sink = h.no_sink;
  }
  with_comment-Explains out_of_fuel l k h = absurd h

  blank-Explains :
      {c c' : Cursor} {b : ℕ} (o : Outcome)
      → Ahead c c' (b ∷ [])
      → nari.Lexer.Chars.is_blank b ≡ true
      → Explains filename collects c' o
      → Explains filename collects c o
  blank-Explains (lexed r) a k h = record {
    init = h.init;
    stop = h.stop;
    last = h.last;
    tokens = h.tokens;
    covers = skip a k h.covers;
    ends = h.ends;
  }
  blank-Explains (fatal e) a k h = record {
    init = h.init;
    comments = h.comments;
    stop = h.stop;
    covers = skip a k h.covers;
    at_line = h.at_line;
    at_col = h.at_col;
    no_sink = h.no_sink;
  }
  blank-Explains out_of_fuel a k h = absurd h

  at_error-Explains :
      (message : LexMessage) (place : Position) (c end : Cursor)
      → place ≡ c.place
      → IsAhead c end
      → Explains filename collects c (at_error filename collects message place end)
  unfolding at_error
  at_error-Explains message place c end same ahead = elim (Bool-cases collects) [
    | inl sink ↦
        rw (sink, at_error)
          (record {
            init = [];
            stop = c;
            last = end;
            tokens = refl;
            covers = done;
            ends = Ends.broken ahead (rw same refl) (rw same refl);
          })
    | inr none' ↦
        rw (none', at_error)
          (record {
            init = [];
            comments = [];
            stop = c;
            covers = done;
            at_line = rw same refl;
            at_col = rw same refl;
            no_sink = refl;
          })
  ]

  at_end-Explains :
      (c : Cursor) → cur c ≡ 0 → Explains filename collects c (at_end filename collects c)
  unfolding at_end
  at_end-Explains c stops = record {
    init = [];
    stop = c;
    last = c;
    tokens = refl;
    covers = done;
    ends = clean stops;
  }

  -- After a piece the loop goes on behind it, with less of the source left.
  proceed-Explains :
      (prev : Option Token) (next : Option Token → Cursor → Outcome) (c : Cursor)
      (p : Piece × Cursor)
      → IsPiece filename c p
      → ((prev' : Option Token) (end : Cursor)
          → length end.rest < length c.rest
          → Explains filename collects end (next prev' end))
      → Explains filename collects c (proceed filename collects prev next p)
  unfolding proceed
  proceed-Explains prev next c (blank, end) (b, ahead, is_b) ih =
      blank-Explains (next prev end) ahead is_b (ih prev end (shorter ahead))
  proceed-Explains prev next c (comment t, end) (l, kind) ih =
      with_comment-Explains (next prev end) l kind (ih prev end (shorter l.ahead))
  proceed-Explains prev next c (token t, end) l ih =
      with_token-Explains (next (some t) end) l (ih (some t) end (shorter l.ahead))
  proceed-Explains prev next c (broken message place, end) (same, ahead) ih =
      at_error-Explains message place c end same ahead

  lex_loop-Explains :
      (fuel : ℕ) (prev : Option Token) (c : Cursor)
      → length c.rest ≤ fuel
      → Explains filename collects c (lex_loop filename collects fuel prev c)
  unfolding lex_loop
  lex_loop-Explains zero prev c h = elim (List-cases c.rest) [
    | inl e ↦
        let stops : cur c ≡ 0 = rw e in
        rw (ap (λ k. k == 0) stops, lex_loop) (at_end-Explains c stops)
    | inr (b, rest, e) ↦ absurd (omega (arith, ap length e))
  ]
  lex_loop-Explains (suc fuel) prev c h = elim (Bool-cases (cur c == 0)) [
    | inl e ↦ rw (e, lex_loop) (at_end-Explains c (==→eq (cur c) 0 e))
    | inr e ↦ elim (List-cases c.rest) [
      | inl empty ↦ absurd (cc (rw empty at e))
      | inr (b, rest, at_b) ↦
          rw (e, lex_loop)
            (proceed-Explains prev (lex_loop filename collects fuel) c (lex_piece filename prev c)
              (lex_piece-IsPiece filename c b rest at_b (rw at_b at e) prev)
              (λ prev' end less. lex_loop-Explains fuel prev' end (omega arith)))
    ]
  ]

-- Let `tokenize` run over a source. It returns; and the tokens but for the last, and the comments, are
-- lexemes of the source in its order, with only blanks between them, each with the line, the column
-- and the file at which it stands. They come to the end of the source or to a NUL, and the last token is
-- EOF there; or they come to a broken literal, for which there is one error, an EOF token behind it
-- where the caller has a sink, and a fatal error where it has none.
pub tokenize-Explains :
    (filename : Bytes) (collects : Bool) (src : Bytes)
    → Explains filename collects (start_cursor src) (tokenize filename collects src)
unfolding tokenize
tokenize-Explains filename collects src =
    lex_loop-Explains filename collects (length src) none (start_cursor src) (omega arith)
