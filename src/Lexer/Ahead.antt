-- ===== src/Lexer/Ahead.antt =====
-- parser/lexer.cpp: moving on in the source. One cursor is ahead of another by a text when that text
-- stands between them, and the line and column have followed it.
use nari.Prelude.{
  ℕ, zero, suc, ◌-◌, ◌≡◌, refl, sym, ap, ◌∙◌, arith, Bool, true, false, [], ◌∷◌, ◌++◌, append_assoc,
  length, length-append, take-append, ◌==◌,
}
use nari.Bytecode.Chunk.{Bytes}
use nari.Lexer.Cursor.{
  Position, Cursor, bump, on_move, advance_from, advance, slice, Move, halt, one, two, scan,
  scan_at, while_body, skip_while,
}

abbrev pub bump_all : Position → Bytes → Position
bump_all p [] = p
bump_all p (c ∷ text) = bump_all (bump p c) text

pub bump_all-append : (p : Position) (s t : Bytes) → bump_all p (s ++ t) ≡ bump_all (bump_all p s) t
bump_all-append p [] t = refl
bump_all-append p (c ∷ s) t = bump_all-append (bump p c) s t

pub record Ahead (c c' : Cursor) (text : Bytes) : Type 0 where
  pub split : c.rest ≡ text ++ c'.rest
  pub follows : c'.place ≡ bump_all c.place text

abbrev pub IsAhead : Cursor → Cursor → Type 0
IsAhead c c' = (text : Bytes) × Ahead c c' text

pub IsAhead-refl : (c : Cursor) → IsAhead c c
IsAhead-refl c = ([], record { split = refl; follows = refl })

pub Ahead-trans : {a b c : Cursor} {s t : Bytes} → Ahead a b s → Ahead b c t → Ahead a c (s ++ t)
Ahead-trans {a} {b} {c} {s} {t} p q = record {
  split = p.split ∙ ap (λ (r : Bytes). s ++ r) q.split ∙ sym (append_assoc s t c.rest);
  follows =
      q.follows ∙ ap (λ (x : Position). bump_all x t) p.follows ∙ sym (bump_all-append a.place s t);
}

pub IsAhead-trans : {a b c : Cursor} → IsAhead a b → IsAhead b c → IsAhead a c
IsAhead-trans (s, p) (t, q) = (s ++ t, Ahead-trans p q)

-- One byte, then more.
pub Ahead-cons :
    (p : Position) (b : ℕ) (rest text : Bytes) (c : Cursor)
    → Ahead (record { place = bump p b; rest = rest }) c text
    → Ahead (record { place = p; rest = b ∷ rest }) c (b ∷ text)
Ahead-cons p b rest text c h = record {
  split = ap (λ (r : Bytes). b ∷ r) h.split;
  follows = h.follows;
}

IsAhead-cons :
    (p : Position) (b : ℕ) (rest : Bytes) (c : Cursor)
    → IsAhead (record { place = bump p b; rest = rest }) c
    → IsAhead (record { place = p; rest = b ∷ rest }) c
IsAhead-cons p b rest c (text, h) = (b ∷ text, Ahead-cons p b rest text c h)

advance_from-IsAhead :
    (n : ℕ) (p : Position) (rest : Bytes)
    → IsAhead (record { place = p; rest = rest }) (advance_from n p rest)
unfolding advance_from
advance_from-IsAhead zero p rest = IsAhead-refl _
advance_from-IsAhead (suc n) p [] = IsAhead-refl _
advance_from-IsAhead (suc n) p (b ∷ rest) =
    IsAhead-cons p b rest _ (advance_from-IsAhead n (bump p b) rest)

pub advance-IsAhead : (n : ℕ) (c : Cursor) → IsAhead c (advance n c)
advance-IsAhead n c = advance_from-IsAhead n c.place c.rest

advance_from-Ahead :
    (p : Position) (text rest : Bytes)
    → Ahead
        (record { place = p; rest = text ++ rest })
        (advance_from (length text) p (text ++ rest))
        text
unfolding advance_from
advance_from-Ahead p [] rest = record { split = refl; follows = refl }
advance_from-Ahead p (b ∷ text) rest =
    Ahead-cons p b (text ++ rest) text _ (advance_from-Ahead (bump p b) text rest)

pub advance-Ahead :
    (c : Cursor) (text rest : Bytes)
    → c.rest ≡ text ++ rest
    → Ahead c (advance (length text) c) text
advance-Ahead c text rest e = rw (← e) at (advance_from-Ahead c.place text rest)

-- What holds after each kind of move.
pub on_move_lem {ℓ} :
    {S : Type 0} (P : S × Cursor → Type ℓ) {halted : ℕ → Cursor} {go_one go_two : S → S × Cursor}
    → ((n : ℕ) (s : S) → P (s, halted n))
    → ((s : S) → P (go_one s))
    → ((s : S) → P (go_two s))
    → (m : Move S) → P (on_move halted go_one go_two m)
on_move_lem P h f g (halt n s) = h n s
on_move_lem P h f g (one s) = f s
on_move_lem P h f g (two s) = g s

-- A loop only moves on.
scan-IsAhead :
    {S : Type 0} (body : S → ℕ → ℕ → Move S) (s : S) (p : Position) (rest : Bytes)
    → IsAhead (record { place = p; rest = rest }) (scan body s p rest).1
unfolding scan
scan-IsAhead body s p [] = IsAhead-refl _
scan-IsAhead body s p (b ∷ []) =
    on_move_lem (λ r. IsAhead (record { place = p; rest = b ∷ [] }) r.1)
      (λ n s'. advance_from-IsAhead n p (b ∷ [])) (λ s'. IsAhead-cons p b [] _ (IsAhead-refl _))
      (λ s'. IsAhead-cons p b [] _ (IsAhead-refl _)) (body s b 0)
scan-IsAhead body s p (b ∷ e ∷ rest) =
    on_move_lem (λ r. IsAhead (record { place = p; rest = b ∷ e ∷ rest }) r.1)
      (λ n s'. advance_from-IsAhead n p (b ∷ e ∷ rest))
      (λ s'. IsAhead-cons p b (e ∷ rest) _ (scan-IsAhead body s' (bump p b) (e ∷ rest)))
      (λ s'.
        IsAhead-cons p b (e ∷ rest) _
          (IsAhead-cons (bump p b) e rest _ (scan-IsAhead body s' (bump (bump p b) e) rest)))
      (body s b e)

pub scan_at-IsAhead :
    {S : Type 0} (body : S → ℕ → ℕ → Move S) (s : S) (c : Cursor) → IsAhead c (scan_at body s c).1
scan_at-IsAhead body s c = scan-IsAhead body s c.place c.rest

pub skip_while-IsAhead : (test : ℕ → Bool) (c : Cursor) → IsAhead c (skip_while test c)
skip_while-IsAhead test c = scan_at-IsAhead (while_body test) tt c

-- A byte that passes the test is skipped first.
while_body-one :
    (test : ℕ → Bool) (b e : ℕ) → (b == 0) ≡ false → test b ≡ true → while_body test tt b e ≡ one tt
unfolding while_body
while_body-one test b e z t = rw (z, t) refl

skip_while_from-first :
    (test : ℕ → Bool) (p : Position) (b : ℕ) (rest : Bytes)
    → (b == 0) ≡ false
    → test b ≡ true
    → skip_while test (record { place = p; rest = b ∷ rest })
      ≡ skip_while test (record { place = bump p b; rest = rest })
unfolding scan
skip_while_from-first test p b [] z t =
    rw (while_body-one test b 0 z t, skip_while, scan_at, scan, on_move)
skip_while_from-first test p b (e ∷ rest) z t =
    rw (while_body-one test b e z t, skip_while, scan_at, scan, on_move)

pub skip_while-first :
    (test : ℕ → Bool) (c : Cursor) (b : ℕ) (rest : Bytes)
    → c.rest ≡ b ∷ rest
    → (b == 0) ≡ false
    → test b ≡ true
    → skip_while test c ≡ skip_while test (advance 1 c)
unfolding advance_from
skip_while-first test c b rest e z t =
    ap (λ r. skip_while test (record { place = c.place; rest = r })) e
    ∙ skip_while_from-first test c.place b rest z t
    ∙ ap (λ r. skip_while test (advance_from 1 c.place r)) (sym e)

-- Behind the first byte, and so behind that byte and more.
pub Ahead-first :
    (c c' : Cursor) (b : ℕ) (rest : Bytes)
    → c.rest ≡ b ∷ rest
    → IsAhead (advance 1 c) c'
    → (others : Bytes) × Ahead c c' (b ∷ others)
Ahead-first c c' b rest e (text, h) = (text, Ahead-trans (advance-Ahead c (b ∷ []) rest e) h)

-- The bytes between two cursors.
pub slice-Ahead : {c c' : Cursor} {text : Bytes} → Ahead c c' text → slice c c' ≡ text
slice-Ahead {c} {c'} {text} h =
    let size : length c.rest - length c'.rest ≡ length text =
      omega (arith, ap length h.split, length-append text c'.rest) in
    rw (size, h.split) (take-append text c'.rest)
