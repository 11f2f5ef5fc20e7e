-- ===== src/Lexer/Scan.antt =====
-- parser/lexer.cpp: the loops over the source by rounds, and invariants of them.
use nari.Prelude.{ℕ, ◌≡◌, refl, Bool, true, false, [], ◌∷◌, if◌then◌else◌}
use nari.Bytecode.Chunk.{Bytes}
use nari.Lexer.Cursor.{Position, Cursor, bump, on_move, advance_from, Move, halt, one, two, scan}

-- The state that a move leaves.
abbrev pub Leaves : {S : Type 0} → (S → Type 0) → Move S → Type 0
Leaves P (halt n s) = P s
Leaves P (one s) = P s
Leaves P (two s) = P s

pub Leaves-if :
    {S : Type 0} (P : S → Type 0) (b : Bool) (x y : Move S)
    → (b ≡ true → Leaves P x)
    → (b ≡ false → Leaves P y)
    → Leaves P (if b then x else y)
Leaves-if P true x y h k = h refl
Leaves-if P false x y h k = k refl

module _ {S : Type 0} (body : S → ℕ → ℕ → Move S) where
  -- A round that takes one byte, whatever stands behind it.
  pub scan-one :
      (s s' : S) (p : Position) (c : ℕ) (rest : Bytes)
      → ((e : ℕ) → body s c e ≡ one s')
      → scan body s p (c ∷ rest) ≡ scan body s' (bump p c) rest
  unfolding scan
  scan-one s s' p c [] h = rw (h 0, scan, on_move)
  scan-one s s' p c (e ∷ rest) h = rw (h e, scan, on_move)

  pub scan-two :
      (s s' : S) (p : Position) (c e : ℕ) (rest : Bytes)
      → body s c e ≡ two s'
      → scan body s p (c ∷ e ∷ rest) ≡ scan body s' (bump (bump p c) e) rest
  unfolding scan
  scan-two s s' p c e rest h = rw (h, scan, on_move)

  -- The round that leaves the loop.
  pub scan-halt :
      (s s' : S) (p : Position) (c : ℕ) (rest : Bytes)
      → ((e : ℕ) → body s c e ≡ halt 0 s')
      → scan body s p (c ∷ rest) ≡ (s', record { place = p; rest = c ∷ rest })
  unfolding scan advance_from
  scan-halt s s' p c [] h = rw (h 0, scan, on_move)
  scan-halt s s' p c (e ∷ rest) h = rw (h e, scan, on_move)

  on_move-Leaves :
      (P : S → Type 0) (halted : ℕ → Cursor) (go_one go_two : S → S × Cursor)
      → ((s : S) → P s → P (go_one s).0)
      → ((s : S) → P s → P (go_two s).0)
      → (m : Move S) → Leaves P m
      → P (on_move halted go_one go_two m).0
  on_move-Leaves P halted go_one go_two f g (halt n s) h = h
  on_move-Leaves P halted go_one go_two f g (one s) h = f s h
  on_move-Leaves P halted go_one go_two f g (two s) h = g s h

  -- What every round keeps holds after the loop.
  pub scan-keeps :
      (P : S → Type 0)
      → ((s : S) (c e : ℕ) → P s → Leaves P (body s c e))
      → (s : S) (p : Position) (rest : Bytes) → P s
      → P (scan body s p rest).0
  unfolding scan
  scan-keeps P keep s p [] h = h
  scan-keeps P keep s p (c ∷ []) h =
      on_move-Leaves P _ _ _ (λ s' k. k) (λ s' k. k) (body s c 0) (keep s c 0 h)
  scan-keeps P keep s p (c ∷ e ∷ rest) h =
      on_move-Leaves P _ _ _ (λ s' k. scan-keeps P keep s' (bump p c) (e ∷ rest) k)
        (λ s' k. scan-keeps P keep s' (bump (bump p c) e) rest k) (body s c e) (keep s c e h)
