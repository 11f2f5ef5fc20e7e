-- ===== src/Lexer/Trim.antt =====
-- util.h: what `trim_ascii` takes off.
use nari.Prelude.{
  ℕ, zero, suc, ◌-◌, ◌≤◌, ◌<◌, ◌≡◌, refl, sym, ap, ◌∙◌, arith, true, false, [], ◌∷◌, ◌++◌, All,
  length, take, drop, get_or, take-append-drop, length-take, get_or-take, append-nil, ◌==◌, ==→eq,
  Bool-cases, inl, inr,
}
use nari.Bytecode.Chunk.{Bytes}
use nari.Lexer.Chars.{is_space, trim_begin, trim_end, trim_ascii}

abbrev pub AllSpace : Bytes → Type 0
AllSpace s = All (λ c. is_space c ≡ true) s

-- Neither the first nor the last byte is a space.
pub record IsTrimmed (t : Bytes) : Type 0 where
  pub first : 0 < length t → is_space (get_or t 0 0) ≡ false
  pub last : 0 < length t → is_space (get_or t (length t - 1) 0) ≡ false

trim_begin-split :
    (s : Bytes)
    → (front : Bytes) × (s ≡ front ++ trim_begin s)
      × AllSpace front
      × (0 < length (trim_begin s) → is_space (get_or (trim_begin s) 0 0) ≡ false)
unfolding trim_begin
trim_begin-split [] = ([], refl, tt, λ h. absurd (omega arith))
trim_begin-split (c ∷ s) = elim (Bool-cases (is_space c)) [
  | inl e ↦
      let (front, split, spaces, first) = trim_begin-split s in
      rw (e, trim_begin) (c ∷ front, ap (λ (r : Bytes). c ∷ r) split, (e, spaces), first)
  | inr e ↦ rw (e, trim_begin) ([], refl, tt, λ _. e)
]

trim_end-le : (s : Bytes) (n : ℕ) → trim_end s n ≤ n
unfolding trim_end
trim_end-le s zero = omega arith
trim_end-le s (suc n) = ground (arith, trim_end-le s n)

-- The bytes from `end` to `n` are spaces, and the byte in front of `end` is none.
trim_end-last :
    (s : Bytes) (n : ℕ) → 0 < trim_end s n → is_space (get_or s (trim_end s n - 1) 0) ≡ false
unfolding trim_end
trim_end-last s zero h = absurd (omega arith)
trim_end-last s (suc n) h = elim (Bool-cases (is_space (get_or s n 0))) [
  | inl e ↦ rw (e, trim_end) (trim_end-last s n (rw (e, trim_end) at h))
  | inr e ↦ let back : suc n - 1 ≡ n = omega arith in rw (e, trim_end) (rw back e)
]

trim_end-spaces : (s : Bytes) (n i : ℕ) → trim_end s n ≤ i → i < n → is_space (get_or s i 0) ≡ true
unfolding trim_end
trim_end-spaces s zero i h l = absurd (omega arith)
trim_end-spaces s (suc n) i h l = elim (Bool-cases (is_space (get_or s n 0))) [
  | inl e ↦ elim (Bool-cases (i == n)) [
    | inl same ↦ rw (==→eq i n same) e
    | inr other ↦ trim_end-spaces s n i (rw (e, trim_end) at h) (ground arith)
  ]
  | inr e ↦ absurd (omega (arith, rw (e, trim_end) at h))
]

drop-AllSpace :
    (s : Bytes) (n : ℕ)
    → ((i : ℕ) → n ≤ i → i < length s → is_space (get_or s i 0) ≡ true)
    → AllSpace (drop n s)
drop-AllSpace [] zero h = tt
drop-AllSpace [] (suc n) h = tt
drop-AllSpace (c ∷ s) zero h = (
  h 0 (omega arith) (omega arith),
  drop-AllSpace s zero (λ i a b. h (suc i) (omega arith) (omega arith)),
)
drop-AllSpace (c ∷ s) (suc n) h = drop-AllSpace s n (λ i a b. h (suc i) (omega arith) (omega arith))

-- `trim_ascii` takes spaces off both ends, and leaves none there.
pub trim_ascii-IsTrimmed :
    (s : Bytes)
    → (front : Bytes) × (back : Bytes) × (s ≡ front ++ (trim_ascii s ++ back))
      × AllSpace front
      × AllSpace back
      × IsTrimmed (trim_ascii s)
unfolding trim_ascii
trim_ascii-IsTrimmed s =
    let (front, split, spaces, first) = trim_begin-split s in
    let t = trim_begin s in
    let n = trim_end t (length t) in
    let le = trim_end-le t (length t) in
    let size = length-take n t le in
    let kept : (i : ℕ) → i < n → get_or (take n t) i 0 ≡ get_or t i 0 = λ i less.
      ap (λ (r : Bytes). get_or r i 0) (sym (append-nil (take n t)))
      ∙ get_or-take n t [] i 0 less le in
    (
      front,
      drop n t,
      split ∙ ap (λ (r : Bytes). front ++ r) (sym (take-append-drop n t)),
      spaces,
      drop-AllSpace t n (λ i a b. trim_end-spaces t (length t) i a b),
      record {
        first = λ h. rw (kept 0 (omega (arith, size))) (first (omega (arith, size, le)));
        last = λ h.
            rw (size, kept (n - 1) (omega (arith, size)))
              (trim_end-last t (length t) (omega (arith, size)));
      },
    )
