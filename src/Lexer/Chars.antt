-- ===== src/Lexer/Chars.antt =====
-- parser/lexer.cpp and util.h: classes of bytes, in the "C" locale, and `trim_ascii`.
use nari.Prelude.{
  ℕ, zero, suc, Bool, [], ◌∷◌, ◌==◌, ◌&&◌, ◌||◌, leb, is_one_of, length, get_or, take,
  if◌then◌else◌,
}
use nari.Bytecode.Chunk.{Bytes}

abbrev within : ℕ → ℕ → ℕ → Bool
within low high c = leb low c && leb c high

-- std::isspace
abbrev pub is_space : ℕ → Bool
is_space c = c == 32 || within 9 13 c

abbrev pub is_digit : ℕ → Bool
is_digit c = within 48 57 c

-- std::isalpha
abbrev pub is_alpha : ℕ → Bool
is_alpha c = within 65 90 c || within 97 122 c

-- std::isxdigit
abbrev pub is_xdigit : ℕ → Bool
is_xdigit c = is_digit c || within 65 70 c || within 97 102 c

abbrev pub is_identifier_start : ℕ → Bool
is_identifier_start c = is_alpha c || c == b'_' || leb 0x80 c

abbrev pub is_identifier_continue : ℕ → Bool
is_identifier_continue c = is_alpha c || is_digit c || c == b'_' || leb 0x80 c

-- What `tokenize` skips between tokens.
abbrev pub is_blank : ℕ → Bool
is_blank c = is_one_of c (32 ∷ 9 ∷ 13 ∷ 10 ∷ [])

-- The first loop of `trim_ascii`: the bytes from `begin` on.
unfoldable pub trim_begin : Bytes → Bytes
trim_begin [] = []
trim_begin (c ∷ s) = let trimmed = trim_begin s in if is_space c then trimmed else c ∷ s

-- The second loop, which gives `end`.
unfoldable pub trim_end : Bytes → ℕ → ℕ
trim_end s zero = zero
trim_end s (suc end) =
    let before = trim_end s end in if is_space (get_or s end 0) then before else suc end

unfoldable pub trim_ascii : Bytes → Bytes
unfolding trim_begin trim_end
trim_ascii s = let t = trim_begin s in take (trim_end t (length t)) t
