-- ===== src/Lexer.antt =====
-- The lexer of src/parser/lexer.cpp. `Token` has the tokens, `Chars`, `Cursor`, `Operators` and
-- `FormatColon` the helpers, `Literals` the loops over strings, numbers and regexes, `Tokenize` the
-- main loop. The proofs: `Ahead` on positions, `Cover` on the token stream as a whole, `Munch` on the
-- operators, `Scan` on the loops over literals, `Quoted` on string literals, `Parts` on interpolated
-- strings, `Trim` on spaces.
pub mod Token
pub mod Chars
pub mod Cursor
pub mod Operators
pub mod FormatColon
pub mod Literals
pub mod Tokenize
pub mod Ahead
pub mod Cover
pub mod Scan
pub mod Munch
pub mod Quoted
pub mod Parts
pub mod Trim
