-- ===== src/Parser.antt =====
-- engine/internal/parser: the hand-written scanner in front of the generated parser.
pub mod Keywords
pub mod Scanner
pub mod Lexer
