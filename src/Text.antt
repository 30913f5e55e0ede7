-- ===== src/Text.antt =====
-- The text layout of xtext.cpp: the characters of a text and their directions, decoding UTF-8,
-- cutting lines, and the indices of segments and words.
pub mod Codepoint
pub mod Utf8
pub mod Line
pub mod Measure
pub mod Select
pub mod Bidi
