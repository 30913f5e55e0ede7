-- ===== src/Text/Utf8.antt =====
-- Utf8ToUnicode in xtext.cpp, and the two ways in which XText fills m_text. A string is the list
-- of its bytes, so `s + n < ends` says that the list goes on for `n` bytes after the first.
pub mod Bits
pub mod Encode
pub mod RoundTrip
pub mod Passes
use koreader_base.Prelude.{
  ℕ, zero, suc, ◌+◌, ◌*◌, ◌^◌, Bool, true, false, ◌&&◌, ◌||◌, bit_and, ltb, leb, ◌==◌,
  if◌then◌else◌,
}
use Prim.Native.Nat.{bit_or}
use mathlib.Core.List.{List, [], ◌∷◌, ◌++◌}
use koreader_base.Prelude.Lists.{length}
use koreader_base.Text.Codepoint.{is_unicodepoint_rtl}

abbrev pub Bytes : Type 0
Bytes = List ℕ

abbrev pub replacement_char : ℕ
replacement_char = 0xFFFD

-- The macros HEAD_CHECK, HEAD_BYTE, CONT_BYTE and IS_FOLLOWING, on the byte that they look at.
unfoldable pub head_check : ℕ → ℕ → ℕ → Bool
head_check b mask expect = bit_and b mask == expect

unfoldable pub head_byte : ℕ → ℕ → ℕ → ℕ
head_byte b mask shift = bit_and b mask * 2 ^ shift

unfoldable pub cont_byte : ℕ → ℕ → ℕ
cont_byte b shift = bit_and b 0x3F * 2 ^ shift

unfoldable pub is_following : ℕ → Bool
is_following b = bit_and b 0xC0 == 0x80

-- What one round of the loop finds: the character for `*p`, the bytes after it, and `valid`.
pub record Found : Type 0 where
  pub char : ℕ
  pub rest : Bytes
  pub valid : Bool

-- `s++`, the byte read as U+FFFD.
abbrev pub invalid : Bytes → Found
invalid s = record { char = replacement_char; rest = s; valid = false }

abbrev pub found : ℕ → Bytes → Found
found u s = record { char = u; rest = s; valid = true }

unfoldable pub three_bytes : ℕ → ℕ → ℕ → ℕ
unfolding head_byte cont_byte
three_bytes b c d = bit_or (bit_or (head_byte b 0x0F 12) (cont_byte c 6)) (cont_byte d 0)

-- WTF-8: the low surrogate that may follow the high surrogate `u`.
unfoldable pub merge_surrogates : ℕ → Bytes → Found
unfolding head_check is_following three_bytes
merge_surrogates u (b ∷ c ∷ d ∷ s) =
    let next = three_bytes b c d in
    if leb 0xD800 u
      && leb u 0xDBFF
      && (head_check b 0xF0 0xE0 && is_following c && is_following d)
      && (leb 0xDC00 next && leb next 0xDFFF)
    then found (0x10000 + bit_and u 0x3FF * 2 ^ 10 + bit_and next 0x3FF) s
    else found u (b ∷ c ∷ d ∷ s)
merge_surrogates u s = found u s

unfoldable pub read_two : ℕ → Bytes → Found
unfolding head_byte cont_byte is_following
read_two b (c ∷ s) =
    if is_following c
    then found (bit_or (head_byte b 0x1F 6) (cont_byte c 0)) s
    else invalid (c ∷ s)
read_two b [] = invalid []

unfoldable pub read_three : Bool → ℕ → Bytes → Found
unfolding is_following three_bytes merge_surrogates
read_three do_decode b (c ∷ d ∷ s) =
    if is_following c && is_following d
    then (if do_decode then merge_surrogates (three_bytes b c d) s else found (three_bytes b c d) s)
    else invalid (c ∷ d ∷ s)
read_three do_decode b s = invalid s

unfoldable pub read_four : ℕ → Bytes → Found
unfolding head_byte cont_byte is_following
read_four b (c ∷ d ∷ e ∷ s) =
    if is_following c && is_following d && is_following e
    then found
        (bit_or (bit_or (bit_or (head_byte b 0x07 18) (cont_byte c 12)) (cont_byte d 6))
          (cont_byte e 0))
        s
    else invalid (c ∷ d ∷ e ∷ s)
read_four b s = invalid s

-- One round, at the byte `b` with `s` behind it.
unfoldable pub read_char : Bool → ℕ → Bytes → Found
unfolding head_check read_two read_three read_four
read_char do_decode b s =
    if head_check b 0x80 0
    then found b s
    else if head_check b 0xE0 0xC0
    then read_two b s
    else if head_check b 0xF0 0xE0
    then read_three do_decode b s
    else if head_check b 0xF8 0xF0
    then read_four b s
    else invalid s

-- The variables of the loop, with the characters that are in `dst`.
pub record Pass : Type 0 where
  pub dst : List ℕ
  pub ucount : ℕ
  pub is_valid : Bool
  pub has_rtl : Bool

-- What a round does with what it found.
unfoldable pub write_char : Bool → Found → Pass → Pass
unfolding is_unicodepoint_rtl
write_char do_decode f p = record {
  dst = if do_decode then p.dst ++ (f.char ∷ []) else p.dst;
  ucount = p.ucount + 1;
  is_valid = if f.valid then p.is_valid else false;
  has_rtl =
      if do_decode then (if p.has_rtl then true else is_unicodepoint_rtl f.char) else p.has_rtl;
}

-- The loop, with fuel. It stops when `dst` is full: `p >= endp` is that `dstlen` characters were
-- written, one per round.
unfoldable pub utf8_loop : ℕ → Bool → ℕ → Bytes → Pass → Pass
unfolding read_char write_char
utf8_loop zero do_decode dstlen s p = p
utf8_loop (suc fuel) do_decode dstlen [] p = p
utf8_loop (suc fuel) do_decode dstlen (b ∷ s) p =
    let f = read_char do_decode b s in
    let rest = utf8_loop fuel do_decode dstlen f.rest (write_char do_decode f p) in
    if do_decode && leb dstlen p.ucount then p else rest

-- Every round reads at least a byte, so as many rounds as bytes are enough.
unfoldable pub utf8_to_unicode : Bool → ℕ → Bytes → Bool → Pass
unfolding utf8_loop
utf8_to_unicode do_decode dstlen src has_rtl =
    utf8_loop (length src) do_decode dstlen src
      (record { dst = []; ucount = 0; is_valid = true; has_rtl = has_rtl })

-- What the constructors of XText set of a text.
pub record Text : Type 0 where
  pub m_text : List ℕ
  pub m_length : ℕ
  pub m_is_valid : Bool
  pub m_has_rtl : Bool

-- setTextFromUTF8String: counting, then decoding into as many slots.
unfoldable pub set_text_from_utf8_string : Bool → Bytes → Text
unfolding utf8_to_unicode
set_text_from_utf8_string para_direction_rtl utf8_text =
    let counted = utf8_to_unicode false 0 utf8_text false in
    let decoded = utf8_to_unicode true counted.ucount utf8_text para_direction_rtl in
    record {
      m_text = decoded.dst;
      m_length = decoded.ucount;
      m_is_valid = decoded.is_valid;
      m_has_rtl = decoded.has_rtl;
    }

-- setTextFromUTF8CharsLuaArray: the character of one string of the array.
unfoldable pub lua_char : Bytes → ℕ
lua_char (a ∷ []) = bit_and a 0x7F
lua_char (a ∷ b ∷ []) = bit_and a 0x1F * 2 ^ 6 + bit_and b 0x3F
lua_char (a ∷ b ∷ c ∷ []) = bit_and a 0x0F * 2 ^ 12 + bit_and b 0x3F * 2 ^ 6 + bit_and c 0x3F
lua_char (a ∷ b ∷ c ∷ d ∷ []) =
    bit_and a 0x07 * 2 ^ 18 + bit_and b 0x3F * 2 ^ 12 + bit_and c 0x3F * 2 ^ 6 + bit_and d 0x3F
lua_char s = replacement_char

-- Its loop over the array.
unfoldable pub lua_chars : List Bytes → Text → Text
unfolding lua_char is_unicodepoint_rtl
lua_chars [] t = t
lua_chars (s ∷ more) t =
    let u = lua_char s in
    lua_chars more (record t {
      m_text = t.m_text ++ (u ∷ []);
      m_has_rtl = if t.m_has_rtl then true else is_unicodepoint_rtl u;
    })

unfoldable pub set_text_from_utf8_chars : Bool → List Bytes → Text
unfolding lua_chars
set_text_from_utf8_chars para_direction_rtl strings = lua_chars strings (record {
  m_text = [];
  m_length = length strings;
  m_is_valid = true;
  m_has_rtl = para_direction_rtl;
})
