-- ===== src/Text/Utf8/RoundTrip.antt =====
-- Both ways of filling m_text, on encoded text.
use mathlib.Core.List.{List, [], ◌∷◌, ◌++◌, append-nil, append_assoc}
use koreader_base.Prelude.{
  ℕ, zero, suc, ◌+◌, ◌≤◌, ◌≡◌, refl, sym, ap, ◌∙◌, inl, inr, Bool, true, false, ◌&&◌, ◌||◌, bit_and,
  ltb, leb, ◌/◌, ◌%◌, if◌then◌else◌, arith,
}
use koreader_base.Prelude.Lists.{length, length-append}
use koreader_base.Text.Codepoint.{is_unicodepoint_rtl}
use koreader_base.Text.Utf8.Bits.{following_bits, one_bits, two_bits, three_bits, four_bits}
use koreader_base.Text.Utf8.Encode.{IsScalar, encode_char, width, read_char-encode_char}
use koreader_base.Text.Utf8.{
  Bytes, found, read_char, write_char, Pass, utf8_loop, utf8_to_unicode, Text,
  set_text_from_utf8_string, lua_char, lua_chars, set_text_from_utf8_chars,
}

unfoldable pub encode_text : List ℕ → Bytes
unfolding encode_char
encode_text [] = []
encode_text (c ∷ cs) = encode_char c ++ encode_text cs

-- The text as an array of strings, one for each character.
unfoldable pub split_text : List ℕ → List Bytes
unfolding encode_char
split_text [] = []
split_text (c ∷ cs) = encode_char c ∷ split_text cs

abbrev pub AllScalar : List ℕ → Type 0
AllScalar [] = 0 ≤ 0
AllScalar (c ∷ cs) = IsScalar c × AllScalar cs

unfoldable pub any_rtl : List ℕ → Bool
unfolding is_unicodepoint_rtl
any_rtl [] = false
any_rtl (c ∷ cs) = is_unicodepoint_rtl c || any_rtl cs

-- A pass that has read `cs` more.
abbrev after : Bool → List ℕ → Pass → Pass
after do_decode cs p = record p {
  dst = if do_decode then p.dst ++ cs else p.dst;
  ucount = p.ucount + length cs;
  has_rtl = if do_decode then p.has_rtl || any_rtl cs else p.has_rtl;
}

or_lem : (a b c : Bool) → ((if a then true else b) || c) ≡ (a || (b || c))
or_lem a b c = ground arith

after_nil : (do_decode : Bool) (p : Pass) → after do_decode [] p ≡ p
unfolding length any_rtl
after_nil false p =
    let same : p.ucount + 0 ≡ p.ucount = omega arith in λ i. record p { ucount = same i }
after_nil true p =
    let same : p.ucount + 0 ≡ p.ucount = omega arith in
    let rtl : (p.has_rtl || false) ≡ p.has_rtl = ground arith in
    λ i. record p { dst = append-nil p.dst i; ucount = same i; has_rtl = rtl i }

pub ended :
    (do_decode : Bool) (fuel dstlen : ℕ) (p : Pass) → utf8_loop fuel do_decode dstlen [] p ≡ p
unfolding utf8_loop
ended do_decode zero dstlen p = refl
ended do_decode (suc fuel) dstlen p = refl

-- Counting does not look at `dstlen`.
counting :
    (fuel m n : ℕ) (s : Bytes) (p : Pass) → utf8_loop fuel false m s p ≡ utf8_loop fuel false n s p
unfolding utf8_loop
counting zero m n s p = refl
counting (suc fuel) m n [] p = refl
counting (suc fuel) m n (b ∷ s) p = counting fuel m n _ _

after_step :
    (do_decode : Bool) (c : ℕ) (s : Bytes) (cs : List ℕ) (p : Pass)
    → after do_decode cs (write_char do_decode (found c s) p) ≡ after do_decode (c ∷ cs) p
unfolding write_char any_rtl length
after_step false c s cs p =
    let more : p.ucount + 1 + length cs ≡ p.ucount + suc (length cs) = omega arith in
    λ i. record p { ucount = more i }
after_step true c s cs p =
    let more : p.ucount + 1 + length cs ≡ p.ucount + suc (length cs) = omega arith in
    λ i. record p {
      dst = append_assoc p.dst (c ∷ []) cs i;
      ucount = more i;
      has_rtl = or_lem p.has_rtl (is_unicodepoint_rtl c) (any_rtl cs) i;
    }

utf8_loop-encode_text :
    (do_decode : Bool) (cs : List ℕ) (fuel dstlen : ℕ) (p : Pass)
    → AllScalar cs
    → length (encode_text cs) ≤ fuel
    → p.ucount + length cs ≤ dstlen
    → utf8_loop fuel do_decode dstlen (encode_text cs) p ≡ after do_decode cs p
unfolding utf8_loop encode_text length write_char
utf8_loop-encode_text do_decode [] fuel dstlen p scalars enough room =
    ended do_decode fuel dstlen p ∙ sym (after_nil do_decode p)
utf8_loop-encode_text do_decode (c ∷ cs) fuel dstlen p (scalar, scalars) enough room =
    let (b, t, e, reads) = read_char-encode_char do_decode c (encode_text cs) scalar in
    let bytes : length (encode_text (c ∷ cs)) ≡ suc (length t + length (encode_text cs)) =
      rw e (ap suc (length-append t (encode_text cs))) in
    next fuel b t e reads (omega (arith, bytes)) (λ left more.
      utf8_loop-encode_text do_decode cs left dstlen
        (write_char do_decode (found c (encode_text cs)) p) scalars more (omega arith)
      ∙ after_step do_decode c (encode_text cs) cs p)
  where
    next :
        (fuel b : ℕ) (t : Bytes)
        → encode_char c ≡ b ∷ t
        → read_char do_decode b (t ++ encode_text cs) ≡ found c (encode_text cs)
        → suc (length (encode_text cs)) ≤ fuel
        → ((fuel : ℕ)
            → length (encode_text cs) ≤ fuel
            → utf8_loop fuel do_decode dstlen
                (encode_text cs)
                (write_char do_decode (found c (encode_text cs)) p)
              ≡ after do_decode (c ∷ cs) p)
        → utf8_loop fuel do_decode dstlen (encode_text (c ∷ cs)) p ≡ after do_decode (c ∷ cs) p
    next zero b t e reads left again = absurd (omega arith)
    next (suc fuel) b t e reads left again =
        let goes_on : (do_decode && leb dstlen p.ucount) ≡ false = ground arith in
        rw (e, goes_on, reads) (again fuel (omega arith))

tail_bits : (x : ℕ) → bit_and (0x80 + x % 64) 0x3F ≡ x % 64
tail_bits x = (following_bits (x % 64) (omega arith)).1

lua_char-encode_char : (c : ℕ) → IsScalar c → lua_char (encode_char c) ≡ c
unfolding lua_char encode_char
lua_char-encode_char c scalar = elim (width c) [
  | inl small ↦ let e : ltb c 0x80 ≡ true = ground arith in rw e ((one_bits c small).1)
  | inr (inl (low, high)) ↦
      let e : ltb c 0x80 ≡ false = ground arith in
      let f : ltb c 0x800 ≡ true = ground arith in
      rw (e, f, (two_bits (c / 64) (omega arith)).2, tail_bits c) (omega arith)
  | inr (inr (inl (low, high))) ↦
      let e : ltb c 0x80 ≡ false = ground arith in
      let f : ltb c 0x800 ≡ false = ground arith in
      let g : ltb c 0x10000 ≡ true = ground arith in
      rw (e, f, g, (three_bits (c / 4096) (omega arith)).3, tail_bits (c / 64), tail_bits c)
        (omega arith)
  | inr (inr (inr low)) ↦
      let e : ltb c 0x80 ≡ false = ground arith in
      let f : ltb c 0x800 ≡ false = ground arith in
      let g : ltb c 0x10000 ≡ false = ground arith in
      rw
        (
          e,
          f,
          g,
          (four_bits (c / 262144) (omega arith)).4,
          tail_bits (c / 4096),
          tail_bits (c / 64),
          tail_bits c,
        )
        (omega arith)
]

lua_chars-split_text :
    (cs : List ℕ) (t : Text)
    → AllScalar cs
    → lua_chars (split_text cs) t
      ≡ record t { m_text = t.m_text ++ cs; m_has_rtl = t.m_has_rtl || any_rtl cs }
unfolding lua_chars split_text any_rtl
lua_chars-split_text [] t scalars =
    let rtl : t.m_has_rtl ≡ (t.m_has_rtl || false) = ground arith in
    λ i. record t { m_text = sym (append-nil t.m_text) i; m_has_rtl = rtl i }
lua_chars-split_text (c ∷ cs) t (scalar, scalars) =
    rw (lua_char-encode_char c scalar, lua_chars)
      (lua_chars-split_text cs
          (record t {
            m_text = t.m_text ++ (c ∷ []);
            m_has_rtl = if t.m_has_rtl then true else is_unicodepoint_rtl c;
          })
          scalars
        ∙ (λ i. record t {
          m_text = append_assoc t.m_text (c ∷ []) cs i;
          m_has_rtl = or_lem t.m_has_rtl (is_unicodepoint_rtl c) (any_rtl cs) i;
        }))

length-split_text : (cs : List ℕ) → length (split_text cs) ≡ length cs
unfolding split_text length
length-split_text [] = refl
length-split_text (c ∷ cs) = ap suc (length-split_text cs)

-- The text of `cs`, valid, with a right-to-left character or in a right-to-left paragraph.
abbrev pub text_of : Bool → List ℕ → Text
text_of para_direction_rtl cs = record {
  m_text = cs;
  m_length = length cs;
  m_is_valid = true;
  m_has_rtl = para_direction_rtl || any_rtl cs;
}

-- For a text of Unicode scalar values, setTextFromUTF8String on its UTF-8 encoding sets m_text to
-- those values, m_length to their number, m_is_valid to true, and m_has_rtl to whether one of them
-- is right-to-left or the paragraph direction is.
pub set_text_from_utf8_string-encode_text :
    (para_direction_rtl : Bool) (cs : List ℕ)
    → AllScalar cs
    → set_text_from_utf8_string para_direction_rtl (encode_text cs) ≡ text_of para_direction_rtl cs
unfolding set_text_from_utf8_string utf8_to_unicode
set_text_from_utf8_string-encode_text para_direction_rtl cs scalars =
    let start : Bool → Pass =
      λ rtl. record { dst = []; ucount = 0; is_valid = true; has_rtl = rtl } in
    let size = length (encode_text cs) in
    let counted : utf8_loop size false 0 (encode_text cs) (start false)
        ≡ after false cs (start false) =
      counting size 0 (length cs) (encode_text cs) (start false)
      ∙ utf8_loop-encode_text false cs size (length cs) (start false) scalars (omega arith)
          (omega arith) in
    let decoded : utf8_loop size true (length cs) (encode_text cs) (start para_direction_rtl)
        ≡ after true cs (start para_direction_rtl) =
      utf8_loop-encode_text true cs size (length cs) (start para_direction_rtl) scalars
        (omega arith) (omega arith) in
    let none_before : 0 + length cs ≡ length cs = omega arith in
    rw (counted, none_before, decoded, none_before) refl

-- For a text of Unicode scalar values, filling m_text from an array of the encodings of the
-- single characters and filling it from the encoding of the whole text give the same object.
pub set_text_from_utf8_chars-eq-string :
    (para_direction_rtl : Bool) (cs : List ℕ)
    → AllScalar cs
    → set_text_from_utf8_chars para_direction_rtl (split_text cs)
      ≡ set_text_from_utf8_string para_direction_rtl (encode_text cs)
unfolding set_text_from_utf8_chars split_text length
set_text_from_utf8_chars-eq-string para_direction_rtl cs scalars =
    lua_chars-split_text cs _ scalars
    ∙ ap (λ n. record (text_of para_direction_rtl cs) { m_length = n }) (length-split_text cs)
    ∙ sym (set_text_from_utf8_string-encode_text para_direction_rtl cs scalars)
