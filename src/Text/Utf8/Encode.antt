-- ===== src/Text/Utf8/Encode.antt =====
-- UTF-8 as RFC 3629 defines it, and the decoder of xtext.cpp on it.
use Prim.Native.Nat.{bit_or}
use mathlib.Core.List.{[], ◌∷◌, ◌++◌}
use koreader_base.Prelude.{
  ℕ, ◌+◌, ◌*◌, ◌/◌, ◌%◌, ◌^◌, ◌≤◌, ◌<◌, ◌≡◌, refl, ap, ◌∙◌, ◌⊎◌, inl, inr, Bool, true, false, ◌&&◌,
  ltb, leb, if◌then◌else◌, arith,
}
use koreader_base.Text.Utf8.Bits.{
  bit_or_above, following_bits, one_bits, two_bits, three_bits, four_bits,
}
use koreader_base.Text.Utf8.{
  Bytes, found, head_check, head_byte, cont_byte, is_following, three_bytes, merge_surrogates,
  read_two, read_three, read_four, read_char,
}

-- A Unicode scalar value: a code point that is no surrogate.
abbrev pub IsScalar : ℕ → Type 0
IsScalar c = (c < 0xD800) ⊎ ((0xE000 ≤ c) × (c < 0x110000))

abbrev tail_byte : ℕ → ℕ
tail_byte x = 0x80 + x % 64

unfoldable pub encode_char : ℕ → Bytes
encode_char c =
    if ltb c 0x80
    then c ∷ []
    else if ltb c 0x800
    then (0xC0 + c / 64) ∷ tail_byte c ∷ []
    else if ltb c 0x10000
    then (0xE0 + c / 4096) ∷ tail_byte (c / 64) ∷ tail_byte c ∷ []
    else (0xF0 + c / 262144) ∷ tail_byte (c / 4096) ∷ tail_byte (c / 64) ∷ tail_byte c ∷ []

tail_following : (x : ℕ) → is_following (tail_byte x) ≡ true
unfolding is_following
tail_following x = ground (arith, following_bits (x % 64) (omega arith))

tail_cont : (x k : ℕ) → cont_byte (tail_byte x) k ≡ x % 64 * 2 ^ k
unfolding cont_byte
tail_cont x k = rw ((following_bits (x % 64) (omega arith)).1) refl

three_bytes_lem :
    (c : ℕ) → c < 0x10000 → three_bytes (0xE0 + c / 4096) (tail_byte (c / 64)) (tail_byte c) ≡ c
unfolding three_bytes head_byte
three_bytes_lem c h =
    rw ((three_bits (c / 4096) (omega arith)).3, tail_cont (c / 64) 6, tail_cont c 0)
      (ap (λ t. bit_or t (c % 64 * 1))
          (bit_or_above 12 (c / 4096 * 4096) (c / 4096) (c / 64 % 64 * 64) refl (omega arith))
        ∙ bit_or_above 6 (c / 4096 * 4096 + c / 64 % 64 * 64) (c / 64) (c % 64 * 1) (omega arith)
            (omega arith)
        ∙ omega arith)

-- A character that is no high surrogate merges with nothing.
merge_scalar : (c : ℕ) (s : Bytes) → IsScalar c → merge_surrogates c s ≡ found c s
unfolding merge_surrogates
merge_scalar c [] h = refl
merge_scalar c (_ ∷ []) h = refl
merge_scalar c (_ ∷ _ ∷ []) h = refl
merge_scalar c (_ ∷ _ ∷ _ ∷ s) h =
    let e : (leb 0xD800 c && leb c 0xDBFF) ≡ false = ground arith in rw e refl

four_bytes_lem :
    (c : ℕ)
    → c < 0x110000
    → bit_or
        (bit_or
          (bit_or (head_byte (0xF0 + c / 262144) 0x07 18) (cont_byte (tail_byte (c / 4096)) 12))
          (cont_byte (tail_byte (c / 64)) 6))
        (cont_byte (tail_byte c) 0)
      ≡ c
unfolding head_byte
four_bytes_lem c h =
    let high = c / 262144 * 262144 in
    let third = c / 4096 % 64 * 4096 in
    let second = c / 64 % 64 * 64 in
    let first = c % 64 * 1 in
    rw
      (
        (four_bits (c / 262144) (omega arith)).4,
        tail_cont (c / 4096) 12,
        tail_cont (c / 64) 6,
        tail_cont c 0,
      )
      (ap (λ t. bit_or (bit_or t second) first)
          (bit_or_above 18 high (c / 262144) third refl (omega arith))
        ∙ ap (λ t. bit_or t first)
            (bit_or_above 12 (high + third) (c / 4096) second (omega arith) (omega arith))
        ∙ bit_or_above 6 (high + third + second) (c / 64) first (omega arith) (omega arith)
        ∙ omega arith)

read_two-encoded :
    (c : ℕ) (s : Bytes) → c < 0x800 → read_two (0xC0 + c / 64) (tail_byte c ∷ s) ≡ found c s
unfolding read_two head_byte
read_two-encoded c s h =
    rw (tail_following c, (two_bits (c / 64) (omega arith)).2, tail_cont c 0)
      (ap (λ u. found u s)
        (bit_or_above 6 (c / 64 * 64) (c / 64) (c % 64 * 1) refl (omega arith) ∙ omega arith))

read_three-encoded :
    (do_decode : Bool) (c : ℕ) (s : Bytes)
    → c < 0x10000
    → IsScalar c
    → read_three do_decode (0xE0 + c / 4096) (tail_byte (c / 64) ∷ tail_byte c ∷ s) ≡ found c s
unfolding read_three
read_three-encoded false c s h scalar =
    rw (tail_following (c / 64), tail_following c) (ap (λ u. found u s) (three_bytes_lem c h))
read_three-encoded true c s h scalar =
    rw (tail_following (c / 64), tail_following c, three_bytes_lem c h) (merge_scalar c s scalar)

read_four-encoded :
    (c : ℕ) (s : Bytes)
    → c < 0x110000
    → read_four (0xF0 + c / 262144) (tail_byte (c / 4096) ∷ tail_byte (c / 64) ∷ tail_byte c ∷ s)
      ≡ found c s
unfolding read_four
read_four-encoded c s h =
    rw (tail_following (c / 4096), tail_following (c / 64), tail_following c)
      (ap (λ u. found u s) (four_bytes_lem c h))

-- The number of bytes a character needs.
pub width :
    (c : ℕ)
    → (c < 0x80) ⊎ ((0x80 ≤ c) × (c < 0x800)) ⊎ ((0x800 ≤ c) × (c < 0x10000)) ⊎ (0x10000 ≤ c)
width c = omega arith

-- What a round reads from the encoding of a character with more behind it.
pub read_char-encode_char :
    (do_decode : Bool) (c : ℕ) (s : Bytes)
    → IsScalar c
    → (b : ℕ) × (t : Bytes) × (encode_char c ≡ b ∷ t) × (read_char do_decode b (t ++ s) ≡ found c s)
unfolding encode_char read_char head_check
read_char-encode_char do_decode c s scalar = elim (width c) [
  | inl small ↦
      let e : ltb c 0x80 ≡ true = ground arith in rw e (c, [], refl, rw ((one_bits c small).0) refl)
  | inr (inl (low, high)) ↦
      let e : ltb c 0x80 ≡ false = ground arith in
      let f : ltb c 0x800 ≡ true = ground arith in
      let bits = two_bits (c / 64) (omega arith) in
      rw (e, f) (_, _, refl, rw (bits.0, bits.1) (read_two-encoded c s high))
  | inr (inr (inl (low, high))) ↦
      let e : ltb c 0x80 ≡ false = ground arith in
      let f : ltb c 0x800 ≡ false = ground arith in
      let g : ltb c 0x10000 ≡ true = ground arith in
      let bits = three_bits (c / 4096) (omega arith) in
      rw (e, f, g)
        (_, _, refl, rw (bits.0, bits.1, bits.2) (read_three-encoded do_decode c s high scalar))
  | inr (inr (inr low)) ↦
      let e : ltb c 0x80 ≡ false = ground arith in
      let f : ltb c 0x800 ≡ false = ground arith in
      let g : ltb c 0x10000 ≡ false = ground arith in
      let bits = four_bits (c / 262144) (omega arith) in
      rw (e, f, g)
        (_, _, refl, rw (bits.0, bits.1, bits.2, bits.3) (read_four-encoded c s (omega arith)))
]
