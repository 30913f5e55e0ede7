-- ===== src/Text/Utf8/Passes.antt =====
-- The two passes of setTextFromUTF8String, on any bytes.
use mathlib.Core.List.{List, [], ◌∷◌, ◌++◌}
use koreader_base.Prelude.{
  ℕ, zero, suc, ◌+◌, ◌≤◌, ◌<◌, ◌≡◌, refl, sym, ap, ◌∙◌, ◌⊎◌, inl, inr, Bool, true, false, ◌&&◌,
  ◌||◌, leb, bit_and, Bool-cases, if◌then◌else◌, arith,
}
use koreader_base.Prelude.Lists.{length, length-append}
use koreader_base.Text.Codepoint.{is_unicodepoint_rtl}
use koreader_base.Text.Utf8.Bits.{three_only}
use koreader_base.Text.Utf8.RoundTrip.{any_rtl, ended}
use koreader_base.Text.Utf8.{
  Bytes, Found, found, read_char, read_two, read_three, read_four, merge_surrogates, three_bytes,
  is_following, head_check, write_char, Pass, utf8_loop, utf8_to_unicode, set_text_from_utf8_string,
}

-- A round leaves no more than the bytes behind the first.
merge-shorter : (u : ℕ) (s : Bytes) → length (merge_surrogates u s).rest ≤ length s
unfolding merge_surrogates length
merge-shorter u [] = omega arith
merge-shorter u (_ ∷ []) = omega arith
merge-shorter u (_ ∷ _ ∷ []) = omega arith
merge-shorter u (b ∷ c ∷ d ∷ s) = ground arith

read_two-shorter : (b : ℕ) (s : Bytes) → length (read_two b s).rest ≤ length s
unfolding read_two length
read_two-shorter b [] = omega arith
read_two-shorter b (c ∷ s) = ground arith

read_three-shorter : (d : Bool) (b : ℕ) (s : Bytes) → length (read_three d b s).rest ≤ length s
unfolding read_three length
read_three-shorter do_decode b [] = omega arith
read_three-shorter do_decode b (_ ∷ []) = omega arith
read_three-shorter do_decode b (c ∷ d ∷ s) = ground (arith, merge-shorter (three_bytes b c d) s)

read_four-shorter : (b : ℕ) (s : Bytes) → length (read_four b s).rest ≤ length s
unfolding read_four length
read_four-shorter b [] = omega arith
read_four-shorter b (_ ∷ []) = omega arith
read_four-shorter b (_ ∷ _ ∷ []) = omega arith
read_four-shorter b (c ∷ d ∷ e ∷ s) = ground arith

pub read_char-shorter :
    (do_decode : Bool) (b : ℕ) (s : Bytes) → length (read_char do_decode b s).rest ≤ length s
unfolding read_char
read_char-shorter do_decode b s =
    ground (arith, read_two-shorter b s, read_three-shorter do_decode b s, read_four-shorter b s)

-- Decoding reads what counting reads, or a pair of surrogates that counting reads one by one.
abbrev SamePace : Found → Found → Type 0
SamePace decoded counted =
    (decoded.valid ≡ counted.valid)
    × ((decoded.rest ≡ counted.rest)
        ⊎ ((b : ℕ) × (s : Bytes) × (counted.rest ≡ b ∷ s)
            × ((read_char false b s).rest ≡ decoded.rest)
            × ((read_char false b s).valid ≡ true)))

-- The condition of merge_surrogates.
abbrev is_pair : ℕ → ℕ → ℕ → ℕ → Bool
is_pair u b c d =
    leb 0xD800 u
    && leb u 0xDBFF
    && (head_check b 0xF0 0xE0 && is_following c && is_following d)
    && (leb 0xDC00 (three_bytes b c d) && leb (three_bytes b c d) 0xDFFF)

is_pair-parts :
    (u b c d : ℕ)
    → is_pair u b c d ≡ true
    → (bit_and b 0xF0 ≡ 0xE0) × (is_following c ≡ true) × (is_following d ≡ true)
unfolding head_check is_following
is_pair-parts u b c d h = ground arith

read_char-three :
    (b c d : ℕ) (s : Bytes)
    → bit_and b 0xF0 ≡ 0xE0
    → is_following c ≡ true
    → is_following d ≡ true
    → read_char false b (c ∷ d ∷ s) ≡ found (three_bytes b c d) s
unfolding read_char read_three head_check
read_char-three b c d s head second third =
    let only = three_only b head in rw (only.0, only.1, head, second, third) refl

merge-SamePace : (u : ℕ) (s : Bytes) → SamePace (merge_surrogates u s) (found u s)
unfolding merge_surrogates
merge-SamePace u [] = (refl, inl refl)
merge-SamePace u (_ ∷ []) = (refl, inl refl)
merge-SamePace u (_ ∷ _ ∷ []) = (refl, inl refl)
merge-SamePace u (b ∷ c ∷ d ∷ s) = elim (Bool-cases (is_pair u b c d)) [
  | inl e ↦
      let parts = is_pair-parts u b c d e in
      rw (e, is_pair)
        (
          refl,
          inr (
            b,
            c ∷ d ∷ s,
            refl,
            ap (λ (f : Found). f.rest) (read_char-three b c d s parts.0 parts.1 parts.2),
            ap (λ (f : Found). f.valid) (read_char-three b c d s parts.0 parts.1 parts.2),
          ),
        )
  | inr e ↦ rw (e, is_pair) (refl, inl refl)
]

read_three-SamePace : (b : ℕ) (s : Bytes) → SamePace (read_three true b s) (read_three false b s)
unfolding read_three
read_three-SamePace b [] = (refl, inl refl)
read_three-SamePace b (_ ∷ []) = (refl, inl refl)
read_three-SamePace b (c ∷ d ∷ s) = elim (Bool-cases (is_following c && is_following d)) [
  | inl e ↦ rw e (merge-SamePace (three_bytes b c d) s)
  | inr e ↦ rw e (refl, inl refl)
]

read_char-SamePace : (b : ℕ) (s : Bytes) → SamePace (read_char true b s) (read_char false b s)
unfolding read_char
read_char-SamePace b s = elim (Bool-cases (head_check b 0x80 0)) [
  | inl e ↦ rw e (refl, inl refl)
  | inr e ↦ elim (Bool-cases (head_check b 0xE0 0xC0)) [
    | inl f ↦ rw (e, f) (refl, inl refl)
    | inr f ↦ elim (Bool-cases (head_check b 0xF0 0xE0)) [
      | inl g ↦ rw (e, f, g) (read_three-SamePace b s)
      | inr g ↦ rw (e, f, g) (refl, inl refl)
    ]
  ]
]

-- A round of either pass.
count_next :
    (fuel b : ℕ) (s : Bytes) (q : Pass)
    → suc (length s) ≤ fuel
    → (left : ℕ) × (fuel ≡ suc left)
      × (utf8_loop fuel false 0 (b ∷ s) q
          ≡ utf8_loop left false 0
              (read_char false b s).rest
              (write_char false (read_char false b s) q))
unfolding utf8_loop
count_next zero b s q h = absurd (omega arith)
count_next (suc fuel) b s q h = (fuel, refl, refl)

decode_next :
    (fuel n b : ℕ) (s : Bytes) (p : Pass)
    → p.ucount < n
    → utf8_loop (suc fuel) true n (b ∷ s) p
      ≡ utf8_loop fuel true n (read_char true b s).rest (write_char true (read_char true b s) p)
unfolding utf8_loop
decode_next fuel n b s p h = let goes_on : leb n p.ucount ≡ false = ground arith in rw goes_on refl

counts_up : (fuel : ℕ) (s : Bytes) (q : Pass) → q.ucount ≤ (utf8_loop fuel false 0 s q).ucount
unfolding utf8_loop write_char
counts_up zero s q = omega arith
counts_up (suc fuel) [] q = omega arith
counts_up (suc fuel) (b ∷ s) q =
    omega
      (arith, counts_up fuel (read_char false b s).rest (write_char false (read_char false b s) q))

abbrev Agree : Pass → Pass → Pass → Type 0
Agree decoded wider counted =
    (decoded ≡ wider) × (decoded.ucount ≤ counted.ucount) × (decoded.is_valid ≡ counted.is_valid)

ucount_step : (d : Bool) (f : Found) (p : Pass) → (write_char d f p).ucount ≡ p.ucount + 1
unfolding write_char
ucount_step d f p = refl

valid_step :
    (fd fc : Found) (p q : Pass)
    → fd.valid ≡ fc.valid
    → p.is_valid ≡ q.is_valid
    → (write_char true fd p).is_valid ≡ (write_char false fc q).is_valid
unfolding write_char
valid_step fd fc p q same valid = rw (same, valid) refl

valid_kept : (f : Found) (q : Pass) → f.valid ≡ true → (write_char false f q).is_valid ≡ q.is_valid
unfolding write_char
valid_kept f q ok = rw ok refl

passes-Agree :
    (f g n m : ℕ) (s : Bytes) (p q : Pass)
    → length s ≤ f
    → length s ≤ g
    → p.ucount ≤ q.ucount
    → p.is_valid ≡ q.is_valid
    → (utf8_loop g false 0 s q).ucount ≤ n
    → n ≤ m
    → Agree (utf8_loop f true n s p) (utf8_loop f true m s p) (utf8_loop g false 0 s q)
unfolding length
passes-Agree f g n m [] p q h k behind valid room wider =
    rw (ended true f n p, ended true f m p, ended false g 0 q) (refl, behind, valid)
passes-Agree zero g n m (b ∷ s) p q h k behind valid room wider = absurd (omega arith)
passes-Agree (suc f) g n m (b ∷ s) p q h k behind valid room wider =
    let (left, e, counted) = count_next g b s q k in
    let fd = read_char true b s in
    let fc = read_char false b s in
    let p' = write_char true fd p in
    let q' = write_char false fc q in
    let p_up = ucount_step true fd p in
    let q_up = ucount_step false fc q in
    let total : (utf8_loop left false 0 fc.rest q').ucount ≤ n = rw (← counted) room in
    let first = counts_up left fc.rest q' in
    let (same_valid, pace) = read_char-SamePace b s in
    let valid' : p'.is_valid ≡ q'.is_valid = valid_step fd fc p q same_valid valid in
    let shorter = read_char-shorter false b s in
    rw (decode_next f n b s p (omega arith), decode_next f m b s p (omega arith), counted)
      (elim pace [
        | inl same ↦
            let on : utf8_loop left false 0 fc.rest q' ≡ utf8_loop left false 0 fd.rest q' =
              ap (λ r. utf8_loop left false 0 r q') (sym same) in
            let size : length fd.rest ≡ length fc.rest = ap length same in
            rw on (
              passes-Agree f left n m fd.rest p' q' (omega arith) (omega arith) (omega arith) valid'
                (rw (← on) total) wider)
        | inr (b', s', at, on, ok) ↦
            let size : length fc.rest ≡ suc (length s') = ap length at in
            let (last, e', again) = count_next left b' s' q' (omega arith) in
            let q'' = write_char false (read_char false b' s') q' in
            let both : utf8_loop left false 0 fc.rest q' ≡ utf8_loop last false 0 fd.rest q'' =
              ap (λ r. utf8_loop left false 0 r q') at
              ∙ again
              ∙ ap (λ r. utf8_loop last false 0 r q'') on in
            let size' : length (read_char false b' s').rest ≡ length fd.rest = ap length on in
            let shorter' = read_char-shorter false b' s' in
            let up = ucount_step false (read_char false b' s') q' in
            rw both (
              passes-Agree f last n m fd.rest p' q'' (omega arith) (omega arith) (omega arith)
                (valid' ∙ sym (valid_kept (read_char false b' s') q' ok)) (rw (← both) total) wider)
      ])

-- What was written so far is counted, and searched for right-to-left characters.
record Written (para_direction_rtl : Bool) (p : Pass) : Type 0 where
  counted : length p.dst ≡ p.ucount
  searched : p.has_rtl ≡ (para_direction_rtl || any_rtl p.dst)

any_rtl-append :
    (cs : List ℕ) (c : ℕ) → any_rtl (cs ++ (c ∷ [])) ≡ (any_rtl cs || is_unicodepoint_rtl c)
unfolding any_rtl
any_rtl-append [] c = or_false (is_unicodepoint_rtl c)
  where
    or_false : (b : Bool) → (b || false) ≡ b
    or_false b = ground arith
any_rtl-append (x ∷ cs) c =
    rw (any_rtl-append cs c) (or_assoc (is_unicodepoint_rtl x) (any_rtl cs) (is_unicodepoint_rtl c))
  where
    or_assoc : (x y z : Bool) → (x || (y || z)) ≡ ((x || y) || z)
    or_assoc x y z = ground arith

or_nothing : (x : Bool) → x ≡ (x || false)
or_nothing x = ground arith

or_test : (x y z : Bool) → (if x || y then true else z) ≡ (x || (y || z))
or_test x y z = ground arith

write_char-Written :
    (rtl : Bool) (f : Found) (p : Pass) → Written rtl p → Written rtl (write_char true f p)
unfolding write_char length
write_char-Written rtl f p w = record {
  counted = omega (arith, length-append p.dst (f.char ∷ []), w.counted);
  searched =
      rw (w.searched, any_rtl-append p.dst f.char)
        (or_test rtl (any_rtl p.dst) (is_unicodepoint_rtl f.char));
}

utf8_loop-Written :
    (rtl : Bool) (fuel n : ℕ) (s : Bytes) (p : Pass)
    → Written rtl p
    → Written rtl (utf8_loop fuel true n s p)
unfolding utf8_loop
utf8_loop-Written rtl zero n s p w = w
utf8_loop-Written rtl (suc fuel) n [] p w = w
utf8_loop-Written rtl (suc fuel) n (b ∷ s) p w = elim (Bool-cases (leb n p.ucount)) [
  | inl full ↦ rw full w
  | inr free ↦
      rw free (utf8_loop-Written rtl fuel n _ _ (write_char-Written rtl (read_char true b s) p w))
]

-- On any string, well formed or not, the count of the first pass is room enough for the second:
-- setTextFromUTF8String writes at most as many characters as it allocated slots for, and decoding
-- into more slots would give the same text. m_length is the number of characters written, the two
-- passes agree on m_is_valid, and m_has_rtl is set if and only if the paragraph direction is
-- right-to-left or one of the characters is.
pub set_text_from_utf8_string-FitsRoom :
    (rtl : Bool) (src : Bytes)
    → let t = set_text_from_utf8_string rtl src in
      let counted = utf8_to_unicode false 0 src false in
      (length t.m_text ≡ t.m_length)
      × (t.m_length ≤ counted.ucount)
      × ((more : ℕ) → counted.ucount ≤ more → (utf8_to_unicode true more src rtl).dst ≡ t.m_text)
      × (t.m_is_valid ≡ counted.is_valid)
      × (t.m_has_rtl ≡ (rtl || any_rtl t.m_text))
unfolding set_text_from_utf8_string utf8_to_unicode length any_rtl
set_text_from_utf8_string-FitsRoom rtl src =
    let size = length src in
    let start : Bool → Pass = λ r. record { dst = []; ucount = 0; is_valid = true; has_rtl = r } in
    let counted = utf8_loop size false 0 src (start false) in
    let agree : (more : ℕ)
        → counted.ucount ≤ more
        → Agree (utf8_loop size true counted.ucount src (start rtl))
            (utf8_loop size true more src (start rtl)) counted =
      λ more h.
        passes-Agree size size counted.ucount more src (start rtl) (start false) (omega arith)
          (omega arith) (omega arith) refl (omega arith) h in
    let written =
      utf8_loop-Written rtl size counted.ucount src (start rtl)
        (record { counted = refl; searched = or_nothing rtl }) in
    let here = agree counted.ucount (omega arith) in
    (
      written.counted,
      here.1,
      λ more h. ap (λ (p : Pass). p.dst) (sym (agree more h).0),
      here.2,
      written.searched,
    )
