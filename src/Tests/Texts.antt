-- ===== src/Tests/Texts.antt =====
-- Texts: broken UTF-8, a right-to-left text, and the two words "ab cd" on lines three characters wide.
use mathlib.Core.List.{List, [], ◌∷◌}
use koreader_base.Prelude.{
  ℕ, ◌+◌, ◌≤◌, ◌<◌, ◌≡◌, ◌↔◌, ◌⊎◌, inl, inr, Bool, true, false, ◌||◌, none, some, ◌==◌, ltb, refl,
  if◌then◌else◌, arith,
}
use koreader_base.Prelude.Int.{ℤ, pos, ◌+ℤ◌, ◌≤ℤ◌, ◌<ℤ◌}
use koreader_base.Prelude.Lists.{length}
use koreader_base.Text.Bidi.Laws.{check_bidi-IsDirected}
use koreader_base.Text.Bidi.Paragraph.{IsDirected, IsLargest}
use koreader_base.Text.Bidi.{Directed, par_ltr, par_rtl, check_bidi}
use koreader_base.Text.Codepoint.{is_unicodepoint_rtl, IsListed, is_unicodepoint_rtl-IsListed}
use koreader_base.Text.Line.Breaks.{FitsAlone}
use koreader_base.Text.Line.Candidate.{MustBreakSkips}
use koreader_base.Text.Line.Cover.{
  InRange, xtext_make_line-IsCut, from, make_lines, CoversText, make_lines-CoversText,
}
use koreader_base.Text.Line.Laws.{IsCut}
use koreader_base.Text.Line.{Measured, Request, new_line_width, make_line, xtext_make_line}
use koreader_base.Text.Measure.Expected.{IsMarked}
use koreader_base.Text.Measure.Marks.{
  SameMarks, SameMarks-refl, measure-IsMarked, measure-MustBreakSkips,
}
use koreader_base.Text.Measure.Segments.{Tiles, measure-Tiles}
use koreader_base.Text.Measure.{Analysed, must_break, allow_break, no_break, measure}
use koreader_base.Text.Select.Segment.{IsChosen, IsNoBetter, xtext_get_segment_from_end-IsChosen}
use koreader_base.Text.Select.Word.{
  AroundSelection, window, xtext_get_selected_word_indices-AroundSelection,
  xtext_get_selected_word_indices-undefined,
}
use koreader_base.Text.Select.{
  indices, undefined_read, xtext_get_segment_from_end, xtext_get_selected_word_indices,
}
use koreader_base.Text.Utf8.Passes.{set_text_from_utf8_string-FitsRoom}
use koreader_base.Text.Utf8.RoundTrip.{
  encode_text, split_text, AllScalar, any_rtl, text_of, set_text_from_utf8_string-encode_text,
  set_text_from_utf8_chars-eq-string,
}
use koreader_base.Text.Utf8.{
  Bytes, utf8_to_unicode, set_text_from_utf8_string, set_text_from_utf8_chars,
}

-- "A", a first byte of two without its second, and a pair of surrogates in WTF-8.
abbrev broken : Bytes
broken = 0x41 ∷ 0xC3 ∷ 0xED ∷ 0xA0 ∷ 0xBD ∷ 0xED ∷ 0xB8 ∷ 0x80 ∷ []

FitsRoom_example :
    let t = set_text_from_utf8_string false broken in
    let counted = utf8_to_unicode false 0 broken false in
    (length t.m_text ≡ t.m_length)
    × (t.m_length ≤ counted.ucount)
    × ((more : ℕ) → counted.ucount ≤ more → (utf8_to_unicode true more broken false).dst ≡ t.m_text)
    × (t.m_is_valid ≡ counted.is_valid)
    × (t.m_has_rtl ≡ (false || any_rtl t.m_text))
FitsRoom_example = set_text_from_utf8_string-FitsRoom false broken

-- A letter, an alef, the euro sign and a character of four bytes.
abbrev mixed : List ℕ
mixed = 0x61 ∷ 0x5D0 ∷ 0x20AC ∷ 0x1F600 ∷ []

mixed-AllScalar : AllScalar mixed
mixed-AllScalar = (
  inl (omega arith),
  (inl (omega arith), (inl (omega arith), (inr (omega arith, omega arith), omega arith))),
)

encode_text_example : set_text_from_utf8_string false (encode_text mixed) ≡ text_of false mixed
encode_text_example = set_text_from_utf8_string-encode_text false mixed mixed-AllScalar

utf8_chars_example :
    set_text_from_utf8_chars true (split_text mixed)
    ≡ set_text_from_utf8_string true (encode_text mixed)
utf8_chars_example = set_text_from_utf8_chars-eq-string true mixed mixed-AllScalar

unicodepoint_rtl_example : (is_unicodepoint_rtl 0x5D0 ≡ true) ↔ IsListed 0x5D0
unicodepoint_rtl_example = is_unicodepoint_rtl-IsListed 0x5D0

-- "ab cd" with a line break behind it.
abbrev two_words : Analysed
two_words = record {
  m_length = 6;
  m_text = λ i. if i == 2 then 0x20 else if i == 5 then 0x0A else 0x61;
  m_has_bidi = false;
  m_bidi_levels = λ _. 0;
  break_before = λ i. if i == 3 then allow_break else if i == 6 then must_break else no_break;
  script = λ _. none;
  segment_width = λ s. none;
}

-- Every character 10 pixels wide.
abbrev measured : Measured
measured = record {
  m_length = 6;
  m_text = two_words.m_text;
  m_charinfo = λ i. record { flags = (measure two_words).flags i; width = pos 10 };
  m_hyphen_width = pos 5;
}

IsMarked_example :
    IsMarked (two_words.m_text 2) (two_words.break_before 3) ((measure two_words).flags 2)
IsMarked_example = measure-IsMarked two_words 2 (omega arith)

kept : (i : ℕ) → SameMarks (measured.m_charinfo i).flags ((measure two_words).flags i)
kept i = SameMarks-refl ((measure two_words).flags i)

MustBreakSkips_example : MustBreakSkips measured
MustBreakSkips_example = measure-MustBreakSkips two_words measured (omega arith) kept

skips : MustBreakSkips measured
skips i must = measure-MustBreakSkips two_words measured (omega arith) kept i must

Tiles_example : Tiles two_words 0 (measure two_words).segments 6
Tiles_example = measure-Tiles two_words (omega arith)

make_line_example :
    ((pos 1 <ℤ pos 1 ⊎ (pos 6 <ℤ pos 1) ⊎ pos 30 ≤ℤ pos 0)
      × (xtext_make_line measured (pos 1) (pos 30) false (pos 0) (pos 0) ≡ none))
    ⊎ ((r : Request) × InRange measured (pos 1) (pos 30)
        × (pos 1 ≡ pos (r.start + 1))
        × (r.targeted_width ≡ pos 30)
        × (xtext_make_line measured (pos 1) (pos 30) false (pos 0) (pos 0)
            ≡ some (make_line measured r))
        × IsCut measured r (make_line measured r))
make_line_example = xtext_make_line-IsCut measured (pos 1) (pos 30) false (pos 0) (pos 0) skips

abbrev narrow : Request
narrow = record {
  start = 0;
  targeted_width = pos 30;
  no_line_breaking_rules = false;
  tabstop_width = pos 0;
  expansion_pct = pos 0;
}

narrow_fits : (i : ℕ) → i < 6 → FitsAlone measured (from i narrow)
unfolding new_line_width ◌+ℤ◌
narrow_fits i h = record { char_fits = ground arith; hyphen_fits = λ soft. ground arith }

make_lines_example : CoversText measured narrow 0 (make_lines 6 measured narrow)
make_lines_example =
    make_lines-CoversText measured narrow skips narrow_fits (omega arith) (omega arith)

segment_from_end_example :
    (b : ℕ) × (start : ℕ) × (width : ℤ) × (xtext_get_segment_from_end measured (pos 25)
      ≡ some (start + 1, width))
    × IsChosen measured (pos 25) b start width
    × ((k : ℕ) → IsNoBetter measured (pos 25) b k)
segment_from_end_example = xtext_get_segment_from_end-IsChosen measured (pos 25) (omega arith)

-- Words of four characters.
abbrev word_breaks : ℕ → ℕ → ℕ → Bool
word_breaks ctx_start ctx_end p = p == 3 || (p == 7)

selected_word_example :
    (first : ℕ) × (last : ℕ) × (xtext_get_selected_word_indices 12 word_breaks 6 7 3
      ≡ indices first last)
    × AroundSelection (window 12 word_breaks 6 7 3) 6 7 first last
selected_word_example =
    xtext_get_selected_word_indices-AroundSelection 12 word_breaks 6 7 3 (omega arith) (omega arith)
      (omega arith) (omega arith)

undefined_read_example : xtext_get_selected_word_indices 12 word_breaks 10 1 2 ≡ undefined_read
undefined_read_example =
    xtext_get_selected_word_indices-undefined 12 word_breaks 10 1 2 (omega arith) (omega arith)
      (omega arith) (omega arith)

-- "ab", a line feed, and three characters that FriBidi finds right-to-left.
abbrev two_paragraphs : Directed
two_paragraphs = record {
  m_length = 6;
  m_has_rtl = true;
  m_auto_para_direction = true;
  m_para_direction_rtl = false;
  is_separator = λ k. k == 2;
  embedding = λ specified start size.
      if start == 0
      then record { level = 0; para_type = par_ltr }
      else record { level = 1; para_type = par_rtl };
}

check_bidi_example :
    IsDirected two_paragraphs (check_bidi two_paragraphs).0 4
    × IsLargest two_paragraphs (check_bidi two_paragraphs).0
    × ((check_bidi two_paragraphs).1 ≡ ltb 1 (check_bidi two_paragraphs).0.max_level)
check_bidi_example = check_bidi-IsDirected two_paragraphs refl 4 (omega arith)
