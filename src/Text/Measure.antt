-- ===== src/Text/Measure.antt =====
-- XText::measure in xtext.cpp: the flags of each character, and the segments that it hands to
-- measureSegment. What libunibreak, FriBidi and HarfBuzz answer is in the record `Analysed`; what
-- measureSegment writes itself, the widths and three flags of shaping, is not part of the model.
pub mod Expected
pub mod Marks
pub mod Segments
use koreader_base.Prelude.{
  ℕ, suc, ◌+◌, ◌-◌, ◌%◌, ◌≤◌, Bool, true, false, ◌&&◌, ◌||◌, Option, none, some, ltb, leb, ◌==◌,
  if◌then◌else◌,
}
use mathlib.Core.Bool.{not}
use mathlib.Core.List.{List, [], ◌∷◌, ◌++◌}
use koreader_base.Prelude.Int.{ℤ, pos, ◌+ℤ◌}
use koreader_base.Prelude.Loops.{for_range}
use koreader_base.Text.Line.{Flags}

-- The answers of lb_process_next_char that the code tells apart.
pub data Break : Type 0 where
  allow_break must_break no_break : Break

-- HINT_BEGINS_PARAGRAPH, HINT_ENDS_PARAGRAPH and HINT_DIRECTION_IS_RTL, with the range.
pub record Segment : Type 0 where
  pub start : ℕ
  pub end : ℕ
  pub begins_paragraph : Bool
  pub ends_paragraph : Bool
  pub direction_is_rtl : Bool

-- A text with what the libraries say of it: the break before the character `i`, or before the end
-- of the text; its bidi level; its script, `none` for common, inherited and unknown; and the width
-- of a segment, `none` for NOT_MEASURED.
pub record Analysed : Type 0 where
  pub m_length : ℕ
  pub m_text : ℕ → ℕ
  pub m_has_bidi : Bool
  pub m_bidi_levels : ℕ → ℕ
  pub break_before : ℕ → Break
  pub script : ℕ → Option ℕ
  pub segment_width : Segment → Option ℤ

-- The variables of the loop, with the flags of m_charinfo and the segments in order.
pub record Measuring : Type 0 where
  pub flags : ℕ → Flags
  pub segments : List Segment
  pub final_width : ℤ
  pub prev_para_start : ℕ
  pub start : ℕ
  pub last_bidi_level : ℕ
  pub prev_script : Option ℕ
  pub m_has_multiple_scripts : Bool

-- calloc
abbrev pub no_flags : Flags
no_flags = record {
  can_wrap_after = false;
  must_break_after = false;
  skip_on_break = false;
  can_extend_width = false;
  can_extend_width_fallback = false;
  is_cluster_tail = false;
  is_rtl = false;
  script_change = false;
  is_para_start = false;
  is_para_end = false;
  para_is_rtl = false;
  is_unsafe_to_break_before = false;
  is_tab = false;
}

abbrev pub set_at : ℕ → (Flags → Flags) → (ℕ → Flags) → ℕ → Flags
set_at k change flags j = if j == k then change (flags j) else flags j

abbrev is_skipped_space : ℕ → Bool
is_skipped_space c = c == 0x20 || c == 0x3000 || (leb 0x2000 c && leb c 0x200B)

-- A tab is marked so whatever the break.
abbrev pub mark_tab : Flags → Flags
mark_tab f = record f {
  can_wrap_after = true;
  skip_on_break = true;
  can_extend_width = true;
  is_tab = true;
}

-- The flags of a character from what it is and the break behind it.
unfoldable pub mark_break : ℕ → Break → Flags → Flags
mark_break c allow_break f = if c == 0x09 then mark_tab f else record f {
  can_wrap_after = true;
  skip_on_break = is_skipped_space c || f.skip_on_break;
  can_extend_width = c == 0x20 || f.can_extend_width;
  can_extend_width_fallback = true;
}
mark_break c must_break f =
    if c == 0x09 then mark_tab f else record f { must_break_after = true; skip_on_break = true }
mark_break c no_break f =
    if c == 0x09
    then mark_tab f
    else record f { can_extend_width = c == 0x00A0 || f.can_extend_width }

-- `line_break`: a must break, but not behind a tab.
unfoldable pub breaks_line : Analysed → ℕ → Bool
breaks_line a i =
    if ltb 0 i
    then (if a.m_text (i - 1) == 0x09
        then false
        else elim (a.break_before i) [ must_break ↦ true | _ ↦ false ])
    else false

-- `new_bidi_level`, and the `last_bidi_level` that this round compares it with.
unfoldable pub bidi_level : Analysed → ℕ → ℕ → ℕ
bidi_level a i last =
    if a.m_has_bidi then (if ltb i a.m_length then a.m_bidi_levels i else last) else 0

unfoldable pub level_before : Analysed → ℕ → ℕ → ℕ
unfolding bidi_level
level_before a i last = if a.m_has_bidi && (i == 0) then bidi_level a i last else last

unfoldable pub bidi_level_changed : Analysed → ℕ → ℕ → Bool
unfolding bidi_level
bidi_level_changed a i last = a.m_has_bidi && (not (i == 0) && not (bidi_level a i last == last))

-- `script_changed`
unfoldable pub script_changed : Analysed → ℕ → Option ℕ → Bool
script_changed a i prev = ltb i a.m_length && elim (a.script i) [
  | none ↦ false
  | some s ↦ elim prev [ none ↦ false | some p ↦ not (s == p) ]
]

unfoldable pub mark_script : Analysed → ℕ → Measuring → ℕ → Flags
unfolding script_changed
mark_script a i m =
    if script_changed a i m.prev_script
    then set_at i (λ f. record f { script_change = true }) m.flags
    else m.flags

-- The flags after the script and the break of a round.
unfoldable pub mark_flags : Analysed → ℕ → Measuring → ℕ → Flags
unfolding mark_script mark_break
mark_flags a i m =
    if ltb 0 i
    then set_at (i - 1) (mark_break (a.m_text (i - 1)) (a.break_before i)) (mark_script a i m)
    else mark_script a i m

-- The part of a round before the segments: the script, the level and the break.
unfoldable pub mark_round : Analysed → ℕ → Measuring → Measuring
unfolding script_changed mark_flags level_before
mark_round a i m = record m {
  flags = mark_flags a i m;
  last_bidi_level = level_before a i m.last_bidi_level;
  prev_script =
      if ltb i a.m_length
      then (elim (a.script i) [ none ↦ m.prev_script | some s ↦ some s ])
      else m.prev_script;
  m_has_multiple_scripts = script_changed a i m.prev_script || m.m_has_multiple_scripts;
}

-- Whether the round `i` ends the segment, from the state that it started with.
unfoldable pub ends_segment : Analysed → ℕ → Measuring → Bool
unfolding script_changed breaks_line bidi_level_changed
ends_segment a i m =
    ltb m.start i
    && (bidi_level_changed a i m.last_bidi_level
        || script_changed a i m.prev_script
        || breaks_line a i
        || (i == a.m_length))

-- The segment that ends at the round `i`.
unfoldable pub segment_at : Analysed → ℕ → Measuring → Segment
unfolding breaks_line
segment_at a i m = record {
  start = m.start;
  end = if breaks_line a i then i - 1 else i;
  begins_paragraph = m.start == m.prev_para_start;
  ends_paragraph = breaks_line a i || (i == a.m_length);
  direction_is_rtl = a.m_has_bidi && (m.last_bidi_level % 2 == 1);
}

-- The flags of the first character of a paragraph, and of its last.
unfoldable pub mark_para_start : Analysed → ℕ → Measuring → ℕ → Flags
unfolding segment_at
mark_para_start a i m =
    if (segment_at a i m).begins_paragraph
    then set_at m.start (λ f. record f { is_para_start = true }) m.flags
    else m.flags

unfoldable pub mark_paragraph : Analysed → ℕ → Measuring → ℕ → Flags
unfolding segment_at breaks_line mark_para_start
mark_paragraph a i m =
    if (segment_at a i m).ends_paragraph
    then set_at (if breaks_line a i && leb (m.start + 2) i then i - 2 else i - 1)
        (λ f. record f { is_para_end = true }) (mark_para_start a i m)
    else mark_para_start a i m

abbrev add_width : ℤ → Option ℤ → ℤ
add_width total none = total
add_width total (some w) = total +ℤ w

unfoldable pub end_segment : Analysed → ℕ → Measuring → Measuring
unfolding segment_at mark_paragraph breaks_line ◌+ℤ◌
end_segment a i m =
    let s = segment_at a i m in
    record m {
      flags = mark_paragraph a i m;
      segments = m.segments ++ (s ∷ []);
      final_width = add_width m.final_width (a.segment_width s);
      start = i;
      prev_para_start = if breaks_line a i then i else m.prev_para_start;
    }

unfoldable pub measure_round : Analysed → ℕ → Measuring → Measuring
unfolding mark_round ends_segment end_segment bidi_level
measure_round a i m =
    let marked = mark_round a i m in
    record (if ends_segment a i m then end_segment a i marked else marked) {
      last_bidi_level = bidi_level a i m.last_bidi_level;
    }

abbrev pub unmeasured : Measuring
unmeasured = record {
  flags = λ _. no_flags;
  segments = [];
  final_width = pos 0;
  prev_para_start = 0;
  start = 0;
  last_bidi_level = 0;
  prev_script = none;
  m_has_multiple_scripts = false;
}

-- `for (int i = 0; i <= m_length; i++)`, for a text that is not empty.
unfoldable pub measure : Analysed → Measuring
unfolding measure_round for_range
measure a =
    if a.m_length == 0
    then unmeasured
    else for_range (a.m_length + 1) 0 (measure_round a) unmeasured
