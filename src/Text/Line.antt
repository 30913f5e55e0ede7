-- ===== src/Text/Line.antt =====
-- XText::makeLine in xtext.cpp: one line, from the widths and flags that measure() left.
pub mod Candidate
pub mod Breaks
pub mod Loop
pub mod Laws
pub mod Cover
use koreader_base.Prelude.{
  ℕ, zero, suc, ◌+◌, ◌-◌, Bool, true, false, ◌&&◌, ◌||◌, Option, none, some, ltb, leb, ◌==◌,
  if◌then◌else◌,
}
use mathlib.Core.Bool.{not}
use koreader_base.Prelude.Int.{ℤ, pos, ◌+ℤ◌, ◌-ℤ◌, ◌*ℤ◌, ◌/ℤ◌, ltb_ℤ, leb_ℤ}

-- The bits of xtext_charinfo_t.flags, a field each, without CHAR_ in front.
pub record Flags : Type 0 where
  pub can_wrap_after : Bool
  pub must_break_after : Bool
  pub skip_on_break : Bool
  pub can_extend_width : Bool
  pub can_extend_width_fallback : Bool
  pub is_cluster_tail : Bool
  pub is_rtl : Bool
  pub script_change : Bool
  pub is_para_start : Bool
  pub is_para_end : Bool
  pub para_is_rtl : Bool
  pub is_unsafe_to_break_before : Bool
  pub is_tab : Bool

pub record CharInfo : Type 0 where
  pub flags : Flags
  pub width : ℤ

-- The arrays of a measured text, and the answer of getHyphenWidth.
pub record Measured : Type 0 where
  pub m_length : ℕ
  pub m_text : ℕ → ℕ
  pub m_charinfo : ℕ → CharInfo
  pub m_hyphen_width : ℤ

abbrev pub softhyphen_char : ℕ
softhyphen_char = 0x00AD

-- The arguments of makeLine.
pub record Request : Type 0 where
  pub start : ℕ
  pub targeted_width : ℤ
  pub no_line_breaking_rules : Bool
  pub tabstop_width : ℤ
  pub expansion_pct : ℤ

-- Its variables. `candidate_end` and `next_line_start` are one more than in the code, where -1 is
-- for none: they are the indices that Lua gets.
pub record Progress : Type 0 where
  pub next_line_start : ℕ
  pub candidate_end : ℕ
  pub candidate_line_width : ℤ
  pub extendable_width : ℤ
  pub candidate_is_soft_hyphen : Bool
  pub forced_break : Bool
  pub has_tabs : Bool
  pub line_width : ℤ
  pub i : ℕ

-- `flags` of the character at `i`.
unfoldable pub flags_at : Measured → Request → ℕ → Flags
flags_at x r i =
    let flags = (x.m_charinfo i).flags in
    if r.no_line_breaking_rules then record flags { can_wrap_after = true } else flags

-- `new_line_width`, up to the next tab stop behind a tab.
unfoldable pub new_line_width : Measured → Request → Progress → ℤ
unfolding flags_at ◌+ℤ◌ ◌-ℤ◌ ◌*ℤ◌ ◌/ℤ◌
new_line_width x r p =
    let char_width = (x.m_charinfo p.i).width in
    let added = p.line_width +ℤ char_width in
    if (flags_at x r p.i).is_tab && ltb_ℤ (pos 0) r.tabstop_width
    then ((added -ℤ char_width) /ℤ r.tabstop_width +ℤ pos 1) *ℤ r.tabstop_width
    else added

-- The character at `i` is the new candidate for the end of the line.
abbrev pub end_at : ℤ → Bool → Progress → Progress
end_at width soft_hyphen p = record p {
  candidate_line_width = width;
  candidate_end = p.i + 1;
  next_line_start = p.i + 2;
  candidate_is_soft_hyphen = soft_hyphen;
}

-- `!exceeding && !avoid`: whether a soft hyphen is to be tried.
unfoldable pub tries_hyphen : Request → Bool → Progress → Bool
unfolding ◌+ℤ◌ ◌*ℤ◌ ◌/ℤ◌
tries_hyphen r exceeding p =
    let avoid =
      not exceeding
      && ltb_ℤ (pos 0) r.expansion_pct
      && (not p.candidate_is_soft_hyphen
          && leb_ℤ r.targeted_width
              (p.candidate_line_width +ℤ p.extendable_width *ℤ r.expansion_pct /ℤ pos 100)) in
    not exceeding && not avoid

-- The branch of a soft hyphen, with `exceeding` as it leaves it.
unfoldable pub try_soft_hyphen : Measured → Request → ℤ → Bool → Progress → Progress × Bool
unfolding tries_hyphen ◌+ℤ◌
try_soft_hyphen x r new_width exceeding p =
    let with_hyphen = new_width +ℤ x.m_hyphen_width in
    if tries_hyphen r exceeding p
    then (if ltb_ℤ r.targeted_width with_hyphen
        then (p, true)
        else (end_at with_hyphen true p, false))
    else (p, exceeding)

-- What is done where the line may or must break after the character at `i`.
unfoldable pub try_break : Measured → Request → ℤ → Bool → Progress → Progress × Bool
unfolding flags_at try_soft_hyphen
try_break x r new_width exceeding p =
    let flags = flags_at x r p.i in
    if flags.can_wrap_after || flags.must_break_after
    then (if flags.skip_on_break
        then (
          record p {
            candidate_line_width = p.line_width;
            candidate_end = if ltb r.start p.i then p.i else r.start + 1;
            next_line_start = p.i + 2;
            candidate_is_soft_hyphen = false;
          },
          exceeding,
        )
        else if x.m_text p.i == softhyphen_char
        then try_soft_hyphen x r new_width exceeding p
        else (if exceeding then p else end_at new_width false p, exceeding))
    else (p, exceeding)

-- A round up to the breaks, with `exceeding` as they leave it. It resets `forced_break`.
unfoldable pub try_round : Measured → Request → Progress → Progress × Bool
unfolding flags_at new_line_width try_break
try_round x r p =
    let new_width = new_line_width x r p in
    try_break x r new_width (ltb_ℤ r.targeted_width new_width)
      (record p { forced_break = false; has_tabs = p.has_tabs || (flags_at x r p.i).is_tab })

-- The rest of a round that does not break: on to the next character.
unfoldable pub step_on : Measured → Request → Progress → Progress → Progress
unfolding flags_at new_line_width ◌+ℤ◌
step_on x r p tried = record tried {
  line_width = new_line_width x r p;
  extendable_width =
      if (flags_at x r p.i).can_extend_width
      then p.extendable_width +ℤ (x.m_charinfo p.i).width
      else p.extendable_width;
  i = p.i + 1;
}

-- The loop, with fuel.
unfoldable pub make_line_loop : ℕ → Measured → Request → Progress → Progress
unfolding flags_at try_round step_on
make_line_loop zero x r p = p
make_line_loop (suc fuel) x r p =
    let tried = try_round x r p in
    let rest = make_line_loop fuel x r (step_on x r p tried.0) in
    if ltb p.i x.m_length
    then (if (flags_at x r p.i).must_break_after
        then record tried.0 { forced_break = true }
        else if tried.1
        then tried.0
        else rest)
    else p

-- The table that Lua gets; a flag that is not pushed is false.
pub record Line : Type 0 where
  pub offset : ℕ
  pub end_offset : ℕ
  pub can_be_justified : Bool
  pub width : ℤ
  pub targeted_width : ℤ
  pub no_allowed_break_met : Bool
  pub has_tabs : Bool
  pub next_start_offset : Option ℕ
  pub hard_newline_at_eot : Bool

unfoldable pub push_line : Measured → Request → Bool → Bool → Progress → Line
push_line x r can_be_justified no_allowed_break_met p = record {
  offset = r.start + 1;
  end_offset = p.candidate_end;
  can_be_justified = can_be_justified;
  width = p.candidate_line_width;
  targeted_width = r.targeted_width;
  no_allowed_break_met = no_allowed_break_met;
  has_tabs = p.has_tabs;
  next_start_offset =
      if ltb 0 p.next_line_start && leb p.next_line_start x.m_length
      then some p.next_line_start
      else none;
  hard_newline_at_eot =
      not (ltb 0 p.next_line_start && leb p.next_line_start x.m_length)
      && (p.forced_break && (p.next_line_start == x.m_length + 1));
}

-- After the loop.
unfoldable pub end_line : Measured → Request → Progress → Line
unfolding push_line
end_line x r p =
    if p.forced_break
    then (if p.i == r.start
        then push_line x r false false
            (record p { candidate_end = r.start; candidate_line_width = pos 0 })
        else push_line x r false false p)
    else if p.candidate_end == 0 || (p.i == x.m_length)
    then push_line x r (not (p.i == x.m_length)) (not (p.i == x.m_length)) (record p {
      candidate_end = p.i;
      candidate_line_width = p.line_width;
      next_line_start = p.i + 1;
    })
    else push_line x r true false p

abbrev pub first_progress : Request → Progress
first_progress r = record {
  next_line_start = 0;
  candidate_end = 0;
  candidate_line_width = pos 0;
  extendable_width = pos 0;
  candidate_is_soft_hyphen = true;
  forced_break = false;
  has_tabs = false;
  line_width = pos 0;
  i = r.start;
}

-- Every round goes a character on, so as many rounds as characters are enough.
unfoldable pub make_line : Measured → Request → Line
unfolding make_line_loop end_line
make_line x r = end_line x r (make_line_loop (suc x.m_length - r.start) x r (first_progress r))

-- The arguments of XText_makeLine, the method of Lua: an offset from 1 on and a width. `none` is
-- an error that luaL_argcheck raises.
unfoldable pub xtext_make_line : Measured → ℤ → ℤ → Bool → ℤ → ℤ → Option Line
unfolding make_line
xtext_make_line x (pos (suc start)) width rules tabstop_width pct =
    if leb (suc start) x.m_length && ltb_ℤ (pos 0) width
    then some (
        make_line x (record {
          start = start;
          targeted_width = width;
          no_line_breaking_rules = rules;
          tabstop_width = tabstop_width;
          expansion_pct = pct;
        }))
    else none
xtext_make_line x start width rules tabstop_width pct = none
