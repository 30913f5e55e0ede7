-- ===== src/Text/Measure/Marks.antt =====
-- The flags for breaking lines that measure leaves on every character.
use koreader_base.Prelude.{
  ℕ, zero, suc, ◌+◌, ◌-◌, ◌≤◌, ◌<◌, ◌≡◌, refl, ◌≢◌, sym, ◌∙◌, ◌⊎◌, inl, inr, true, false, ◌&&◌, ltb,
  leb, ◌==◌, if◌then◌else◌, arith, Bool-cases, ==_iff,
}
use koreader_base.Prelude.Loops.{for_range_inv}
use koreader_base.Text.Line.Candidate.{MustBreakSkips}
use koreader_base.Text.Line.{Flags, Measured}
use koreader_base.Text.Measure.Expected.{IsMarked, mark_break-IsMarked}
use koreader_base.Text.Measure.{
  Break, allow_break, must_break, no_break, Analysed, Measuring, no_flags, set_at, mark_tab,
  mark_break, breaks_line, segment_at, script_changed, mark_script, mark_flags, mark_para_start,
  mark_round, mark_paragraph, ends_segment, end_segment, measure_round, unmeasured, measure,
}

-- The flags that the break behind a character sets.
pub record SameMarks (f g : Flags) : Type 0 where
  pub wrap : f.can_wrap_after ≡ g.can_wrap_after
  pub must : f.must_break_after ≡ g.must_break_after
  pub skip : f.skip_on_break ≡ g.skip_on_break
  pub extend : f.can_extend_width ≡ g.can_extend_width
  pub fallback : f.can_extend_width_fallback ≡ g.can_extend_width_fallback
  pub tab : f.is_tab ≡ g.is_tab

pub SameMarks-refl : (f : Flags) → SameMarks f f
SameMarks-refl f = record {
  wrap = refl;
  must = refl;
  skip = refl;
  extend = refl;
  fallback = refl;
  tab = refl;
}

chain : {f g h : Flags} → SameMarks f g → SameMarks g h → SameMarks f h
chain p q = record {
  wrap = p.wrap ∙ q.wrap;
  must = p.must ∙ q.must;
  skip = p.skip ∙ q.skip;
  extend = p.extend ∙ q.extend;
  fallback = p.fallback ∙ q.fallback;
  tab = p.tab ∙ q.tab;
}

tab_marks : {f g : Flags} → SameMarks f g → SameMarks (mark_tab f) (mark_tab g)
tab_marks s = record {
  wrap = refl;
  must = s.must;
  skip = refl;
  extend = refl;
  fallback = s.fallback;
  tab = refl;
}

set_at-SameMarks :
    (k : ℕ) (change : Flags → Flags) (flags : ℕ → Flags) (j : ℕ)
    → ((f : Flags) → SameMarks (change f) f)
    → SameMarks (set_at k change flags j) (flags j)
set_at-SameMarks k change flags j kept = elim (Bool-cases (j == k)) [
  | inl e ↦ rw e (kept (flags j))
  | inr e ↦ rw e (SameMarks-refl (flags j))
]

mark_break-SameMarks :
    (c : ℕ) (brk : Break) (f g : Flags)
    → SameMarks f g
    → SameMarks (mark_break c brk f) (mark_break c brk g)
unfolding mark_break
mark_break-SameMarks c allow_break f g s = elim (Bool-cases (c == 0x09)) [
  | inl e ↦ rw e (tab_marks s)
  | inr e ↦ rw e (record {
    wrap = refl;
    must = s.must;
    skip = rw (s.skip) refl;
    extend = rw (s.extend) refl;
    fallback = refl;
    tab = s.tab;
  })
]
mark_break-SameMarks c must_break f g s = elim (Bool-cases (c == 0x09)) [
  | inl e ↦ rw e (tab_marks s)
  | inr e ↦ rw e (record {
    wrap = s.wrap;
    must = refl;
    skip = refl;
    extend = s.extend;
    fallback = s.fallback;
    tab = s.tab;
  })
]
mark_break-SameMarks c no_break f g s = elim (Bool-cases (c == 0x09)) [
  | inl e ↦ rw e (tab_marks s)
  | inr e ↦ rw e (record {
    wrap = s.wrap;
    must = s.must;
    skip = s.skip;
    extend = rw (s.extend) refl;
    fallback = s.fallback;
    tab = s.tab;
  })
]

start_kept : (f : Flags) → SameMarks (record f { is_para_start = true }) f
start_kept f = record {
  wrap = refl;
  must = refl;
  skip = refl;
  extend = refl;
  fallback = refl;
  tab = refl;
}

end_kept : (f : Flags) → SameMarks (record f { is_para_end = true }) f
end_kept f = record {
  wrap = refl;
  must = refl;
  skip = refl;
  extend = refl;
  fallback = refl;
  tab = refl;
}

script_kept : (f : Flags) → SameMarks (record f { script_change = true }) f
script_kept f = record {
  wrap = refl;
  must = refl;
  skip = refl;
  extend = refl;
  fallback = refl;
  tab = refl;
}

-- Where a paragraph starts or ends is marked by other flags.
mark_para_start-SameMarks :
    (a : Analysed) (i : ℕ) (m : Measuring) (j : ℕ) → SameMarks (mark_para_start a i m j) (m.flags j)
unfolding mark_para_start
mark_para_start-SameMarks a i m j = elim (Bool-cases (segment_at a i m).begins_paragraph) [
  | inl e ↦
      rw e (set_at-SameMarks m.start (λ f. record f { is_para_start = true }) m.flags j start_kept)
  | inr e ↦ rw e (SameMarks-refl (m.flags j))
]

mark_paragraph-SameMarks :
    (a : Analysed) (i : ℕ) (m : Measuring) (j : ℕ) → SameMarks (mark_paragraph a i m j) (m.flags j)
unfolding mark_paragraph
mark_paragraph-SameMarks a i m j =
    let started = mark_para_start-SameMarks a i m j in
    let last = if breaks_line a i && leb (m.start + 2) i then i - 2 else i - 1 in
    elim (Bool-cases (segment_at a i m).ends_paragraph) [
      | inl e ↦ rw e (
          chain
            (set_at-SameMarks last (λ f. record f { is_para_end = true }) (mark_para_start a i m) j
              end_kept)
            started)
      | inr e ↦ rw e started
    ]

-- What the character at `j` should be marked with.
abbrev pub marked : Analysed → ℕ → Flags
marked a j = mark_break (a.m_text j) (a.break_before (j + 1)) no_flags

-- Before the round `i`: all characters up to two before it are marked.
abbrev MarkedUpTo : Analysed → ℕ → (ℕ → Flags) → Type 0
MarkedUpTo a i flags =
    (j : ℕ)
    → ((j + 1 < i) × SameMarks (flags j) (marked a j))
      ⊎ ((i ≤ j + 1) × SameMarks (flags j) no_flags)

mark_script-SameMarks :
    (a : Analysed) (i : ℕ) (m : Measuring) (j : ℕ) → SameMarks (mark_script a i m j) (m.flags j)
unfolding mark_script
mark_script-SameMarks a i m j = elim (Bool-cases (script_changed a i m.prev_script)) [
  | inl e ↦ rw e (set_at-SameMarks i (λ f. record f { script_change = true }) m.flags j script_kept)
  | inr e ↦ rw e (SameMarks-refl (m.flags j))
]

mark_flags-MarkedUpTo :
    (a : Analysed) (i : ℕ) (m : Measuring)
    → MarkedUpTo a i m.flags
    → MarkedUpTo a (i + 1) (mark_flags a i m)
unfolding mark_flags
mark_flags-MarkedUpTo a zero m up j = elim (up j) [
  | inl (early, s) ↦ absurd (omega arith)
  | inr (late, s) ↦ inr (omega arith, chain (mark_script-SameMarks a 0 m j) s)
]
mark_flags-MarkedUpTo a (suc k) m up j =
    let positive : ltb 0 (suc k) ≡ true = ground arith in
    let before : suc k - 1 ≡ k = omega arith in
    let next : k + 1 ≡ suc k = omega arith in
    let scripted = mark_script-SameMarks a (suc k) m j in
    elim (Bool-cases (j == k)) [
      | inl e ↦ elim (up k) [
        | inl (early, s) ↦ absurd (omega arith)
        | inr (late, s) ↦
            let at = (==_iff j k).0 e in
            let here =
              mark_break-SameMarks (a.m_text k) (a.break_before (suc k)) (mark_script a (suc k) m k)
                no_flags (chain (mark_script-SameMarks a (suc k) m k) s) in
            inl (omega arith, rw (positive, before, e) (rw (at, next) here))
      ]
      | inr e ↦ elim (up j) [
        | inl (early, s) ↦ inl (omega arith, rw (positive, before, e) (chain scripted s))
        | inr (late, s) ↦ inr (ground arith, rw (positive, before, e) (chain scripted s))
      ]
    ]

mark_paragraph-MarkedUpTo :
    (a : Analysed) (i : ℕ) (m : Measuring)
    → MarkedUpTo a i m.flags
    → (k : ℕ) → MarkedUpTo a i (mark_paragraph a k m)
mark_paragraph-MarkedUpTo a i m up k j = elim (up j) [
  | inl (early, s) ↦ inl (early, chain (mark_paragraph-SameMarks a k m j) s)
  | inr (late, s) ↦ inr (late, chain (mark_paragraph-SameMarks a k m j) s)
]

measure_round-MarkedUpTo :
    (a : Analysed) (i : ℕ) (m : Measuring)
    → MarkedUpTo a i m.flags
    → MarkedUpTo a (i + 1) (measure_round a i m).flags
unfolding measure_round mark_round end_segment
measure_round-MarkedUpTo a i m up =
    let marked_here = mark_flags-MarkedUpTo a i m up in
    elim (Bool-cases (ends_segment a i m)) [
      | inl e ↦ rw e (mark_paragraph-MarkedUpTo a (i + 1) (mark_round a i m) marked_here i)
      | inr e ↦ rw e marked_here
    ]

measure-MarkedUpTo :
    (a : Analysed) → 0 < a.m_length → MarkedUpTo a (a.m_length + 1) (measure a).flags
unfolding measure
measure-MarkedUpTo a h =
    let some_text : (a.m_length == 0) ≡ false = ground arith in
    rw some_text (
      for_range_inv (λ i m. MarkedUpTo a i m.flags) (measure_round a) (a.m_length + 1) 0
        (a.m_length + 1) unmeasured (omega arith)
        (λ i m lo hi up. measure_round-MarkedUpTo a i m up)
        (λ j. inr (omega arith, SameMarks-refl no_flags)))

SameMarks-IsMarked :
    {f g : Flags} {c : ℕ} {b : Break} → SameMarks f g → IsMarked c b g → IsMarked c b f
SameMarks-IsMarked same m = record {
  wrap = rw (same.wrap) m.wrap;
  must = rw (same.must) m.must;
  skip = rw (same.skip) m.skip;
  extend = rw (same.extend) m.extend;
  fallback = rw (same.fallback) m.fallback;
  tab = rw (same.tab) m.tab;
}

measure_marks :
    (a : Analysed) (j : ℕ) → j < a.m_length → SameMarks ((measure a).flags j) (marked a j)
measure_marks a j h = elim (measure-MarkedUpTo a (omega arith) j) [
  | inl (early, s) ↦ s
  | inr (late, s) ↦ absurd (omega arith)
]

-- After measure, a character of the text is marked as a tab exactly when it is one. It can wrap
-- exactly when it is a tab or libunibreak allows a break behind it, and must break exactly when
-- libunibreak finds a must break behind it and it is no tab. It is skipped at the end of a line
-- exactly when it is a tab, before a must break, or before an allowed break and one of U+0020,
-- U+3000 and U+2000 to U+200B. It can be extended exactly when it is a tab, a space before an
-- allowed break, or a no-break space before no break, and as a fallback exactly when it is no tab
-- and before an allowed break.
pub measure-IsMarked :
    (a : Analysed) (j : ℕ)
    → j < a.m_length
    → IsMarked (a.m_text j) (a.break_before (j + 1)) ((measure a).flags j)
measure-IsMarked a j h =
    SameMarks-IsMarked (measure_marks a j h)
      (mark_break-IsMarked (a.m_text j) (a.break_before (j + 1)))

mark_break-skips :
    (c : ℕ) (brk : Break)
    → (mark_break c brk no_flags).must_break_after ≡ true
    → (mark_break c brk no_flags).skip_on_break ≡ true
unfolding mark_break
mark_break-skips c allow_break h = ground arith
mark_break-skips c must_break h = ground arith
mark_break-skips c no_break h = ground arith

-- Lines can be cut from every text that measure has marked: when its flags for breaking lines are
-- as measure left them, every character that must end a line is left out of the line.
pub measure-MustBreakSkips :
    (a : Analysed) (x : Measured)
    → 0 < a.m_length
    → ((i : ℕ) → SameMarks (x.m_charinfo i).flags ((measure a).flags i))
    → MustBreakSkips x
measure-MustBreakSkips a x h kept i must = elim (measure-MarkedUpTo a h i) [
  | inl (early, s) ↦
      let whole = chain (kept i) s in
      whole.skip ∙ mark_break-skips (a.m_text i) (a.break_before (i + 1)) (sym whole.must ∙ must)
  | inr (late, s) ↦ let whole = chain (kept i) s in absurd (false_not_true (sym whole.must ∙ must))
]
  where
    false_not_true : false ≢ true
    false_not_true e = ground (arith, e)
