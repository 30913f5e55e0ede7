-- ===== src/Text/Line/Cover.antt =====
-- XText_makeLine as Lua calls it: its arguments, and line after line through a text.
use mathlib.Core.List.{List, [], ◌∷◌}
use koreader_base.Prelude.{
  ℕ, zero, suc, ◌+◌, ◌-◌, ◌≤◌, ◌<◌, ◌≡◌, refl, ap, ◌⊎◌, inl, inr, Bool, ◌&&◌, Option, none, some,
  leb, arith, Bool-cases,
}
use koreader_base.Prelude.Int.{ℤ, pos, negsuc, ◌≤ℤ◌, ◌<ℤ◌, ltb_ℤ}
use koreader_base.Text.Line.Breaks.{FitsAlone}
use koreader_base.Text.Line.Candidate.{MustBreakSkips}
use koreader_base.Text.Line.Laws.{IsCut, IsLater, NextIs, make_line-IsCut, make_line-IsLater}
use koreader_base.Text.Line.{Measured, Request, Line, make_line, xtext_make_line}

abbrev pub InRange : Measured → ℤ → ℤ → Type 0
InRange x start width = (pos 1 ≤ℤ start) × (start ≤ℤ pos x.m_length) × (pos 0 <ℤ width)

-- In a text in which every character that must end a line is left out of it, XText_makeLine raises
-- an error for an offset outside of the text or a width that is not positive; for all others it
-- gives a line that starts at the offset, ends in the text (or right before the offset, when it
-- is empty), is no wider than the width asked for, and is followed either by the end of the text
-- or by a next line in it, with at most one character left out between them.
pub xtext_make_line-IsCut :
    (x : Measured) (start width : ℤ) (rules : Bool) (tabstop_width pct : ℤ)
    → MustBreakSkips x
    → ((start <ℤ pos 1 ⊎ (pos x.m_length <ℤ start) ⊎ width ≤ℤ pos 0)
        × (xtext_make_line x start width rules tabstop_width pct ≡ none))
      ⊎ ((r : Request) × InRange x start width
          × (start ≡ pos (r.start + 1))
          × (r.targeted_width ≡ width)
          × (xtext_make_line x start width rules tabstop_width pct ≡ some (make_line x r))
          × IsCut x r (make_line x r))
unfolding xtext_make_line
xtext_make_line-IsCut x (negsuc n) width rules tabstop_width pct skips =
    inl (inl (omega arith), refl)
xtext_make_line-IsCut x (pos zero) width rules tabstop_width pct skips =
    inl (inl (omega arith), refl)
xtext_make_line-IsCut x (pos (suc start)) width rules tabstop_width pct skips =
    elim (Bool-cases (leb (suc start) x.m_length && ltb_ℤ (pos 0) width)) [
      | inl e ↦
          let r : Request = record {
            start = start;
            targeted_width = width;
            no_line_breaking_rules = rules;
            tabstop_width = tabstop_width;
            expansion_pct = pct;
          } in
          let inside : start < x.m_length = ground arith in
          let wide : pos 0 <ℤ width = ground arith in
          let succ : suc start ≡ start + 1 = omega arith in
          rw e (
            inr (
              r,
              (omega arith, omega arith, wide),
              ap pos succ,
              refl,
              refl,
              make_line-IsCut x r skips inside (omega arith),
            ))
      | inr e ↦ rw e (inl (ground arith, refl))
    ]

-- The request for the line from `start` on.
abbrev pub from : ℕ → Request → Request
from start r = record r { start = start }

abbrev follow : Line → Option ℕ → (ℕ → List Line) → List Line
follow line none rest = line ∷ []
follow line (some next) rest = line ∷ rest (next - 1)

-- makeLine again and again from the offset of the next line, as a text box fills its lines.
unfoldable pub make_lines : ℕ → Measured → Request → List Line
make_lines zero x r = []
make_lines (suc fuel) x r =
    let line = make_line x r in
    follow line line.next_start_offset (λ start. make_lines fuel x (from start r))

-- Lines from `start` on to the end of the text, each a cut from where the one before leads.
pub data CoversText (x : Measured) (r : Request) : ℕ → List Line → Type 0 where
  last :
      {start : ℕ} {line : Line}
      → IsCut x (from start r) line
      → line.next_start_offset ≡ none
      → CoversText x r start (line ∷ [])
  followed :
      {start next : ℕ} {line : Line} {rest : List Line}
      → IsCut x (from start r) line
      → line.next_start_offset ≡ some (suc next)
      → start < next
      → CoversText x r next rest
      → CoversText x r start (line ∷ rest)

follow-CoversText :
    (x : Measured) (r : Request) (start : ℕ) (line : Line) (rest : ℕ → List Line) (next : Option ℕ)
    → line.next_start_offset ≡ next
    → IsCut x (from start r) line
    → IsLater x (from start r) next
    → ((n : ℕ) → next ≡ some (suc n) → start < n → n < x.m_length → CoversText x r n (rest n))
    → CoversText x r start (follow line next rest)
follow-CoversText x r start line rest none e cut later more = last cut e
follow-CoversText x r start line rest (some zero) e cut later more = absurd (omega arith)
follow-CoversText x r start line rest (some (suc n)) e cut later more =
    let bounds : NextIs x (from start r) line.end_offset (some (suc n)) = rw e at cut.next in
    let back : suc n - 1 ≡ n = omega arith in
    followed cut e (omega arith) (rw back (more n refl (omega arith) bounds.2))

make_lines-covers :
    (x : Measured) (r : Request) (fuel start : ℕ)
    → MustBreakSkips x
    → ((i : ℕ) → i < x.m_length → FitsAlone x (from i r))
    → pos 0 ≤ℤ r.targeted_width
    → start < x.m_length
    → x.m_length ≤ start + fuel
    → CoversText x r start (make_lines fuel x (from start r))
unfolding make_lines
make_lines-covers x r zero start skips alone wide inside enough = absurd (omega arith)
make_lines-covers x r (suc fuel) start skips alone wide inside enough =
    follow-CoversText x r start (make_line x (from start r)) (λ n. make_lines fuel x (from n r))
      (make_line x (from start r)).next_start_offset refl
      (make_line-IsCut x (from start r) skips inside wide)
      (make_line-IsLater x (from start r) skips inside wide (alone start inside))
      (λ n e later below. make_lines-covers x r fuel n skips alone wide below (omega arith))

-- When every character of a text fits alone in the targeted width, calling makeLine again and again
-- from next_start_offset ends, after at most as many calls as there are characters left: the lines
-- cover the text from the first offset to its end, each starts where the one before leads, and
-- each leads further on than its own start.
pub make_lines-CoversText :
    (x : Measured) (r : Request)
    → MustBreakSkips x
    → ((i : ℕ) → i < x.m_length → FitsAlone x (from i r))
    → pos 0 ≤ℤ r.targeted_width
    → r.start < x.m_length
    → CoversText x r r.start (make_lines (x.m_length - r.start) x r)
make_lines-CoversText x r skips alone wide inside =
    make_lines-covers x r (x.m_length - r.start) r.start skips alone wide inside (omega arith)
