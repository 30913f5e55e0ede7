-- ===== src/Text/Line/Laws.antt =====
-- What makeLine promises to the code that lays out a text line by line.
use koreader_base.Prelude.{
  ℕ, suc, ◌+◌, ◌-◌, ◌≤◌, ◌<◌, ◌≡◌, refl, inl, inr, Bool, true, false, ◌&&◌, ◌||◌, Option, none,
  some, ltb, leb, ◌==◌, arith, Bool-cases, ==_iff,
}
use mathlib.Core.Bool.{not}
use koreader_base.Prelude.Int.{pos, ◌≤ℤ◌}
use koreader_base.Text.Line.{
  Measured, Request, Progress, make_line_loop, Line, end_line, push_line, first_progress, make_line,
}
use koreader_base.Text.Line.Candidate.{IsCandidate, MayHaveCandidate, IsUnderWay, MustBreakSkips}
use koreader_base.Text.Line.Breaks.{FitsAlone}
use koreader_base.Text.Line.Loop.{Ends, make_line_loop-Ends}

module _ (x : Measured) (r : Request) where
  -- What follows a line: nothing, when at most one character is left behind its end; or the start
  -- of the next line, right behind the end or one character on, and in the text.
  abbrev pub NextIs : ℕ → Option ℕ → Type 0
  NextIs end none = x.m_length ≤ end + 1
  NextIs end (some next) = (end < next) × (next ≤ end + 2) × (next ≤ x.m_length)

  -- A line that Lua can use: offsets count from 1, and the end is that of its last character.
  pub record IsCut (line : Line) : Type 0 where
    pub starts : line.offset ≡ r.start + 1
    pub not_before : r.start ≤ line.end_offset
    pub in_text : line.end_offset ≤ x.m_length
    pub narrow : line.width ≤ℤ r.targeted_width
    pub next : NextIs line.end_offset line.next_start_offset

  -- From the text that follows on, or none.
  abbrev pub IsLater : Option ℕ → Type 0
  IsLater none = 0 ≤ 0
  IsLater (some next) = r.start + 1 < next

  -- What is pushed at the end.
  record IsPushed (p : Progress) : Type 0 where
    from : r.start ≤ p.candidate_end
    inside : p.candidate_end ≤ x.m_length
    narrow : p.candidate_line_width ≤ℤ r.targeted_width
    behind : p.candidate_end < p.next_line_start
    close : p.next_line_start ≤ p.candidate_end + 2
    later : FitsAlone x r → r.start + 1 < p.next_line_start

  push_line-IsCut : (just met : Bool) (p : Progress) → IsPushed p → IsCut (push_line x r just met p)
  unfolding push_line
  push_line-IsCut just met p pushed =
      let behind = pushed.behind in
      let close = pushed.close in
      record {
        starts = refl;
        not_before = pushed.from;
        in_text = pushed.inside;
        narrow = pushed.narrow;
        next = elim (Bool-cases (ltb 0 p.next_line_start && leb p.next_line_start x.m_length)) [
          | inl e ↦ rw e (behind, close, ground arith)
          | inr e ↦ rw e (ground arith)
        ];
      }

  push_line-IsLater :
      (just met : Bool) (p : Progress)
      → IsPushed p
      → FitsAlone x r
      → IsLater (push_line x r just met p).next_start_offset
  unfolding push_line
  push_line-IsLater just met p pushed alone =
      elim (Bool-cases (ltb 0 p.next_line_start && leb p.next_line_start x.m_length)) [
        | inl e ↦ rw e (pushed.later alone)
        | inr e ↦ rw e (omega arith)
      ]

  abbrev no_candidate : Progress → Bool
  no_candidate p = p.candidate_end == 0 || (p.i == x.m_length)

  abbrev Pushes : Line → Type 0
  Pushes line =
      (just : Bool) × (met : Bool) × (q : Progress) × IsPushed q × (line ≡ push_line x r just met q)

  chosen_end :
      (p : Progress)
      → MayHaveCandidate x r (p.i + 2) p
      → no_candidate p ≡ false
      → IsCandidate x r (p.i + 2) p
  chosen_end p (inl none_yet) e = absurd (ground arith)
  chosen_end p (inr c) e = c

  end_line-Pushes :
      (p : Progress)
      → r.start < x.m_length
      → pos 0 ≤ℤ r.targeted_width
      → Ends x r p
      → Pushes (end_line x r p)
  unfolding end_line push_line
  end_line-Pushes p start_inside wide (inl (under, at)) =
      let test : no_candidate p ≡ true = ground arith in
      let from_start = under.from_start in
      rw (under.not_forced, test)
        (
          not (p.i == x.m_length),
          not (p.i == x.m_length),
          record p {
            forced_break = false;
            candidate_end = p.i;
            candidate_line_width = p.line_width;
            next_line_start = p.i + 1;
          },
          record {
            from = from_start;
            inside = omega arith;
            narrow = under.fits;
            behind = omega arith;
            close = omega arith;
            later = λ _. omega arith;
          },
          refl,
        )
  end_line-Pushes p start_inside wide (inr (inl (forced, from, lt, next, c))) =
      elim (Bool-cases (p.i == r.start)) [
        | inl e ↦
            rw (forced, e)
              (
                false,
                false,
                record p {
                  forced_break = true;
                  candidate_end = r.start;
                  candidate_line_width = pos 0;
                },
                record {
                  from = omega arith;
                  inside = omega arith;
                  narrow = wide;
                  behind = omega arith;
                  close = omega (arith, (==_iff p.i r.start).0 e);
                  later = λ _. omega arith;
                },
                refl,
              )
        | inr e ↦
            rw (forced, e)
              (
                false,
                false,
                record p { forced_break = true },
                record {
                  from = omega arith;
                  inside = omega arith;
                  narrow = c.4;
                  behind = omega arith;
                  close = omega arith;
                  later = λ _. omega arith;
                },
                refl,
              )
      ]
  end_line-Pushes p start_inside wide (inr (inr (free, from, lt, fits, c, alone))) =
      elim (Bool-cases (no_candidate p)) [
        | inl e ↦
            rw (free, e)
              (
                not (p.i == x.m_length),
                not (p.i == x.m_length),
                record p {
                  forced_break = false;
                  candidate_end = p.i;
                  candidate_line_width = p.line_width;
                  next_line_start = p.i + 1;
                },
                record {
                  from = from;
                  inside = omega arith;
                  narrow = fits;
                  behind = omega arith;
                  close = omega arith;
                  later = λ h. omega (arith, alone h);
                },
                refl,
              )
        | inr e ↦
            let chosen = chosen_end p c e in
            rw (free, e)
              (
                true,
                false,
                record p { forced_break = false },
                record {
                  from = omega arith;
                  inside = omega arith;
                  narrow = chosen.4;
                  behind = omega arith;
                  close = omega arith;
                  later = λ _. omega arith;
                },
                refl,
              )
      ]

  first-IsUnderWay :
      r.start < x.m_length → pos 0 ≤ℤ r.targeted_width → IsUnderWay x r (first_progress r)
  first-IsUnderWay inside wide = record {
    from_start = omega arith;
    in_text = omega arith;
    fits = wide;
    candidate = inl (refl, refl);
    not_forced = refl;
    empty = λ _. refl;
  }

  make_line-Pushes :
      MustBreakSkips x → r.start < x.m_length → pos 0 ≤ℤ r.targeted_width → Pushes (make_line x r)
  unfolding make_line
  make_line-Pushes skips inside wide =
      end_line-Pushes (make_line_loop (suc x.m_length - r.start) x r (first_progress r)) inside wide
        (make_line_loop-Ends x r (suc x.m_length - r.start) (first_progress r) skips
          (first-IsUnderWay inside wide) (omega arith))

  pub make_line-IsCut :
      MustBreakSkips x → r.start < x.m_length → pos 0 ≤ℤ r.targeted_width → IsCut (make_line x r)
  make_line-IsCut skips inside wide =
      let (just, met, q, pushed, e) = make_line-Pushes skips inside wide in
      rw e (push_line-IsCut just met q pushed)

  pub make_line-IsLater :
      MustBreakSkips x
      → r.start < x.m_length
      → pos 0 ≤ℤ r.targeted_width
      → FitsAlone x r
      → IsLater (make_line x r).next_start_offset
  make_line-IsLater skips inside wide alone =
      let (just, met, q, pushed, e) = make_line-Pushes skips inside wide in
      rw e (push_line-IsLater just met q pushed alone)
