-- ===== src/Text/Line/Candidate.antt =====
-- The candidates for the end of a line that makeLine finds, and what a round leaves of them.
use koreader_base.Prelude.{
  ℕ, ◌+◌, ◌≤◌, ◌<◌, ◌≡◌, ◌≢◌, ◌⊎◌, inl, inr, Bool, true, false, ◌||◌, ltb, ◌==◌, if◌then◌else◌,
  arith, Bool-cases, ltb→lt,
}
use koreader_base.Prelude.Int.{ℤ, pos, ◌+ℤ◌, ◌≤ℤ◌, ltb_ℤ}
use koreader_base.Text.Line.{
  Measured, softhyphen_char, Request, Progress, flags_at, tries_hyphen, try_soft_hyphen, end_at,
  try_break,
}

-- measure() marks every character that must end a line as one that the line leaves out.
abbrev pub MustBreakSkips : Measured → Type 0
MustBreakSkips x =
    (i : ℕ)
    → (x.m_charinfo i).flags.must_break_after ≡ true
    → (x.m_charinfo i).flags.skip_on_break ≡ true

pub true_not_false : true ≢ false
true_not_false h = ground (arith, h)

pub or_true : (a : Bool) {b : Bool} → b ≡ true → (a || b) ≡ true
or_true a h = ground arith

pub not_over : (a b : ℤ) → b ≤ℤ a → ltb_ℤ a b ≡ false
not_over a b h = ground arith

pub within : (a b : ℤ) → ltb_ℤ a b ≡ false → b ≤ℤ a
within a b h = ground arith

module _ (x : Measured) (r : Request) where
  -- A candidate, if there is one, ends behind the start of the line, the next line starts at most
  -- one character after it and not above `top`, and its width is at most the targeted one.
  abbrev pub IsCandidate : ℕ → Progress → Type 0
  IsCandidate top p =
      (r.start < p.candidate_end)
      × (p.candidate_end < p.next_line_start)
      × (p.next_line_start ≤ p.candidate_end + 2)
      × (p.next_line_start ≤ top)
      × (p.candidate_line_width ≤ℤ r.targeted_width)

  abbrev pub MayHaveCandidate : ℕ → Progress → Type 0
  MayHaveCandidate top p = ((p.candidate_end ≡ 0) × (p.next_line_start ≡ 0)) ⊎ IsCandidate top p

  -- Between two rounds of the loop.
  pub record IsUnderWay (p : Progress) : Type 0 where
    pub from_start : r.start ≤ p.i
    pub in_text : p.i ≤ x.m_length
    pub fits : p.line_width ≤ℤ r.targeted_width
    pub candidate : MayHaveCandidate (p.i + 1) p
    pub not_forced : p.forced_break ≡ false
    pub empty : p.i ≡ r.start → p.line_width ≡ pos 0

  pub widen : (i : ℕ) (p : Progress) → MayHaveCandidate (i + 1) p → MayHaveCandidate (i + 2) p
  widen i p (inl none_yet) = inl none_yet
  widen top p (inr (a, b, c, d, e)) = inr (a, b, c, omega arith, e)

  pub end_at-IsCandidate :
      (width : ℤ) (soft_hyphen : Bool) (p : Progress)
      → r.start ≤ p.i
      → width ≤ℤ r.targeted_width
      → IsCandidate (p.i + 2) (end_at width soft_hyphen p)
  end_at-IsCandidate width soft_hyphen p h fits =
      (omega arith, omega arith, omega arith, omega arith, fits)

  pub try_soft_hyphen-MayHaveCandidate :
      (new_width : ℤ) (exceeding : Bool) (p : Progress)
      → r.start ≤ p.i
      → MayHaveCandidate (p.i + 2) p
      → MayHaveCandidate (p.i + 2) (try_soft_hyphen x r new_width exceeding p).0
  unfolding try_soft_hyphen
  try_soft_hyphen-MayHaveCandidate new_width exceeding p h c =
      elim (Bool-cases (tries_hyphen r exceeding p)) [
        | inl e ↦ elim (Bool-cases (ltb_ℤ r.targeted_width (new_width +ℤ x.m_hyphen_width))) [
          | inl f ↦ rw (e, f) c
          | inr f ↦
              rw (e, f)
                (inr (
                  end_at-IsCandidate (new_width +ℤ x.m_hyphen_width) true p h
                    (within r.targeted_width (new_width +ℤ x.m_hyphen_width) f)))
        ]
        | inr e ↦ rw e c
      ]

  pub skipped-IsCandidate :
      (p : Progress)
      → r.start ≤ p.i
      → p.line_width ≤ℤ r.targeted_width
      → IsCandidate (p.i + 2) (record p {
        candidate_line_width = p.line_width;
        candidate_end = if ltb r.start p.i then p.i else r.start + 1;
        next_line_start = p.i + 2;
        candidate_is_soft_hyphen = false;
      })
  skipped-IsCandidate p h fits = elim (Bool-cases (ltb r.start p.i)) [
    | inl e ↦
        let lt = ltb→lt r.start p.i e in
        rw e (omega arith, omega arith, omega arith, omega arith, fits)
    | inr e ↦
        let at : p.i ≡ r.start = ground arith in
        rw e (omega arith, omega arith, omega arith, omega arith, fits)
  ]

  -- The character may or must end a line.
  abbrev pub may_break : ℕ → Bool
  may_break i = (flags_at x r i).can_wrap_after || (flags_at x r i).must_break_after

  pub try_break-MayHaveCandidate :
      (new_width : ℤ) (p : Progress)
      → r.start ≤ p.i
      → p.line_width ≤ℤ r.targeted_width
      → MayHaveCandidate (p.i + 1) p
      → MayHaveCandidate (p.i + 2) (try_break x r new_width (ltb_ℤ r.targeted_width new_width) p).0
  unfolding try_break
  try_break-MayHaveCandidate new_width p h fits c =
      let wider : MayHaveCandidate (p.i + 2) p = widen p.i p c in
      elim (Bool-cases (may_break p.i)) [
        | inr e ↦ rw e wider
        | inl e ↦ elim (Bool-cases (flags_at x r p.i).skip_on_break) [
          | inl f ↦ rw (e, f) (inr (skipped-IsCandidate p h fits))
          | inr f ↦ elim (Bool-cases (x.m_text p.i == softhyphen_char)) [
            | inl g ↦
                rw (e, f, g)
                  (try_soft_hyphen-MayHaveCandidate new_width (ltb_ℤ r.targeted_width new_width) p h
                    wider)
            | inr g ↦ elim (Bool-cases (ltb_ℤ r.targeted_width new_width)) [
              | inl exceeding ↦ rw (e, f, g, exceeding) wider
              | inr fitting ↦
                  rw (e, f, g, fitting)
                    (inr (
                      end_at-IsCandidate new_width false p h
                        (within r.targeted_width new_width fitting)))
            ]
          ]
        ]
      ]
