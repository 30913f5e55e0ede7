-- ===== src/Text/Line/Breaks.antt =====
-- A round of the loop of makeLine: what it keeps, and when it ends the line.
use koreader_base.Prelude.{
  ℕ, ◌+◌, ◌≤◌, ◌<◌, ◌≡◌, refl, sym, ap, ◌∙◌, inl, inr, Bool, true, false, ◌==◌, Bool-cases, ==_iff,
}
use koreader_base.Prelude.Int.{ℤ, pos, ◌+ℤ◌, ◌≤ℤ◌, ltb_ℤ}
use koreader_base.Text.Line.{
  Measured, softhyphen_char, Request, Progress, flags_at, new_line_width, tries_hyphen,
  try_soft_hyphen, try_break, first_progress,
}
use koreader_base.Text.Line.Candidate.{
  IsCandidate, MayHaveCandidate, IsUnderWay, skipped-IsCandidate, may_break, MustBreakSkips,
  or_true, not_over,
}

module _ (x : Measured) (r : Request) where
  abbrev pub Keeps : Progress → Progress → Type 0
  Keeps p q = (q.i ≡ p.i) × (q.line_width ≡ p.line_width) × (q.forced_break ≡ p.forced_break)

  pub try_soft_hyphen-Keeps :
      (new_width : ℤ) (exceeding : Bool) (p : Progress)
      → Keeps p (try_soft_hyphen x r new_width exceeding p).0
  unfolding try_soft_hyphen
  try_soft_hyphen-Keeps new_width exceeding p = elim (Bool-cases (tries_hyphen r exceeding p)) [
    | inl e ↦ elim (Bool-cases (ltb_ℤ r.targeted_width (new_width +ℤ x.m_hyphen_width))) [
      | inl f ↦ rw (e, f) (refl, refl, refl)
      | inr f ↦ rw (e, f) (refl, refl, refl)
    ]
    | inr e ↦ rw e (refl, refl, refl)
  ]

  pub try_break-Keeps :
      (new_width : ℤ) (exceeding : Bool) (p : Progress)
      → Keeps p (try_break x r new_width exceeding p).0
  unfolding try_break
  try_break-Keeps new_width exceeding p = elim (Bool-cases (may_break x r p.i)) [
    | inr e ↦ rw e (refl, refl, refl)
    | inl e ↦ elim (Bool-cases (flags_at x r p.i).skip_on_break) [
      | inl f ↦ rw (e, f) (refl, refl, refl)
      | inr f ↦ elim (Bool-cases (x.m_text p.i == softhyphen_char)) [
        | inl g ↦ rw (e, f, g) (try_soft_hyphen-Keeps new_width exceeding p)
        | inr g ↦ elim (Bool-cases exceeding) [
          | inl h ↦ rw (e, f, g, h) (refl, refl, refl)
          | inr h ↦ rw (e, f, g, h) (refl, refl, refl)
        ]
      ]
    ]
  ]

  -- The first character fits alone, a soft hyphen as a hyphen.
  pub record FitsAlone : Type 0 where
    pub char_fits : new_line_width x r (first_progress r) ≤ℤ r.targeted_width
    pub hyphen_fits :
        x.m_text r.start ≡ softhyphen_char
        → (new_line_width x r (first_progress r) +ℤ x.m_hyphen_width) ≤ℤ r.targeted_width

  -- How the loop ends: at the end of the text, at a forced break, or at a character that does not
  -- fit.
  abbrev pub AtEnd : Progress → Type 0
  AtEnd p = IsUnderWay x r p × (p.i ≡ x.m_length)

  abbrev pub AtBreak : Progress → Type 0
  AtBreak p =
      (p.forced_break ≡ true)
      × (r.start ≤ p.i)
      × (p.i < x.m_length)
      × (p.next_line_start ≡ p.i + 2)
      × IsCandidate x r (p.i + 2) p

  abbrev pub AtExcess : Progress → Type 0
  AtExcess p =
      (p.forced_break ≡ false)
      × (r.start ≤ p.i)
      × (p.i < x.m_length)
      × (p.line_width ≤ℤ r.targeted_width)
      × MayHaveCandidate x r (p.i + 2) p
      × (FitsAlone → r.start < p.i)

  pub flags_skip :
      (i : ℕ)
      → MustBreakSkips x
      → (flags_at x r i).must_break_after ≡ true
      → (flags_at x r i).skip_on_break ≡ true
  unfolding flags_at
  flags_skip i skips must = elim (Bool-cases r.no_line_breaking_rules) [
    | inl e ↦ rw e (skips i (rw e at must))
    | inr e ↦ rw e (skips i (rw e at must))
  ]

  pub must_break-lem :
      (new_width : ℤ) (exceeding : Bool) (p : Progress)
      → MustBreakSkips x
      → r.start ≤ p.i
      → p.line_width ≤ℤ r.targeted_width
      → (flags_at x r p.i).must_break_after ≡ true
      → IsCandidate x r (p.i + 2) (try_break x r new_width exceeding p).0
        × ((try_break x r new_width exceeding p).0.next_line_start ≡ p.i + 2)
  unfolding try_break
  must_break-lem new_width exceeding p skips h fits must =
      let may : may_break x r p.i ≡ true = or_true (flags_at x r p.i).can_wrap_after must in
      let skip : (flags_at x r p.i).skip_on_break ≡ true = flags_skip p.i skips must in
      rw (may, skip) (skipped-IsCandidate x r p h fits, refl)

  -- What does not fit is not made to fit.
  pub try_break-exceeding :
      (new_width : ℤ) (p : Progress) → (try_break x r new_width true p).1 ≡ true
  unfolding try_break try_soft_hyphen tries_hyphen
  try_break-exceeding new_width p = elim (Bool-cases (may_break x r p.i)) [
    | inr e ↦ rw e refl
    | inl e ↦ elim (Bool-cases (flags_at x r p.i).skip_on_break) [
      | inl f ↦ rw (e, f) refl
      | inr f ↦ elim (Bool-cases (x.m_text p.i == softhyphen_char)) [
        | inl g ↦ rw (e, f, g) refl
        | inr g ↦ rw (e, f, g) refl
      ]
    ]
  ]

  pub try_break-fitting :
      (new_width : ℤ) (exceeding : Bool) (p : Progress)
      → (try_break x r new_width exceeding p).1 ≡ false
      → exceeding ≡ false
  try_break-fitting new_width false p h = refl
  try_break-fitting new_width true p h = sym (try_break-exceeding new_width p) ∙ h

  pub try_break-first :
      (new_width : ℤ) (p : Progress)
      → p.i ≡ r.start
      → (x.m_text r.start ≡ softhyphen_char → (new_width +ℤ x.m_hyphen_width) ≤ℤ r.targeted_width)
      → (try_break x r new_width false p).1 ≡ false
  unfolding try_break try_soft_hyphen
  try_break-first new_width p at hyphen = elim (Bool-cases (may_break x r p.i)) [
    | inr e ↦ rw e refl
    | inl e ↦ elim (Bool-cases (flags_at x r p.i).skip_on_break) [
      | inl f ↦ rw (e, f) refl
      | inr f ↦ elim (Bool-cases (x.m_text p.i == softhyphen_char)) [
        | inr g ↦ rw (e, f, g) refl
        | inl g ↦
            let fits : ltb_ℤ r.targeted_width (new_width +ℤ x.m_hyphen_width) ≡ false =
              not_over r.targeted_width (new_width +ℤ x.m_hyphen_width)
                (hyphen (ap x.m_text (sym at) ∙ (==_iff _ _).0 g)) in
            elim (Bool-cases (tries_hyphen r false p)) [
              | inl t ↦ rw (e, f, g, t, fits) refl
              | inr t ↦ rw (e, f, g, t) refl
            ]
      ]
    ]
  ]

  pub new_line_width-first :
      (p : Progress)
      → p.i ≡ r.start
      → p.line_width ≡ pos 0
      → new_line_width x r p ≡ new_line_width x r (first_progress r)
  unfolding new_line_width
  new_line_width-first p at empty = rw (at, empty) refl
