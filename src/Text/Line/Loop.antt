-- ===== src/Text/Line/Loop.antt =====
-- Where the loop of makeLine ends.
use koreader_base.Prelude.{
  ℕ, zero, suc, ◌+◌, ◌≤◌, ◌<◌, ◌≡◌, refl, sym, ◌∙◌, ◌⊎◌, inl, inr, Bool, true, false, ◌||◌, ltb,
  if◌then◌else◌, arith, Bool-cases, ltb→lt,
}
use koreader_base.Prelude.Int.{ltb_ℤ}
use koreader_base.Text.Line.{
  Measured, Request, Progress, flags_at, new_line_width, try_round, step_on, make_line_loop,
  first_progress,
}
use koreader_base.Text.Line.Candidate.{
  MayHaveCandidate, IsUnderWay, try_break-MayHaveCandidate, MustBreakSkips, true_not_false,
  not_over, within,
}
use koreader_base.Text.Line.Breaks.{
  try_break-Keeps, FitsAlone, AtEnd, AtBreak, AtExcess, must_break-lem, try_break-fitting,
  try_break-first, new_line_width-first,
}

module _ (x : Measured) (r : Request) where
  -- A round starts with the flags of this character.
  abbrev pub begun : Progress → Progress
  begun p = record p { forced_break = false; has_tabs = p.has_tabs || (flags_at x r p.i).is_tab }

  abbrev pub is_over : Progress → Bool
  is_over p = ltb_ℤ r.targeted_width (new_line_width x r p)

  pub step_on_i : (p : Progress) → (step_on x r p (try_round x r p).0).i ≡ p.i + 1
  unfolding step_on
  step_on_i p = refl

  pub start_or_later : (i : ℕ) → r.start ≤ i → (i ≡ r.start) ⊎ (r.start < i)
  start_or_later i h = omega arith

  -- A first character that fits alone does not end the loop.
  pub first_fits :
      (p : Progress)
      → IsUnderWay x r p
      → FitsAlone x r
      → p.i ≡ r.start
      → (try_round x r p).1 ≡ false
  unfolding try_round
  first_fits p under alone first =
      let same = new_line_width-first x r p first (under.empty first) in
      let fits : is_over p ≡ false =
        rw same
          (not_over r.targeted_width (new_line_width x r (first_progress r)) alone.char_fits) in
      rw fits
        (try_break-first x r (new_line_width x r p) (begun p) first (rw same alone.hyphen_fits))

  pub later_candidate :
      (p : Progress)
      → MayHaveCandidate x r (p.i + 2) (try_round x r p).0
      → MayHaveCandidate x r (p.i + 1 + 1) (step_on x r p (try_round x r p).0)
  unfolding step_on
  later_candidate p (inl none_yet) = inl none_yet
  later_candidate p (inr (a, b, c, d, e)) = inr (a, b, c, omega arith, e)

  pub round-AtBreak :
      (p : Progress)
      → MustBreakSkips x
      → IsUnderWay x r p
      → p.i < x.m_length
      → (flags_at x r p.i).must_break_after ≡ true
      → AtBreak x r (record (try_round x r p).0 { forced_break = true })
  unfolding try_round
  round-AtBreak p skips under lt must =
      let kept = try_break-Keeps x r (new_line_width x r p) (is_over p) (begun p) in
      let (c, next) =
        must_break-lem x r (new_line_width x r p) (is_over p) (begun p) skips under.from_start
          under.fits must in
      let at = kept.0 in
      let from_start = under.from_start in
      (refl, omega arith, omega arith, omega arith, (c.0, c.1, c.2, omega arith, c.4))

  pub round-AtExcess :
      (p : Progress)
      → IsUnderWay x r p
      → p.i < x.m_length
      → (try_round x r p).1 ≡ true
      → AtExcess x r (try_round x r p).0
  unfolding try_round
  round-AtExcess p under lt excess =
      let kept = try_break-Keeps x r (new_line_width x r p) (is_over p) (begun p) in
      let c =
        try_break-MayHaveCandidate x r (new_line_width x r p) (begun p) under.from_start under.fits
          under.candidate in
      let at = kept.0 in
      let from_start = under.from_start in
      (
        kept.2,
        omega arith,
        omega arith,
        rw (kept.1) under.fits,
        rw at c,
        λ alone. elim (start_or_later p.i from_start) [
          | inr later ↦ omega arith
          | inl first ↦ absurd (true_not_false (sym excess ∙ first_fits p under alone first))
        ],
      )

  pub step_on-IsUnderWay :
      (p : Progress)
      → IsUnderWay x r p
      → p.i < x.m_length
      → (try_round x r p).1 ≡ false
      → IsUnderWay x r (step_on x r p (try_round x r p).0)
  unfolding try_round step_on
  step_on-IsUnderWay p under lt fits =
      let kept = try_break-Keeps x r (new_line_width x r p) (is_over p) (begun p) in
      let c =
        try_break-MayHaveCandidate x r (new_line_width x r p) (begun p) under.from_start under.fits
          under.candidate in
      let from_start = under.from_start in
      record {
        from_start = omega arith;
        in_text = omega arith;
        fits =
            within r.targeted_width (new_line_width x r p)
              (try_break-fitting x r (new_line_width x r p) (is_over p) (begun p) fits);
        candidate = later_candidate p c;
        not_forced = kept.2;
        empty = λ e. absurd (omega arith);
      }

  module _ (fuel : ℕ) (p : Progress) (inside : ltb p.i x.m_length ≡ true) where
    abbrev goes_to : Progress
    goes_to = make_line_loop fuel x r (step_on x r p (try_round x r p).0)

    loop_break :
        (flags_at x r p.i).must_break_after ≡ true
        → make_line_loop (suc fuel) x r p ≡ record (try_round x r p).0 { forced_break = true }
    unfolding make_line_loop
    loop_break must =
        let t = try_round x r p in
        λ i.
          if inside i
          then (if must i then record t.0 { forced_break = true } else if t.1 then t.0 else goes_to)
          else p

    loop_excess :
        (flags_at x r p.i).must_break_after ≡ false
        → (try_round x r p).1 ≡ true
        → make_line_loop (suc fuel) x r p ≡ (try_round x r p).0
    unfolding make_line_loop
    loop_excess goes_on excess =
        let t = try_round x r p in
        λ i.
          if inside i
          then (if goes_on i
              then record t.0 { forced_break = true }
              else if excess i
              then t.0
              else goes_to)
          else p

    loop_on :
        (flags_at x r p.i).must_break_after ≡ false
        → (try_round x r p).1 ≡ false
        → make_line_loop (suc fuel) x r p ≡ goes_to
    unfolding make_line_loop
    loop_on goes_on fits =
        let t = try_round x r p in
        λ i.
          if inside i
          then (if goes_on i
              then record t.0 { forced_break = true }
              else if fits i
              then t.0
              else goes_to)
          else p

  abbrev pub Ends : Progress → Type 0
  Ends q = AtEnd x r q ⊎ AtBreak x r q ⊎ AtExcess x r q

  pub loop_end :
      (fuel : ℕ) (p : Progress) → ltb p.i x.m_length ≡ false → make_line_loop fuel x r p ≡ p
  unfolding make_line_loop
  loop_end zero p outside = refl
  loop_end (suc fuel) p outside =
      let t = try_round x r p in
      let rest = make_line_loop fuel x r (step_on x r p t.0) in
      λ i.
        if outside i
        then (if (flags_at x r p.i).must_break_after
            then record t.0 { forced_break = true }
            else if t.1
            then t.0
            else rest)
        else p

  pub make_line_loop-Ends :
      (fuel : ℕ) (p : Progress)
      → MustBreakSkips x
      → IsUnderWay x r p
      → suc x.m_length ≤ fuel + p.i
      → Ends (make_line_loop fuel x r p)
  make_line_loop-Ends zero p skips under enough = let bound = under.in_text in absurd (omega arith)
  make_line_loop-Ends (suc fuel) p skips under enough = elim (Bool-cases (ltb p.i x.m_length)) [
    | inr e ↦
        let bound = under.in_text in
        let at : p.i ≡ x.m_length = ground arith in
        carry (sym (loop_end (suc fuel) p e)) (inl (under, at))
    | inl e ↦
        let lt = ltb→lt p.i x.m_length e in
        elim (Bool-cases (flags_at x r p.i).must_break_after) [
          | inl must ↦
              carry (sym (loop_break fuel p e must))
                (inr (inl (round-AtBreak p skips under lt must)))
          | inr goes_on ↦ elim (Bool-cases (try_round x r p).1) [
            | inl excess ↦
                carry (sym (loop_excess fuel p e goes_on excess))
                  (inr (inr (round-AtExcess p under lt excess)))
            | inr fits ↦
                let next = step_on x r p (try_round x r p).0 in
                let up = step_on_i p in
                carry (sym (loop_on fuel p e goes_on fits)) (
                  make_line_loop-Ends fuel next skips (step_on-IsUnderWay p under lt fits)
                    (omega arith))
          ]
        ]
  ]
    where
      carry : {p q : Progress} → p ≡ q → Ends p → Ends q
      carry e h = rw (← e) h
