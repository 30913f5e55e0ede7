-- ===== src/Text/Measure/Segments.antt =====
-- The segments that measure hands to measureSegment.
use mathlib.Core.List.{List, [], ◌∷◌, ◌++◌}
use koreader_base.Prelude.{
  ℕ, ◌+◌, ◌-◌, ◌%◌, ◌≤◌, ◌<◌, ◌≡◌, ◌≢◌, refl, sym, ap, ◌∙◌, ◌⊎◌, inl, inr, Bool, true, false, ◌&&◌,
  ◌||◌, ltb, ◌==◌, if◌then◌else◌, arith, Bool-cases, lt→ltb, ==_iff,
}
use mathlib.Core.Bool.{not}
use koreader_base.Prelude.Loops.{for_range, for_range_inv}
use koreader_base.Text.Measure.{
  Analysed, Segment, Measuring, breaks_line, bidi_level, level_before, bidi_level_changed,
  script_changed, mark_round, ends_segment, segment_at, end_segment, measure_round, unmeasured,
  measure,
}

-- The level that a character is treated with.
abbrev pub level_of : Analysed → ℕ → ℕ
level_of a j = if a.m_has_bidi then a.m_bidi_levels j else 0

-- The characters from the start of the segment to the start of the next one have one bidi level,
-- and the direction that HarfBuzz is told is that of this level.
pub record HasOneLevel (a : Analysed) (s : Segment) (next : ℕ) : Type 0 where
  pub level : (j : ℕ) → s.start ≤ j → j < next → level_of a j ≡ level_of a s.start
  pub direction : s.direction_is_rtl ≡ (level_of a s.start % 2 == 1)

-- Segments that follow each other: each starts where the one before led, and is not empty, but for
-- the character of a line break that it may leave out at its end.
abbrev pub Tiles : Analysed → ℕ → List Segment → ℕ → Type 0
Tiles a from [] to = from ≡ to
Tiles a from (s ∷ segments) to =
    (next : ℕ) × (s.start ≡ from)
    × (from < next)
    × ((s.end ≡ next) ⊎ (s.end + 1 ≡ next))
    × HasOneLevel a s next
    × Tiles a next segments to

Tiles-append :
    (a : Analysed) (from : ℕ) (segments : List Segment) (s : Segment) (next : ℕ)
    → Tiles a from segments s.start
    → s.start < next
    → (s.end ≡ next) ⊎ (s.end + 1 ≡ next)
    → HasOneLevel a s next
    → Tiles a from (segments ++ (s ∷ [])) next
Tiles-append a from [] s next e lt ends one = (next, sym e, omega arith, ends, one, refl)
Tiles-append a from (t ∷ segments) s next (n, starts, further, at, level, more) lt ends one =
    (n, starts, further, at, level, Tiles-append a n segments s next more lt ends one)

-- Before the round `i`.
record IsCovered (a : Analysed) (i : ℕ) (m : Measuring) : Type 0 where
  tiled : Tiles a 0 m.segments m.start
  behind : m.start ≤ i - 1
  level : (j : ℕ) → m.start ≤ j → j < i → j < a.m_length → level_of a j ≡ m.last_bidi_level
  done : (i ≤ a.m_length) ⊎ (m.start ≡ a.m_length)

third_holds : (p q r : Bool) → p ≡ true → q ≡ false → (p && (not q && not r)) ≡ false → r ≡ true
third_holds p q r on off h = ground arith

none_holds :
    (p x y z w : Bool) → p ≡ true → (p && (x || y || z || w)) ≡ false → (x ≡ false) × (w ≡ false)
none_holds p x y z w on h = ground arith

and_false : (b : Bool) → (b && false) ≡ false
and_false b = ground arith

module _ (a : Analysed) (i : ℕ) (last : ℕ) where
  bidi_level_in : i < a.m_length → level_of a i ≡ bidi_level a i last
  unfolding bidi_level
  bidi_level_in h = let inside : ltb i a.m_length ≡ true = ground arith in rw inside refl

  not_changed :
      a.m_has_bidi ≡ true
      → (i == 0) ≡ false
      → bidi_level_changed a i last ≡ false
      → (bidi_level a i last == last) ≡ true
  unfolding bidi_level_changed
  not_changed bidi later kept =
      third_holds a.m_has_bidi (i == 0) (bidi_level a i last == last) bidi later kept

  -- A level that did not change.
  unchanged :
      (j : ℕ)
      → 0 < i
      → bidi_level_changed a i last ≡ false
      → level_of a j ≡ last
      → level_of a j ≡ bidi_level a i last
  unfolding bidi_level
  unchanged j h kept e = elim (Bool-cases a.m_has_bidi) [
    | inl bidi ↦
        let later : (i == 0) ≡ false = ground arith in
        e ∙ sym ((==_iff (bidi_level a i last) last).0 (not_changed bidi later kept))
    | inr plain ↦ rw plain refl
  ]

  level_before_later : 0 < i → level_before a i last ≡ last
  unfolding level_before
  level_before_later h =
      let later : (i == 0) ≡ false = ground arith in rw (later, and_false a.m_has_bidi) refl

segment_at-HasOneLevel :
    (a : Analysed) (i : ℕ) (m : Measuring)
    → IsCovered a i m
    → m.start < i
    → i ≤ a.m_length
    → HasOneLevel a (segment_at a i (mark_round a i m)) i
unfolding segment_at mark_round
segment_at-HasOneLevel a i m covered lt inside =
    let before = level_before_later a i m.last_bidi_level (omega arith) in
    let first = covered.level m.start (omega arith) lt (omega arith) in
    record {
      level = λ j lo hi. covered.level j lo hi (omega arith) ∙ sym first;
      direction = rw before (odd_level first);
    }
  where
    odd_level :
        {last : ℕ}
        → level_of a m.start ≡ last
        → (a.m_has_bidi && (last % 2 == 1)) ≡ (level_of a m.start % 2 == 1)
    odd_level e = ap (λ (n : ℕ). a.m_has_bidi && (n % 2 == 1)) (sym e) ∙ odd_plain
      where
        odd_plain : (a.m_has_bidi && (level_of a m.start % 2 == 1)) ≡ (level_of a m.start % 2 == 1)
        odd_plain = elim (Bool-cases a.m_has_bidi) [
          | inl bidi ↦ rw bidi refl
          | inr plain ↦ rw plain refl
        ]

-- A segment ends at its round, or one character before it, when the line breaks there.
segment_ends :
    (a : Analysed) (i : ℕ) (m : Measuring)
    → 0 < i
    → ((segment_at a i m).end ≡ i) ⊎ ((segment_at a i m).end + 1 ≡ i)
unfolding segment_at
segment_ends a i m h = elim (Bool-cases (breaks_line a i)) [
  | inl e ↦ rw e (inr (omega arith))
  | inr e ↦ rw e (inl refl)
]

ends_later : (a : Analysed) (i : ℕ) (m : Measuring) → ends_segment a i m ≡ true → m.start < i
unfolding ends_segment
ends_later a i m e = ground arith

goes_on :
    (a : Analysed) (i : ℕ) (m : Measuring)
    → m.start < i
    → ends_segment a i m ≡ false
    → (bidi_level_changed a i m.last_bidi_level ≡ false) × (i ≢ a.m_length)
unfolding ends_segment
goes_on a i m h e =
    let (same, inside) =
      none_holds (ltb m.start i) (bidi_level_changed a i m.last_bidi_level)
        (script_changed a i m.prev_script) (breaks_line a i) (i == a.m_length) (lt→ltb m.start i h)
        e in
    (same, λ at. ground (arith, inside, at))

measure_round-IsCovered :
    (a : Analysed) (i : ℕ) (m : Measuring)
    → 0 < a.m_length
    → i ≤ a.m_length
    → IsCovered a i m
    → IsCovered a (i + 1) (measure_round a i m)
unfolding measure_round mark_round end_segment
measure_round-IsCovered a i m some_text inside covered = elim (Bool-cases (ends_segment a i m)) [
  | inl e ↦
      let lt = ends_later a i m e in
      rw e (record {
        tiled =
            Tiles-append a 0 m.segments (segment_at a i (mark_round a i m)) i covered.tiled lt
              (segment_ends a i (mark_round a i m) (omega arith))
              (segment_at-HasOneLevel a i m covered lt inside);
        behind = omega arith;
        level = λ j lo hi within.
            let at : j ≡ i = omega arith in
            rw at (bidi_level_in a i m.last_bidi_level (omega arith));
        done = omega arith;
      })
  | inr e ↦ rw e (record {
    tiled = covered.tiled;
    behind = omega (arith, covered.behind);
    level = λ j lo hi within. elim (here_or_before j hi) [
      | inl at ↦ rw at (bidi_level_in a i m.last_bidi_level (omega arith))
      | inr earlier ↦
          let (kept, _) = goes_on a i m (omega arith) e in
          unchanged a i m.last_bidi_level j (omega arith) kept (covered.level j lo earlier within)
    ];
    done = elim (start_or_on covered.behind) [
      | inl first ↦ inl (omega arith)
      | inr lt ↦ let (_, inner) = goes_on a i m lt e in inl (in_front inner)
    ];
  })
]
  where
    here_or_before : (j : ℕ) → j < i + 1 → (j ≡ i) ⊎ (j < i)
    here_or_before j h = omega arith

    start_or_on : m.start ≤ i - 1 → (i ≡ 0) ⊎ (m.start < i)
    start_or_on h = omega arith

    in_front : i ≢ a.m_length → i + 1 ≤ a.m_length
    in_front h = ground (arith, h)

-- For a text that is not empty, the segments that measure hands to measureSegment follow each other
-- from the first character to the end of the text. None is empty but for the line break it may
-- leave out at its end, all characters of one have the same bidi level, and its direction is told
-- as that of this level.
pub measure-Tiles : (a : Analysed) → 0 < a.m_length → Tiles a 0 (measure a).segments a.m_length
unfolding measure
measure-Tiles a h =
    let some_text : (a.m_length == 0) ≡ false = ground arith in rw some_text (whole all_rounds)
  where
    all_rounds :
        IsCovered a (a.m_length + 1) (for_range (a.m_length + 1) 0 (measure_round a) unmeasured)
    all_rounds =
        for_range_inv (IsCovered a) (measure_round a) (a.m_length + 1) 0 (a.m_length + 1) unmeasured
          (omega arith) (λ i m lo hi covered. measure_round-IsCovered a i m h (omega arith) covered)
          (record {
            tiled = refl;
            behind = omega arith;
            level = λ j lo hi within. absurd (omega arith);
            done = inl (omega arith);
          })

    whole : {m : Measuring} → IsCovered a (a.m_length + 1) m → Tiles a 0 m.segments a.m_length
    whole {m} covered = elim covered.done [
      | inl early ↦ absurd (omega arith)
      | inr at ↦ rw at at covered.tiled
    ]
