-- ===== src/Text/Bidi/Paragraph.antt =====
-- What a round of checkBidi that ends a paragraph does.
use koreader_base.Prelude.{
  ℕ, ◌+◌, ◌-◌, ◌≤◌, ◌<◌, ◌≡◌, refl, ◌⊎◌, inl, inr, Bool, true, false, ◌&&◌, ltb, if◌then◌else◌,
  arith, Bool-cases, ltb→lt,
}
use koreader_base.Text.Bidi.{
  Directed, Checking, specified_type, is_rtl_type, s_length, is_marked, end_paragraph,
}

module _ (x : Directed) where
  -- From the start of the text or behind a separator, with no separator before its last character,
  -- to a separator or the end of the text.
  pub record IsParagraph (start size : ℕ) : Type 0 where
    pub begins : (start ≡ 0) ⊎ (x.is_separator (start - 1) ≡ true)
    pub whole : (k : ℕ) → start ≤ k → k + 1 < start + size → x.is_separator k ≡ false
    pub ends : (start + size ≡ x.m_length) ⊎ (x.is_separator (start + size - 1) ≡ true)

  -- A character in a paragraph that FriBidi was asked for, with its direction and a bound of its
  -- level.
  abbrev pub IsDirected : Checking → ℕ → Type 0
  IsDirected c j =
      (start : ℕ) × (size : ℕ) × IsParagraph start size
      × (start ≤ j)
      × (j < start + size)
      × (c.para_is_rtl j ≡ is_rtl_type (x.embedding (specified_type x) start size).para_type)
      × ((x.embedding (specified_type x) start size).level ≤ c.max_level)

  -- The maximum level is that of a paragraph that FriBidi was asked for, or still 0.
  abbrev pub IsLargest : Checking → Type 0
  IsLargest c =
      (c.max_level ≡ 0)
      ⊎ ((start : ℕ) × (size : ℕ) × IsParagraph start size
          × ((x.embedding (specified_type x) start size).level ≡ c.max_level))

  -- Before the round `i`: what lies before the paragraph under way is done.
  pub record IsChecked (i : ℕ) (c : Checking) : Type 0 where
    pub from : c.s_start ≤ i
    pub begins :
        (c.s_start ≡ 0) ⊎ (x.is_separator (c.s_start - 1) ≡ true) ⊎ (x.m_length < c.s_start)
    pub whole : (k : ℕ) → c.s_start ≤ k → k < i → x.is_separator k ≡ false
    pub done : (j : ℕ) → j < c.s_start → j < x.m_length → IsDirected c j
    pub largest : IsLargest c
    pub unmarked : (j : ℕ) → c.s_start ≤ j → c.para_is_rtl j ≡ false
    pub ended : (i ≤ x.m_length) ⊎ (x.m_length < c.s_start)

  module _ (i : ℕ) (c : Checking) (inside : i ≤ x.m_length)
      (stops : (i ≡ x.m_length) ⊎ (x.is_separator i ≡ true)) (checked : IsChecked i c) where
    size : ℕ
    size = s_length x c.s_start i

    size_lem :
        ((i < x.m_length) × (c.s_start + size ≡ i + 1))
        ⊎ ((i ≡ x.m_length) × (c.s_start + size ≡ i))
    unfolding size s_length
    size_lem =
        let from = checked.from in
        elim (Bool-cases (ltb i x.m_length)) [
          | inl e ↦ rw e (inl (ltb→lt i x.m_length e, omega arith))
          | inr e ↦ rw e (inr (ground arith, omega arith))
        ]

    here-IsParagraph : IsParagraph c.s_start size
    here-IsParagraph = record {
      begins = first checked.from checked.begins;
      whole = λ k lo hi. checked.whole k lo (before k hi size_lem);
      ends = elim size_lem [
        | inl (lt, e) ↦ inr (separator lt stops (last e))
        | inr (at, e) ↦ inl (omega arith)
      ];
    }
      where
        first :
            c.s_start ≤ i
            → (c.s_start ≡ 0) ⊎ (x.is_separator (c.s_start - 1) ≡ true) ⊎ (x.m_length < c.s_start)
            → (c.s_start ≡ 0) ⊎ (x.is_separator (c.s_start - 1) ≡ true)
        first from (inl zero_start) = inl zero_start
        first from (inr (inl sep)) = inr sep
        first from (inr (inr past)) = absurd (omega arith)

        before :
            (k : ℕ)
            → k + 1 < c.s_start + size
            → ((i < x.m_length) × (c.s_start + size ≡ i + 1))
              ⊎ ((i ≡ x.m_length) × (c.s_start + size ≡ i))
            → k < i
        before k hi e = omega arith

        last : c.s_start + size ≡ i + 1 → c.s_start + size - 1 ≡ i
        last e = omega arith

        separator :
            {k : ℕ}
            → i < x.m_length
            → (i ≡ x.m_length) ⊎ (x.is_separator i ≡ true)
            → k ≡ i
            → x.is_separator k ≡ true
        separator lt (inl at) e = absurd (omega arith)
        separator lt (inr sep) e = rw e sep

    marked_here :
        (j : ℕ) → c.s_start ≤ j → j < i + 1 → j < x.m_length → is_marked x c.s_start i j ≡ true
    unfolding is_marked
    marked_here j lo hi within = ground arith

    not_marked : (j : ℕ) → (j < c.s_start) ⊎ (i + 1 ≤ j) → is_marked x c.s_start i j ≡ false
    unfolding is_marked
    not_marked j out = let from = checked.from in ground arith

    max_grows : (a b : ℕ) → (a ≤ (if ltb a b then b else a)) × (b ≤ (if ltb a b then b else a))
    max_grows a b = (ground arith, ground arith)

    kept : (j : ℕ) → j < c.s_start → IsDirected c j → IsDirected (end_paragraph x i c) j
    unfolding end_paragraph
    kept j old (start, n, paragraph, lo, hi, flag, level) = (
      start,
      n,
      paragraph,
      lo,
      hi,
      flag_kept _ (not_marked j (inl old)) flag,
      below level (max_grows c.max_level _).0,
    )
      where
        below : {l m n : ℕ} → l ≤ m → m ≤ n → l ≤ n
        below a b = omega arith

        flag_kept :
            {b f : Bool}
            → (r : Bool) → {m : Bool} → m ≡ false
            → f ≡ b
            → (if r && m then true else f) ≡ b
        flag_kept r e same = ground arith

    here-IsDirected :
        (j : ℕ) → c.s_start ≤ j → j < i + 1 → j < x.m_length → IsDirected (end_paragraph x i c) j
    unfolding end_paragraph size
    here-IsDirected j lo hi within = (
      c.s_start,
      size,
      here-IsParagraph,
      lo,
      inside_size size_lem,
      flag_set _ (marked_here j lo hi within) (checked.unmarked j lo),
      (max_grows c.max_level _).1,
    )
      where
        inside_size :
            ((i < x.m_length) × (c.s_start + size ≡ i + 1))
              ⊎ ((i ≡ x.m_length) × (c.s_start + size ≡ i))
            → j < c.s_start + size
        inside_size e = omega arith

        flag_set :
            {f : Bool}
            → (r : Bool) → {m : Bool} → m ≡ true
            → f ≡ false
            → (if r && m then true else f) ≡ r
        flag_set r e off = ground arith

    end_paragraph-IsLargest : IsLargest (end_paragraph x i c)
    unfolding end_paragraph size
    end_paragraph-IsLargest =
        let e = x.embedding (specified_type x) c.s_start (s_length x c.s_start i) in
        elim (Bool-cases (ltb c.max_level e.level)) [
          | inl more ↦ rw more (inr (c.s_start, size, here-IsParagraph, refl))
          | inr less ↦ rw less checked.largest
        ]

    pub end_paragraph-IsChecked : IsChecked (i + 1) (end_paragraph x i c)
    unfolding end_paragraph
    end_paragraph-IsChecked = record {
      from = omega arith;
      begins = elim stops [
        | inl at ↦ inr (inr (omega arith))
        | inr sep ↦ inr (inl (behind sep (omega arith)))
      ];
      whole = λ k lo hi. absurd (omega arith);
      done = λ j lt within. elim (old_or_here j) [
        | inl old ↦ kept j old (checked.done j old within)
        | inr here ↦ here-IsDirected j here lt within
      ];
      largest = end_paragraph-IsLargest;
      unmarked = λ j lo.
          flag_off _ (not_marked j (inr lo))
            (checked.unmarked j (let from = checked.from in omega arith));
      ended = elim (before_end) [ inl lt ↦ inl (omega arith) | inr at ↦ inr (omega arith) ];
    }
      where
        behind : {k : ℕ} → x.is_separator i ≡ true → k ≡ i → x.is_separator k ≡ true
        behind sep e = rw e sep

        old_or_here : (j : ℕ) → (j < c.s_start) ⊎ (c.s_start ≤ j)
        old_or_here j = omega arith

        before_end : (i < x.m_length) ⊎ (i ≡ x.m_length)
        before_end = omega arith

        flag_off :
            {f : Bool}
            → (r : Bool) → {m : Bool} → m ≡ false
            → f ≡ false
            → (if r && m then true else f) ≡ false
        flag_off r e off = ground arith
