-- ===== src/Text/Select/Segment.antt =====
-- getSegmentFromEnd, against the longest end of a text that fits.
use koreader_base.Prelude.{
  ℕ, zero, suc, ◌+◌, ◌-◌, ◌≤◌, ◌<◌, ◌≡◌, refl, ap, ◌∙◌, ◌⊎◌, inl, inr, Bool, true, false, some,
  arith, Bool-cases,
}
use koreader_base.Prelude.Int.{ℤ, pos, ◌+ℤ◌, ◌≤ℤ◌, ◌<ℤ◌, ltb_ℤ}
use koreader_base.Text.Line.{Measured}
use koreader_base.Text.Select.{segment_loop, get_segment_from_end, xtext_get_segment_from_end}

-- The width of the `n` characters from `i` on, added from the last one on.
unfoldable pub width_from : Measured → ℕ → ℕ → ℤ
unfolding ◌+ℤ◌
width_from x i zero = pos 0
width_from x i (suc n) = width_from x (i + 1) n +ℤ (x.m_charinfo i).width

module _ (x : Measured) (targeted_width : ℤ) where
  abbrev pub is_tail : ℕ → Bool
  is_tail k = (x.m_charinfo k).flags.is_cluster_tail

  abbrev pub rest_width : ℕ → ℤ
  rest_width k = width_from x k (x.m_length - k)

  -- The end of the text from `b` on was chosen: nothing, with the answer 0 for its start, or from
  -- the start of a cluster on, with its width.
  abbrev pub IsChosen : ℕ → ℕ → ℤ → Type 0
  IsChosen b start width =
      ((b ≡ x.m_length) × (start ≡ 0) × (width ≡ pos 0))
      ⊎ ((b < x.m_length)
          × (start ≡ b)
          × (is_tail b ≡ false)
          × (width ≡ rest_width b)
          × (width ≤ℤ targeted_width))

  -- The end from `k` on is not longer than the one from `b` on, or starts in a cluster, or goes over
  -- a cluster from which on the text is too wide.
  abbrev pub IsNoBetter : ℕ → ℕ → Type 0
  IsNoBetter b k =
      (b ≤ k)
      ⊎ (is_tail k ≡ true)
      ⊎ ((j : ℕ) × (k ≤ j) × (j < b) × (is_tail j ≡ false) × (targeted_width <ℤ rest_width j))

  abbrev Best : ℕ × ℤ → Type 0
  Best found = (b : ℕ) × IsChosen b found.0 found.1 × ((k : ℕ) → IsNoBetter b k)

  exceeds : (a b : ℤ) → ltb_ℤ a b ≡ true → a <ℤ b
  exceeds a b h = ground arith

  within : (a b : ℤ) → ltb_ℤ a b ≡ false → b ≤ℤ a
  within a b h = ground arith

  segment_loop-Best :
      (i n : ℕ) (width : ℤ) (b start : ℕ) (last_width : ℤ)
      → i + n ≡ x.m_length
      → width ≡ width_from x i n
      → IsChosen b start last_width
      → i ≤ b
      → ((k : ℕ) → i ≤ k → (b ≤ k) ⊎ (is_tail k ≡ true))
      → Best (segment_loop i x targeted_width width start last_width)
  unfolding segment_loop width_from
  segment_loop-Best zero n width b start last_width at sum chosen lo tails = (
    b,
    chosen,
    λ k. elim (tails k (omega arith)) [ inl later ↦ inl later | inr tail ↦ inr (inl tail) ],
  )
  segment_loop-Best (suc i) n width b start last_width at sum chosen lo tails =
      let wider = width +ℤ (x.m_charinfo i).width in
      let next : suc i ≡ i + 1 = omega arith in
      let sum' : wider ≡ width_from x i (suc n) =
        ap (λ (v : ℤ). v +ℤ (x.m_charinfo i).width) (sum ∙ ap (λ j. width_from x j n) next) in
      let count : suc n ≡ x.m_length - i = omega arith in
      let whole : wider ≡ rest_width i = sum' ∙ ap (width_from x i) count in
      elim (Bool-cases (is_tail i)) [
        | inl tail ↦ rw tail (
            segment_loop-Best i (suc n) wider b start last_width (omega arith) sum' chosen
              (omega arith)
              (λ k h. elim (first_or_later k h) [
                | inl here ↦ inr (rw here tail)
                | inr later ↦ tails k later
              ]))
        | inr head ↦ elim (Bool-cases (ltb_ℤ targeted_width wider)) [
          | inl e ↦
              rw (head, e)
                (
                  b,
                  chosen,
                  λ k. elim (up_to_or_later k) [
                    | inl before ↦ inr (
                        inr (
                          i,
                          before,
                          omega arith,
                          head,
                          rw whole at (exceeds targeted_width wider e),
                        ))
                    | inr later ↦ elim (tails k later) [
                      | inl beyond ↦ inl beyond
                      | inr tail ↦ inr (inl tail)
                    ]
                  ],
                )
          | inr e ↦
              rw (head, e)
                (segment_loop-Best i (suc n) wider i i wider (omega arith) sum'
                  (inr (omega arith, refl, head, whole, within targeted_width wider e))
                  (omega arith) (λ k h. inl h))
        ]
      ]
    where
      first_or_later : (k : ℕ) → i ≤ k → (k ≡ i) ⊎ (suc i ≤ k)
      first_or_later k h = omega arith

      up_to_or_later : (k : ℕ) → (k ≤ i) ⊎ (suc i ≤ k)
      up_to_or_later k = omega arith

  -- For a positive width, XText_getSegmentFromEnd gives the longest end of the text that starts with
  -- a cluster and fits, with its width: going over any further clusters meets one from which on the
  -- text is too wide. When not even the last cluster fits it gives width 0, with the index 1.
  pub xtext_get_segment_from_end-IsChosen :
      pos 0 <ℤ targeted_width
      → (b : ℕ) × (start : ℕ) × (width : ℤ) × (xtext_get_segment_from_end x targeted_width
          ≡ some (start + 1, width))
        × IsChosen b start width
        × ((k : ℕ) → IsNoBetter b k)
  unfolding xtext_get_segment_from_end get_segment_from_end width_from
  xtext_get_segment_from_end-IsChosen positive =
      let check : ltb_ℤ (pos 0) targeted_width ≡ true = ground arith in
      let (b, chosen, best) =
        segment_loop-Best x.m_length 0 (pos 0) x.m_length 0 (pos 0) (omega arith) refl
          (inl (refl, refl, refl)) (omega arith) (λ k h. inl h) in
      (b, _, _, rw check refl, chosen, best)
