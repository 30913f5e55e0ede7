-- ===== src/Text/Bidi/Laws.antt =====
-- checkBidi on a whole text.
use koreader_base.Prelude.{
  ℕ, ◌+◌, ◌<◌, ◌≡◌, ◌≢◌, refl, ◌⊎◌, inl, inr, Bool, true, false, ◌||◌, ltb, ◌==◌, if◌then◌else◌,
  arith, Bool-cases,
}
use koreader_base.Prelude.Loops.{for_range, for_range_inv}
use koreader_base.Text.Bidi.Paragraph.{IsDirected, IsLargest, IsChecked, end_paragraph-IsChecked}
use koreader_base.Text.Bidi.{Directed, Checking, check_round, check_bidi}

module _ (x : Directed) where
  check_round-IsChecked :
      (i : ℕ)
      → i < x.m_length + 1
      → (c : Checking) → IsChecked x i c
      → IsChecked x (i + 1) (check_round x i c)
  unfolding check_round
  check_round-IsChecked i lt c checked = elim (Bool-cases (i == x.m_length || x.is_separator i)) [
    | inl e ↦ rw e (end_paragraph-IsChecked x i c (omega arith) (stop e) checked)
    | inr e ↦ rw e record {
      from = (let from = checked.from in omega arith);
      begins = checked.begins;
      whole = λ k lo hi. elim (last k hi) [
        | inl before ↦ checked.whole k lo before
        | inr at ↦ rw at (goes_on e).1
      ];
      done = checked.done;
      largest = checked.largest;
      unmarked = checked.unmarked;
      ended = inl (let on = (goes_on e).0 in omega arith);
    }
  ]
    where
      stop :
          (i == x.m_length || x.is_separator i) ≡ true
          → (i ≡ x.m_length) ⊎ (x.is_separator i ≡ true)
      stop e = ground arith

      goes_on :
          (i == x.m_length || x.is_separator i) ≡ false
          → (i ≢ x.m_length) × (x.is_separator i ≡ false)
      goes_on e = (ground arith, ground arith)

      last : (k : ℕ) → k < i + 1 → (k < i) ⊎ (k ≡ i)
      last k hi = omega arith

  -- When the text has right-to-left characters: every character of the text lies in a paragraph that
  -- FriBidi was asked for with the direction the source specifies, cut exactly at the separators
  -- (each paragraph begins at the start of the text or behind a separator and ends with a separator
  -- or the end of the text, with none before its last character). The character is marked
  -- right-to-left exactly when FriBidi finds that paragraph so, m_has_bidi is whether the largest
  -- level is above 1, and this is at least the level of the character's paragraph, and is 0 or the
  -- level of some paragraph that FriBidi was asked for.
  pub check_bidi-IsDirected :
      x.m_has_rtl ≡ true
      → (j : ℕ) → j < x.m_length
      → IsDirected x (check_bidi x).0 j
        × IsLargest x (check_bidi x).0
        × ((check_bidi x).1 ≡ ltb 1 (check_bidi x).0.max_level)
  unfolding check_bidi
  check_bidi-IsDirected rtl j inside = pick x.m_has_rtl rtl
    where
      start : Checking
      start = record { para_is_rtl = λ _. false; max_level = 0; s_start = 0 }

      loop_done : IsChecked x (x.m_length + 1) (for_range (x.m_length + 1) 0 (check_round x) start)
      loop_done =
          for_range_inv (IsChecked x) (check_round x) (x.m_length + 1) 0 _ start (omega arith)
            (λ k c lo hi. check_round-IsChecked k hi c)
            record {
              from = omega arith;
              begins = inl refl;
              whole = λ k lo hi. absurd (omega arith);
              done = λ k lo. absurd (omega arith);
              largest = inl refl;
              unmarked = λ k lo. refl;
              ended = inl (omega arith);
            }

      all : IsDirected x (for_range (x.m_length + 1) 0 (check_round x) start) j
      all = let ended = loop_done.ended in loop_done.done j (omega arith) inside

      pick :
          (b : Bool)
          → b ≡ true
          → let done = for_range (x.m_length + 1) 0 (check_round x) start in
            let result =
              if◌then◌else◌ {A = Checking × Bool} b (done, ltb 1 done.max_level) (start, false) in
            IsDirected x result.0 j × IsLargest x result.0 × (result.1 ≡ ltb 1 result.0.max_level)
      pick true e = (all, loop_done.largest, refl)
      pick false e = absurd (grind arith)
