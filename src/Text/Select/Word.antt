-- ===== src/Text/Select/Word.antt =====
-- The words around a selection: what getSelectedWordIndices gives, and when it reads outside of the
-- window that it searches.
use koreader_base.Prelude.{
  ℕ, zero, suc, ◌+◌, ◌-◌, ◌≤◌, ◌<◌, ◌≡◌, refl, ap, ◌∙◌, ◌⊎◌, inl, inr, Bool, true, false, ◌&&◌,
  Option, none, some, ltb, leb, arith, Bool-cases,
}
use koreader_base.Text.Select.{
  Window, read_break, find_word_start, find_word_end, both_ends, to_lua, word_window,
  get_selected_word_indices, WordIndices, undefined_read, indices, xtext_get_selected_word_indices,
}

module _ (w : Window) where
  read_in : (p : ℕ) → w.ctx_start ≤ p → p < w.ctx_end → read_break w p ≡ some (w.breaks_at p)
  unfolding read_break
  read_in p lo hi =
      let e : (leb w.ctx_start p && ltb p w.ctx_end) ≡ true = ground arith in rw e refl

  first_out : (k : ℕ) → w.ctx_end ≤ w.ctx_start + k → find_word_start (suc k) w ≡ none
  unfolding find_word_start read_break
  first_out k h =
      let e : (leb w.ctx_start (w.ctx_start + k) && ltb (w.ctx_start + k) w.ctx_end) ≡ false =
        ground arith in
      rw e refl

  -- From the window's start, or behind a break, with no break up to `n` positions into the window.
  abbrev StartsWord : ℕ → ℕ → Type 0
  StartsWord top s =
      (s ≤ top)
      × ((p : ℕ) → w.ctx_start ≤ p → s ≤ p → p < top → w.breaks_at p ≡ false)
      × ((s ≡ w.ctx_start - 1)
          ⊎ ((p : ℕ) × (s ≡ p + 1) × (w.ctx_start ≤ p) × (w.breaks_at p ≡ true)))

  find_word_start-StartsWord :
      (n : ℕ)
      → w.ctx_start + n ≤ w.ctx_end
      → (s : ℕ) × (find_word_start n w ≡ some s) × StartsWord (w.ctx_start + n) s
  unfolding find_word_start
  find_word_start-StartsWord zero room =
      (w.ctx_start - 1, refl, (omega arith, λ p lo up hi. absurd (omega arith), inl refl))
  find_word_start-StartsWord (suc k) room =
      let reads = read_in (w.ctx_start + k) (omega arith) (omega arith) in
      elim (Bool-cases (w.breaks_at (w.ctx_start + k))) [
        | inl e ↦
            rw (reads, e)
              (
                w.ctx_start + k + 1,
                refl,
                (
                  omega arith,
                  λ p lo up hi. absurd (omega arith),
                  inr (w.ctx_start + k, refl, omega arith, e),
                ),
              )
        | inr e ↦
            let (s, found, (below, clear, why)) = find_word_start-StartsWord k (omega arith) in
            rw (reads, e)
              (
                s,
                found,
                (
                  omega arith,
                  λ p lo up hi. elim (here_or_before p hi) [
                    | inl at ↦ rw at e
                    | inr before ↦ clear p lo up before
                  ],
                  why,
                ),
              )
      ]
    where
      here_or_before :
          (p : ℕ) → p < w.ctx_start + suc k → (p ≡ w.ctx_start + k) ⊎ (p < w.ctx_start + k)
      here_or_before p h = omega arith

  -- Behind a break, or at the window's end, with no break from `bottom` on before it.
  abbrev EndsWord : ℕ → ℕ → Type 0
  EndsWord bottom e =
      (bottom ≤ e)
      × (e ≤ w.ctx_end)
      × ((p : ℕ) → bottom ≤ p → p + 1 < e → w.breaks_at p ≡ false)
      × ((e ≡ w.ctx_end) ⊎ ((p : ℕ) × (e ≡ p + 1) × (bottom ≤ p) × (w.breaks_at p ≡ true)))

  find_word_end-EndsWord :
      (n wend : ℕ)
      → w.ctx_start ≤ wend
      → wend + n ≡ w.ctx_end
      → (e : ℕ) × (find_word_end n w wend ≡ some e) × EndsWord wend e
  unfolding find_word_end
  find_word_end-EndsWord zero wend inside at =
      (wend, refl, (omega arith, omega arith, λ p lo hi. absurd (omega arith), inl (omega arith)))
  find_word_end-EndsWord (suc n) wend inside at =
      let reads = read_in wend inside (omega arith) in
      elim (Bool-cases (w.breaks_at wend)) [
        | inl b ↦
            rw (reads, b)
              (
                wend + 1,
                refl,
                (
                  omega arith,
                  omega arith,
                  λ p lo hi. absurd (omega arith),
                  inr (wend, refl, omega arith, b),
                ),
              )
        | inr b ↦
            let (e, found, (above, below, clear, why)) =
              find_word_end-EndsWord n (wend + 1) (omega arith) (omega arith) in
            rw (reads, b)
              (
                e,
                found,
                (
                  omega arith,
                  below,
                  λ p lo hi. elim (here_or_after p lo) [
                    | inl at ↦ rw at b
                    | inr after ↦ clear p after hi
                  ],
                  elim why [
                    | inl whole ↦ inl whole
                    | inr (p, is, up, broken) ↦ inr (p, is, omega arith, broken)
                  ],
                ),
              )
      ]
    where
      here_or_after : (p : ℕ) → wend ≤ p → (p ≡ wend) ⊎ (wend + 1 ≤ p)
      here_or_after p h = omega arith

-- What a selection within a text leads to: the first index is not behind the start, except that a
-- first character which ends a word is left out; the last index is not before the end.
abbrev pub AroundSelection : Window → ℕ → ℕ → ℕ → ℕ → Type 0
AroundSelection w start end first last =
    ((first ≤ start) ⊎ ((start ≡ 1) × (first ≡ 2) × (w.breaks_at 0 ≡ true)))
    × EndsWord w end last
    × ((p : ℕ) → w.ctx_start ≤ p → first ≤ p + 1 → p + 1 < start → w.breaks_at p ≡ false)

module _ (m_length : ℕ) (word_breaks : ℕ → ℕ → ℕ → Bool) (start end context : ℕ) where
  abbrev pub window : Window
  window = word_window m_length word_breaks (start - 1) end context

  abbrev searched : Option ℕ → Option ℕ → WordIndices
  searched first last = to_lua (both_ends first last)

  abbrev to_start : Option ℕ
  to_start = find_word_start (start - 1 - 1 + 1 - window.ctx_start) window

  abbrev to_end : Option ℕ
  to_end = find_word_end (window.ctx_end - end) window end

  answers :
      (s e : ℕ) → to_start ≡ some s → to_end ≡ some e → searched to_start to_end ≡ indices (s + 1) e
  answers s e found reached = λ i. searched (found i) (reached i)

  passes :
      1 ≤ start
      → start ≤ m_length
      → 1 ≤ end
      → end ≤ m_length
      → 0 < context
      → xtext_get_selected_word_indices m_length word_breaks start end context
        ≡ searched to_start to_end
  unfolding xtext_get_selected_word_indices get_selected_word_indices
  passes a b c d e =
      let checks : (leb 1 start
            && leb start m_length
            && (leb 1 end && leb end m_length)
            && ltb 0 context)
          ≡ true =
        ground arith in
      rw checks refl

  window_starts : window.ctx_start ≡ start - 1 - context
  unfolding word_window
  window_starts = refl

  window_ends : end ≤ m_length → (end ≤ window.ctx_end) × (window.ctx_end ≤ end + context)
  unfolding word_window
  window_ends h = elim (Bool-cases (ltb m_length (end + context))) [
    | inl e ↦ rw e (h, ground arith)
    | inr e ↦ rw e (omega arith, omega arith)
  ]

  -- For a selection from `start` to `end` in a text, in this order, and a positive context,
  -- XText_getSelectedWordIndices reads only in the window that was searched for words, and gives
  -- two indices. The last one is not before the selection's end and lies in the window, at its end
  -- or at a break, with no other break after the selection. The first one is not behind the
  -- selection's start, with no break between the two, except when the selection starts with the
  -- text and a break follows the first character: then it is the second character.
  pub xtext_get_selected_word_indices-AroundSelection :
      1 ≤ start
      → start ≤ end
      → end ≤ m_length
      → 0 < context
      → (first : ℕ) × (last : ℕ) × (xtext_get_selected_word_indices m_length word_breaks start end
            context
          ≡ indices first last)
        × AroundSelection window start end first last
  xtext_get_selected_word_indices-AroundSelection low order high some_context =
      let from = window_starts in
      let (holds_end, _) = window_ends high in
      let top = start - 1 - 1 + 1 in
      let size : window.ctx_start + (top - window.ctx_start) ≡ top = omega arith in
      let (s, found, (below, clear, why)) =
        find_word_start-StartsWord window (top - window.ctx_start) (omega arith) in
      let (e, reached, ending) =
        find_word_end-EndsWord window (window.ctx_end - end) end (omega arith) (omega arith) in
      (
        s + 1,
        e,
        passes low (omega arith) (omega arith) high some_context ∙ answers s e found reached,
        (
          first_of s (omega arith) why,
          ending,
          λ p lo up hi. clear p lo (omega arith) (omega arith),
        ),
      )
    where
      first_of :
          (s : ℕ)
          → s ≤ start - 1 - 1 + 1
          → (s ≡ window.ctx_start - 1)
            ⊎ ((p : ℕ) × (s ≡ p + 1) × (window.ctx_start ≤ p) × (window.breaks_at p ≡ true))
          → (s + 1 ≤ start) ⊎ ((start ≡ 1) × (s + 1 ≡ 2) × (window.breaks_at 0 ≡ true))
      first_of s h (inl e) = let from = window_starts in inl (omega arith)
      first_of s h (inr (p, is, lo, broken)) = elim (early_or_first p is h) [
        | inl early ↦ inl early
        | inr (one, at) ↦ inr (one, omega arith, rw at at broken)
      ]
        where
          early_or_first :
              (p : ℕ)
              → s ≡ p + 1
              → s ≤ start - 1 - 1 + 1
              → (s + 1 ≤ start) ⊎ ((start ≡ 1) × (p ≡ 0))
          early_or_first p is h = omega arith

  -- XText_getSelectedWordIndices does not check that the end is not before the start: for both in the
  -- text and a positive context, when the end is before the start by at least two more than the
  -- context, all of its checks pass and it reads outside of the array of breaks.
  pub xtext_get_selected_word_indices-undefined :
      1 ≤ end
      → start ≤ m_length
      → 0 < context
      → end + context + 2 ≤ start
      → xtext_get_selected_word_indices m_length word_breaks start end context ≡ undefined_read
  xtext_get_selected_word_indices-undefined low high some_context apart =
      let from = window_starts in
      let (_, short) = window_ends (omega arith) in
      let some_round : start - 1 - 1 + 1 - window.ctx_start ≡ suc (context - 1) = omega arith in
      let outside : to_start ≡ none =
        ap (λ n. find_word_start n window) some_round
        ∙ first_out window (context - 1) (omega arith) in
      passes (omega arith) high low (omega arith) some_context ∙ ap (λ o. searched o to_end) outside
