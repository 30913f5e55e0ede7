-- ===== src/Text/Select.antt =====
-- XText::getSegmentFromEnd and getSelectedWordIndices in xtext.cpp, and the methods of Lua that check
-- their arguments.
pub mod Segment
pub mod Word
use mathlib.Core.List.{List, [], ◌∷◌}
use koreader_base.Prelude.{
  ℕ, zero, suc, ◌+◌, ◌-◌, Bool, true, false, ◌&&◌, Option, none, some, ltb, leb, if◌then◌else◌,
}
use koreader_base.Prelude.Int.{ℤ, pos, ◌+ℤ◌, ltb_ℤ}
use koreader_base.Text.Line.{Measured}

-- The loop of getSegmentFromEnd over the first `n` characters, the last of them first, with
-- `width`, `last_cluster_start` and `last_width`.
unfoldable pub segment_loop : ℕ → Measured → ℤ → ℤ → ℕ → ℤ → ℕ × ℤ
unfolding ◌+ℤ◌
segment_loop zero x targeted_width width last_cluster_start last_width =
    (last_cluster_start, last_width)
segment_loop (suc i) x targeted_width width last_cluster_start last_width =
    let c = x.m_charinfo i in
    let wider = width +ℤ c.width in
    let skipped = segment_loop i x targeted_width wider last_cluster_start last_width in
    let taken = segment_loop i x targeted_width wider i wider in
    if c.flags.is_cluster_tail
    then skipped
    else if ltb_ℤ targeted_width wider
    then (last_cluster_start, last_width)
    else taken

unfoldable pub get_segment_from_end : Measured → ℤ → ℕ × ℤ
unfolding segment_loop
get_segment_from_end x targeted_width =
    let found = segment_loop x.m_length x targeted_width (pos 0) 0 (pos 0) in (found.0 + 1, found.1)

-- XText_getSegmentFromEnd; `none` is an error that luaL_argcheck raises.
unfoldable pub xtext_get_segment_from_end : Measured → ℤ → Option (ℕ × ℤ)
unfolding get_segment_from_end
xtext_get_segment_from_end x width =
    if ltb_ℤ (pos 0) width then some (get_segment_from_end x width) else none

-- The window that is searched for words, and whether set_wordbreaks_utf32 set WORDBREAK_BREAK at
-- a position of the text in it.
pub record Window : Type 0 where
  pub ctx_start : ℕ
  pub ctx_end : ℕ
  pub breaks_at : ℕ → Bool

-- `breaks[p - offset]`. Outside of the `len` entries the access is undefined: `none`.
unfoldable pub read_break : Window → ℕ → Option Bool
read_break w p = if leb w.ctx_start p && ltb p w.ctx_end then some (w.breaks_at p) else none

-- On a break the search ends, else it goes on.
abbrev pub on_break : Option Bool → Option ℕ → Option ℕ → Option ℕ
on_break none here rest = none
on_break (some true) here rest = here
on_break (some false) here rest = rest

-- The loop down from `wstart`, over the `n` positions from the start of the window up to it. At
-- its end `wstart` is the position before the window, or 0 for -1.
unfoldable pub find_word_start : ℕ → Window → Option ℕ
unfolding read_break
find_word_start zero w = some (w.ctx_start - 1)
find_word_start (suc k) w =
    let rest = find_word_start k w in
    on_break (read_break w (w.ctx_start + k)) (some (w.ctx_start + k + 1)) rest

-- The loop up from `wend`, with `n` positions to the end of the window.
unfoldable pub find_word_end : ℕ → Window → ℕ → Option ℕ
unfolding read_break
find_word_end zero w wend = some wend
find_word_end (suc n) w wend =
    let rest = find_word_end n w (wend + 1) in on_break (read_break w wend) (some (wend + 1)) rest

abbrev pub both_ends : Option ℕ → Option ℕ → Option (ℕ × ℕ)
both_ends none wend = none
both_ends (some wstart) none = none
both_ends (some wstart) (some wend) = some (wstart + 1, wend)

-- The window of `context` characters around the selection, cut to the text. `end + context` is a sum
-- of two `int`, here without its overflow.
unfoldable pub word_window : ℕ → (ℕ → ℕ → ℕ → Bool) → ℕ → ℕ → ℕ → Window
word_window m_length word_breaks start end context =
    let ctx_start = start - context in
    let ctx_end = if ltb m_length (end + context) then m_length else end + context in
    record { ctx_start = ctx_start; ctx_end = ctx_end; breaks_at = word_breaks ctx_start ctx_end }

-- `start > 0 ? start-1 : 0` is in the window, as `context` is positive.
unfoldable pub get_selected_word_indices : ℕ → (ℕ → ℕ → ℕ → Bool) → ℕ → ℕ → ℕ → Option (ℕ × ℕ)
unfolding word_window find_word_start find_word_end
get_selected_word_indices m_length word_breaks start end context =
    let w = word_window m_length word_breaks start end context in
    both_ends (find_word_start (start - 1 + 1 - w.ctx_start) w)
      (find_word_end (w.ctx_end - end) w end)

-- What a call from Lua comes to: an error of luaL_argcheck, an access outside of `breaks`, or the
-- two indices.
pub data WordIndices : Type 0 where
  bad_argument : WordIndices
  undefined_read : WordIndices
  indices : ℕ → ℕ → WordIndices

abbrev pub to_lua : Option (ℕ × ℕ) → WordIndices
to_lua none = undefined_read
to_lua (some (first, last)) = indices first last

unfoldable pub xtext_get_selected_word_indices : ℕ → (ℕ → ℕ → ℕ → Bool) → ℕ → ℕ → ℕ → WordIndices
unfolding get_selected_word_indices
xtext_get_selected_word_indices m_length word_breaks start end context =
    if leb 1 start && leb start m_length && (leb 1 end && leb end m_length) && ltb 0 context
    then to_lua (get_selected_word_indices m_length word_breaks (start - 1) end context)
    else bad_argument
