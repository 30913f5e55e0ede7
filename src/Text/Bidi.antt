-- ===== src/Text/Bidi.antt =====
-- XText::checkBidi in xtext.cpp, which gives FriBidi the text paragraph by paragraph. The types of
-- characters and what fribidi_get_par_embedding_levels_ex answers are in the record `Directed`.
pub mod Paragraph
pub mod Laws
use koreader_base.Prelude.{
  ℕ, ◌+◌, ◌-◌, Bool, true, false, ◌&&◌, ◌||◌, ltb, leb, ◌==◌, if◌then◌else◌,
}
use koreader_base.Prelude.Loops.{for_range}

-- FRIBIDI_PAR_LTR, RTL, WLTR and WRTL
pub data ParType : Type 0 where
  par_ltr par_rtl par_wltr par_wrtl : ParType

-- The maximum level and the direction that FriBidi finds for a paragraph.
pub record Embedding : Type 0 where
  pub level : ℕ
  pub para_type : ParType

-- `embedding` is asked with the direction that is specified, the start and the length.
pub record Directed : Type 0 where
  pub m_length : ℕ
  pub m_has_rtl : Bool
  pub m_auto_para_direction : Bool
  pub m_para_direction_rtl : Bool
  pub is_separator : ℕ → Bool
  pub embedding : ParType → ℕ → ℕ → Embedding

unfoldable pub specified_type : Directed → ParType
specified_type x =
    if x.m_auto_para_direction
    then (if x.m_para_direction_rtl then par_wrtl else par_wltr)
    else (if x.m_para_direction_rtl then par_rtl else par_ltr)

abbrev pub is_rtl_type : ParType → Bool
is_rtl_type par_ltr = false
is_rtl_type par_rtl = true
is_rtl_type par_wltr = false
is_rtl_type par_wrtl = true

-- The variables of the loop, with the flag CHAR_PARA_IS_RTL of each character.
pub record Checking : Type 0 where
  pub para_is_rtl : ℕ → Bool
  pub max_level : ℕ
  pub s_start : ℕ

-- The length of the paragraph that ends at `i`, with its separator.
unfoldable pub s_length : Directed → ℕ → ℕ → ℕ
s_length x s_start i = if ltb i x.m_length then i - s_start + 1 else i - s_start

-- The characters that get the flag: those before `i`, and a separator at `i`.
unfoldable pub is_marked : Directed → ℕ → ℕ → ℕ → Bool
is_marked x s_start i j = (leb s_start j && ltb j i) || (ltb i x.m_length && (j == i))

unfoldable pub end_paragraph : Directed → ℕ → Checking → Checking
unfolding specified_type s_length is_marked
end_paragraph x i c =
    let e = x.embedding (specified_type x) c.s_start (s_length x c.s_start i) in
    record {
      para_is_rtl = λ j.
          if is_rtl_type e.para_type && is_marked x c.s_start i j then true else c.para_is_rtl j;
      max_level = if ltb c.max_level e.level then e.level else c.max_level;
      s_start = i + 1;
    }

unfoldable pub check_round : Directed → ℕ → Checking → Checking
unfolding end_paragraph
check_round x i c = if i == x.m_length || x.is_separator i then end_paragraph x i c else c

-- The flags, and m_has_bidi. Without right-to-left characters there is nothing to do.
unfoldable pub check_bidi : Directed → Checking × Bool
unfolding check_round for_range
check_bidi x =
    let start : Checking = record { para_is_rtl = λ _. false; max_level = 0; s_start = 0 } in
    let done = for_range (x.m_length + 1) 0 (check_round x) start in
    if x.m_has_rtl then (done, ltb 1 done.max_level) else (start, false)
