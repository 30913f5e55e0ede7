-- ===== src/Text/Measure/Expected.antt =====
-- What measure should set on a character, from the character and the break behind it alone.
use koreader_base.Prelude.{ℕ, ◌≤◌, ◌≡◌, ◌≢◌, ◌⊎◌, true, ◌↔◌, arith}
use koreader_base.Text.Line.{Flags}
use koreader_base.Text.Measure.{Break, allow_break, must_break, no_break, no_flags, mark_break}

-- The flags that a character `c` before the break `b` should have, from the two alone.
pub record IsMarked (c : ℕ) (b : Break) (f : Flags) : Type 0 where
  pub wrap : (f.can_wrap_after ≡ true) ↔ ((c ≡ 0x09) ⊎ (b ≡ allow_break))
  pub must : (f.must_break_after ≡ true) ↔ ((c ≢ 0x09) × (b ≡ must_break))
  pub skip : (f.skip_on_break ≡ true) ↔ (
      (c ≡ 0x09)
      ⊎ (b ≡ must_break)
      ⊎ ((b ≡ allow_break) × ((c ≡ 0x20) ⊎ (c ≡ 0x3000) ⊎ ((0x2000 ≤ c) × (c ≤ 0x200B)))))
  pub extend :
      (f.can_extend_width ≡ true)
      ↔ ((c ≡ 0x09) ⊎ ((b ≡ allow_break) × (c ≡ 0x20)) ⊎ ((b ≡ no_break) × (c ≡ 0xA0)))
  pub fallback : (f.can_extend_width_fallback ≡ true) ↔ ((c ≢ 0x09) × (b ≡ allow_break))
  pub tab : (f.is_tab ≡ true) ↔ (c ≡ 0x09)

pub mark_break-IsMarked : (c : ℕ) (b : Break) → IsMarked c b (mark_break c b no_flags)
unfolding mark_break
mark_break-IsMarked c allow_break = record {
  wrap = ground arith;
  must = ground arith;
  skip = ground arith;
  extend = ground arith;
  fallback = ground arith;
  tab = ground arith;
}
mark_break-IsMarked c must_break = record {
  wrap = ground arith;
  must = ground arith;
  skip = ground arith;
  extend = ground arith;
  fallback = ground arith;
  tab = ground arith;
}
mark_break-IsMarked c no_break = record {
  wrap = ground arith;
  must = ground arith;
  skip = ground arith;
  extend = ground arith;
  fallback = ground arith;
  tab = ground arith;
}
