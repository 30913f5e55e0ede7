-- ===== src/Text/Codepoint.antt =====
-- is_unicodepoint_rtl in xtext.cpp, and the list of ranges in its comment.
use koreader_base.Prelude.{
  ℕ, ◌≤◌, ◌≡◌, ◌⊎◌, ◌↔◌, Bool, true, false, ◌||◌, leb, ◌==◌, if◌then◌else◌, arith,
}

unfoldable pub is_unicodepoint_rtl : ℕ → Bool
is_unicodepoint_rtl c =
    if leb 0x0590 c
    then (if leb c 0x2067
        then (if leb c 0x08FF
            then true
            else if leb 0x200F c
            then (c == 0x200F || c == 0x202B || c == 0x202E || c == 0x2067)
            else false)
        else if leb 0xFB1D c
        then (if leb c 0xFDFF
            then true
            else if leb c 0xFEFF
            then leb 0xFE70 c
            else if leb c 0x1EEBB
            then (if leb 0x1E800 c then true else if leb c 0x10FFF then leb 0x10800 c else false)
            else false)
        else false)
    else false

abbrev Between : ℕ → ℕ → ℕ → Type 0
Between low high c = (low ≤ c) × (c ≤ high)

-- The ranges that the comment lists.
abbrev pub IsListed : ℕ → Type 0
IsListed c =
    Between 0x0590 0x08FF c
    ⊎ (c ≡ 0x200F)
    ⊎ (c ≡ 0x202B)
    ⊎ (c ≡ 0x202E)
    ⊎ (c ≡ 0x2067)
    ⊎ Between 0xFB1D 0xFDFF c
    ⊎ Between 0xFE70 0xFEFF c
    ⊎ Between 0x10800 0x10FFF c
    ⊎ Between 0x1E800 0x1EEBB c

-- The balanced search of is_unicodepoint_rtl answers true on exactly the characters of the ranges
-- that its comment lists.
pub is_unicodepoint_rtl-IsListed : (c : ℕ) → (is_unicodepoint_rtl c ≡ true) ↔ IsListed c
unfolding is_unicodepoint_rtl
is_unicodepoint_rtl-IsListed c = ground arith
