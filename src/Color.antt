-- ===== src/Color.antt =====
-- The colour structs of blitbuffer.h. A field of a struct is the number that it holds.
pub mod Convert
pub mod Laws
pub mod Spec
use koreader_base.Prelude.{ℕ}

pub record Color8 : Type 0 where
  pub a : ℕ

pub record Color8A : Type 0 where
  pub a : ℕ
  pub alpha : ℕ

pub record ColorRgb16 : Type 0 where
  pub v : ℕ

pub record ColorRgb24 : Type 0 where
  pub r : ℕ
  pub g : ℕ
  pub b : ℕ

pub record ColorRgb32 : Type 0 where
  pub r : ℕ
  pub g : ℕ
  pub b : ℕ
  pub alpha : ℕ

-- The TYPE_ constants of a buffer's pixels, and the struct of each. There is no code for BB4.
pub data BbType : Type 0 where
  bb8 bb8a bbrgb16 bbrgb24 bbrgb32 : BbType

abbrev pub ColorOf : BbType → Type 0
ColorOf bb8 = Color8
ColorOf bb8a = Color8A
ColorOf bbrgb16 = ColorRgb16
ColorOf bbrgb24 = ColorRgb24
ColorOf bbrgb32 = ColorRgb32
