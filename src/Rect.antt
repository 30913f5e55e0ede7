-- ===== src/Rect.antt =====
-- The operations of blitbuffer.c on one rectangle of one buffer.
pub mod Blend
pub mod Fill
pub mod Invert
pub mod Hatch
