-- ===== src/Compose.antt =====
-- The blits of blitbuffer.c that compose the source with the destination: BB_add_blit_from,
-- BB_invert_blit_from and BB_alpha_blit_from. They end the program when the types do not go
-- together.
pub mod Add
pub mod Negate
pub mod Alpha
pub mod Premultiplied
pub mod Colorize
pub mod Pixels
pub mod Composed
pub mod Laws
pub mod Exits
pub mod Rounding
