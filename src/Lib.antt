-- ===== src/Lib.antt =====
-- Verification of C and C++ parts of koreader-base: the software blitter, blitbuffer.c; the table
-- of open devices of the input module, input/input.c; and the decoding and laying out of text in
-- xtext.cpp.
--
-- The Lua side (ffi/blitbuffer.lua) hands blitbuffer.c a `BlitBuffer` and a rectangle of the screen,
-- and it fills, blends, inverts, hatches or dithers the pixels in place, or blits from a second
-- buffer, in any of five pixel types and four rotations. The model follows it in layers; each file
-- names the C functions that it is about.
--
-- - Prelude: the names that the files share, words of 8 to 64 bits with their wrap-around, bit
--   masks, and the `for` and `while` loops as recursion on the number of rounds left.
-- - Color: the colour structs of blitbuffer.h and the macros of blitbuffer.c that convert, pack
--   and scale channels; Color/Laws has their rounding, and Color/Spec says what blending should
--   make of a pixel.
-- - Memory: the bytes behind `data`, as a function of the offset, and a `PixelFormat`: how a pixel
--   type is loaded and stored, with the laws that the loops rely on. Memory/Formats has the five.
-- - Buffer: `BlitBuffer`, its config bits, BB_GET_WIDTH, BB_GET_HEIGHT and BB_GET_PIXEL.
--   Buffer/Geometry has the well-formedness of a buffer (`IsValid`) and where its pixels lie.
-- - Paint: the loop over a rectangle of the screen that most operations share, and `Repaints`,
--   what such an operation promises.
-- - Stored: the operations that run along the lines of the stored image, by pointers or memset,
--   and `PaintsStored`, which Stored/Screen turns into `Repaints`.
-- - Rect: BB_fill, BB_fill_rect, BB_fill_rect_RGB32 (Rect/Fill), the four blending operations
--   (Rect/Blend), BB_invert_rect (Rect/Invert) and BB_hatch_rect (Rect/Hatch).
-- - Corner: BB_paint_rounded_corner without anti-aliasing.
-- - Blit: the loop over two buffers, BB_blit_to and the functions for its five destination types,
--   with their memcpy paths (Blit/Copy, Blit/Fast); `Blits` is what a blit promises.
-- - Compose: BB_add_blit_from (Compose/Add), BB_invert_blit_from (Compose/Negate),
--   BB_alpha_blit_from (Compose/Alpha), BB_pmulalpha_blit_from (Compose/Premultiplied),
--   BB_color_blit_from and BB_color_blit_from_RGB32 (Compose/Colorize). Compose/Composed says what
--   the cases of the two alpha blits should make of a pixel.
-- - Dither: dither_o8x8, BB_dither_blit_to, BB_dither_alpha_blit_from and
--   BB_dither_pmulalpha_blit_from.
-- - Input: the descriptors of open devices and timers in input/input.c and
--   input/timerfd-callbacks.h. Input/Nfds is about computeNfds, Input/Table about the slots of the
--   table, and Input/Reach about sequences of calls from Lua. What a system call answers is an
--   argument, and `closed` lists the descriptors that `close` was called on. Input/Queue is the
--   loop of waitForInput that reads a device, with the answers of `read` as a list.
-- - Text: the class XText of xtext.cpp, in the order in which Lua uses it. Text/Codepoint is
--   is_unicodepoint_rtl; Text/Utf8 is Utf8ToUnicode on the bytes of a string, with
--   setTextFromUTF8String and setTextFromUTF8CharsLuaArray, which fill m_text (Text/Utf8/Passes is
--   about any bytes, Text/Utf8/RoundTrip about encoded text); Text/Bidi is checkBidi, which asks
--   FriBidi paragraph by paragraph (Text/Bidi/Paragraph, Text/Bidi/Laws); Text/Measure is the loop
--   of measure over the characters, which sets the flags in m_charinfo (Text/Measure/Marks, Text/Measure/Expected) and
--   cuts the segments for HarfBuzz (Text/Measure/Segments); Text/Line is makeLine, which reads
--   these flags and the widths, with a round of its loop in Text/Line/Candidate and Text/Line/Breaks, the loop
--   in Text/Line/Loop, and line after line in Text/Line/Cover; Text/Select is getSegmentFromEnd and
--   getSelectedWordIndices. The methods of Lua that check the arguments are functions named xtext_.
-- - Tests: small buffers and colours, and texts, with the theorems applied to them.
--
-- An operation is a function from the buffers and its arguments to the bytes behind the
-- destination when it returns. Where the C code calls `exit`, divides by zero or reads a variable
-- that was never set, the result is an `Outcome`. Fields of structs and parameters are natural
-- numbers, with the range of the C type as a hypothesis where it matters; `unsigned int` and
-- `size_t` arithmetic wraps at 2 ^ 32 and 2 ^ 64 as written in the code. A loop
-- `for (i = a; i < a + n; i++)` takes as many rounds as its wrapped end leaves, so it needs no fuel.
-- The one `while` loop with another end, in BB_paint_rounded_corner_noAA, has fuel for as many
-- rounds as the radius, and `none` stands for running out of it; its variables `f` and `ddF` are
-- integers without the bounds of `int`, which `-2 * r` passes for a radius above 2 ^ 30. In Text, `int`
-- variables that can be negative are integers; Utf8ToUnicode has fuel for one round per byte and makeLine for one per
-- character and one more, which is enough, as each round goes on by at least a byte or a
-- character. The machine is little-endian.
--
-- `IsValid` says: the sides fit an `unsigned int`, a line holds a whole number of pixels and at
-- least the width, and the buffer is smaller than 4 GiB.
--
-- Not modelled: BB_saturate_rect and BB_paint_rounded_corner_AA, which compute in `double`, and
-- BB_paint_rounded_corner_AA_1px; aliasing of two buffers, which `restrict` excludes; messages on
-- stderr; in input/input.c, the choice of a ready device after `select`, and fakeTapInput. The
-- other modules of the repository (djvu.c, unpack.c, wrap-mupdf.c, cre.cpp and the Lua files) bind
-- libraries or do I/O.
-- In xtext.cpp: what libunibreak, FriBidi and HarfBuzz answer, which are fields of records
-- (`Analysed`, `Directed`) or arguments; getHyphenWidth; measureSegment, which
-- writes the widths and the flags of clusters, and shapeLine; overflow of `int` sums of widths and indices,
-- such as `end + context` in getSelectedWordIndices.
pub mod Prelude
pub mod Color
pub mod Memory
pub mod Buffer
pub mod Paint
pub mod Outcome
pub mod Stored
pub mod Rect
pub mod Corner
pub mod Blit
pub mod Compose
pub mod Dither
pub mod Input
pub mod Text
pub mod Tests
