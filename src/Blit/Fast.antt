-- ===== src/Blit/Fast.antt =====
-- BB8 to BB8 and RGB32 to RGB32: single copy, copies by line and loops by pixel.
use koreader_base.Prelude.{
  ℕ, ◌+◌, ◌-◌, ◌*◌, ◌≤◌, ◌<◌, ◌≡◌, ap, Bool, true, ◌&&◌, ◌==◌, some, u32, u64, ◌<<<◌, arith, inl,
  inr, Bool-cases,
}
use koreader_base.Color.{bb8, bbrgb32}
use koreader_base.Memory.{Bytes, memcpy}
use koreader_base.Memory.Formats.{format8, format32}
use koreader_base.Buffer.{BlitBuffer, deg0, bb_rotation}
use koreader_base.Buffer.Geometry.{IsValid, stored_at, mul_step}
use koreader_base.Stored.{StoredRect}
use koreader_base.Stored.Laws.{line_fits, block_fits}
use koreader_base.Blit.{Area, o_y, is_deg0, copy_bb8, copy_bb32}
use koreader_base.Blit.Convert.{to_bb8, to_bb32}
use koreader_base.Blit.Laws.{FitsBoth, Blits, o_y_lem, blit_pixels-Blits}
use koreader_base.Blit.Copy.{is_deg0→≡, flat_fits, lines-Blits, full-Blits}

memcpy_eq :
    (m src : Bytes) (p p' q q' n n' : ℕ)
    → p ≡ p'
    → q ≡ q'
    → n ≡ n'
    → memcpy m p src q n ≡ memcpy m p' src q' n'
memcpy_eq m src p p' q q' n n' hp hq hn = cc

module _ (src dst : BlitBuffer) (a : Area) where
  abbrev both_flat : Bool
  both_flat = is_deg0 (bb_rotation src) && is_deg0 (bb_rotation dst)

  rotations : both_flat ≡ true → (bb_rotation src ≡ deg0) × (bb_rotation dst ≡ deg0)
  rotations e =
      let parts : (is_deg0 (bb_rotation src) ≡ true) × (is_deg0 (bb_rotation dst) ≡ true) =
        ground arith in
      (is_deg0→≡ _ parts.0, is_deg0→≡ _ parts.1)

  abbrev offs_rect : StoredRect
  offs_rect = record { rx = a.offs_x; ry = a.offs_y; rw = a.w; rh = a.h }

  abbrev to_rect : StoredRect
  to_rect = record { rx = a.dest_x; ry = a.dest_y; rw = a.w; rh = a.h }

module _ (src dst : BlitBuffer) (valid_src : IsValid 1 src) (valid_dst : IsValid 1 dst) (a : Area)
    (fits : FitsBoth src dst a) where
  flat8 :
      both_flat src dst a ≡ true → Blits bb8 bb8 (λ _ _ c d. some c) src dst a (copy_bb8 src dst a)
  unfolding copy_bb8
  flat8 e₀ =
      let flat = rotations src dst a e₀ in
      let room = flat_fits bb8 src dst valid_src valid_dst flat.0 flat.1 a fits in
      let from = block_fits format8 src valid_src (offs_rect src dst a) (room.0, room.1) in
      let to = block_fits format8 dst valid_dst (to_rect src dst a) (room.2, room.3) in
      elim (Bool-cases (
        a.offs_x == 0
        && (a.dest_x == 0
            && (a.w == src.w
                && (a.w == dst.w && (src.stride == dst.stride && src.stride == a.w)))))) [
                  | inl e ↦
                      let c : (a.offs_x ≡ 0)
                          × (a.dest_x ≡ 0)
                          × (a.w ≡ dst.w)
                          × (src.stride ≡ dst.stride)
                          × (src.stride ≡ a.w) =
                        ground arith in
                      let lines : a.w ≡ dst.pixel_stride = omega (arith, valid_dst.whole) in
                      let size : u32 (a.w * a.h) ≡ dst.pixel_stride * a.h * 1 =
                        omega (arith, to.0, ap (λ (n : ℕ). n * a.h) lines) in
                      rw (e₀, e, copy_bb8)
                        (rw (to.1, from.1, size)
                          (full-Blits bb8 src dst valid_src valid_dst flat.0 flat.1 a fits c.0 c.1
                            c.2 c.3))
                  | inr e ↦
                      rw (e₀, e, copy_bb8)
                        (lines-Blits bb8 src dst valid_src valid_dst flat.0 flat.1 a fits _
                          (λ j m lo hi.
                            let o = o_y_lem bb8 bb8 src dst valid_src valid_dst a fits j hi in
                            let to_line =
                              line_fits format8 dst valid_dst (to_rect src dst a) j (omega arith) in
                            let from_line =
                              line_fits format8 src valid_src (offs_rect src dst a)
                                (a.offs_y + (j - a.dest_y)) (omega arith) in
                            let p : u64 (dst.stride * j) + a.dest_x ≡ stored_at dst 1 a.dest_x j =
                              omega (arith, to_line) in
                            let q : u64 (src.stride * o_y a j) + a.offs_x
                                ≡ stored_at src 1 a.offs_x (a.offs_y + (j - a.dest_y)) =
                              rw o (omega (arith, from_line)) in
                            let n : a.w ≡ a.w * 1 = omega arith in
                            memcpy_eq m src.bytes _ _ _ _ _ _ p q n))
                ]

  -- The BB8 case of BB_blit_to_BB8.
  pub copy_bb8-Blits :
      Blits bb8 bb8 (λ _ _ c d. some (to_bb8 bb8 c d)) src dst a (copy_bb8 src dst a)
  unfolding to_bb8
  copy_bb8-Blits = elim (Bool-cases (both_flat src dst a)) [
    | inl e ↦ flat8 e
    | inr e ↦
        unfold copy_bb8 in
        rw (e, copy_bb8)
          (blit_pixels-Blits bb8 bb8 src dst valid_src valid_dst a fits
            (λ _ _ c d. some (to_bb8 bb8 c d)))
  ]

module _ (src dst : BlitBuffer) (valid_src : IsValid 4 src) (valid_dst : IsValid 4 dst) (a : Area)
    (fits : FitsBoth src dst a) where
  -- Byte offsets of columns and widths do not wrap at 32 bits.
  shifts :
      (j : ℕ)
      → j < dst.h
      → a.dest_x + a.w ≤ dst.w
      → a.offs_x + a.w ≤ src.w
      → (i : ℕ) → i < src.h
      → (u32 (a.dest_x <<< 2) ≡ a.dest_x * 4)
        × (u32 (a.offs_x <<< 2) ≡ a.offs_x * 4)
        × (u32 (a.w <<< 2) ≡ a.w * 4)
  shifts j hj hd hs i hi =
      let to : j * dst.stride + dst.stride ≤ dst.h * dst.stride = mul_step j dst.h dst.stride hj in
      let from : i * src.stride + src.stride ≤ src.h * src.stride =
        mul_step i src.h src.stride hi in
      omega (arith, valid_src, valid_dst)

  flat32 :
      both_flat src dst a ≡ true
      → Blits bbrgb32 bbrgb32 (λ _ _ c d. some c) src dst a (copy_bb32 src dst a)
  unfolding copy_bb32
  flat32 e₀ =
      let flat = rotations src dst a e₀ in
      let room = flat_fits bbrgb32 src dst valid_src valid_dst flat.0 flat.1 a fits in
      let from = block_fits format32 src valid_src (offs_rect src dst a) (room.0, room.1) in
      let to = block_fits format32 dst valid_dst (to_rect src dst a) (room.2, room.3) in
      elim (Bool-cases (
        a.offs_x == 0
        && (a.dest_x == 0
            && (a.w == src.w
                && (a.w == dst.w
                    && (src.stride == dst.stride && src.stride == u32 (a.w <<< 2))))))) [
                      | inl e ↦
                          let c : (a.offs_x ≡ 0)
                              × (a.dest_x ≡ 0)
                              × (a.w ≡ dst.w)
                              × (src.stride ≡ dst.stride) =
                            ground arith in
                          let size : u64 (src.stride * a.h) ≡ dst.pixel_stride * a.h * 4 = omega (
                            arith,
                            from.2,
                            ap (λ (n : ℕ). n * a.h) c.3,
                            ap (λ (n : ℕ). n * a.h) valid_dst.whole,
                          ) in
                          rw (e₀, e, copy_bb32)
                            (rw (to.1, from.1, size)
                              (full-Blits bbrgb32 src dst valid_src valid_dst flat.0 flat.1 a fits
                                c.0 c.1 c.2 c.3))
                      | inr e ↦
                          rw (e₀, e, copy_bb32)
                            (lines-Blits bbrgb32 src dst valid_src valid_dst flat.0 flat.1 a fits _
                              (λ j m lo hi.
                                let o =
                                  o_y_lem bbrgb32 bbrgb32 src dst valid_src valid_dst a fits j hi in
                                let cut =
                                  shifts j (omega arith) room.2 room.0 (a.offs_y + (j - a.dest_y))
                                    (omega arith) in
                                let to_line =
                                  line_fits format32 dst valid_dst (to_rect src dst a) j
                                    (omega arith) in
                                let from_line =
                                  line_fits format32 src valid_src (offs_rect src dst a)
                                    (a.offs_y + (j - a.dest_y)) (omega arith) in
                                let p : u64 (dst.stride * j) + u32 (a.dest_x <<< 2)
                                    ≡ stored_at dst 4 a.dest_x j =
                                  omega (arith, to_line, cut) in
                                let q : u64 (src.stride * o_y a j) + u32 (a.offs_x <<< 2)
                                    ≡ stored_at src 4 a.offs_x (a.offs_y + (j - a.dest_y)) =
                                  rw o (omega (arith, from_line, cut)) in
                                memcpy_eq m src.bytes _ _ _ _ _ _ p q cut.2))
                    ]

  -- The RGB32 case of BB_blit_to_BB32.
  pub copy_bb32-Blits :
      Blits bbrgb32 bbrgb32 (λ _ _ c d. some (to_bb32 bbrgb32 c d)) src dst a (copy_bb32 src dst a)
  unfolding to_bb32
  copy_bb32-Blits = elim (Bool-cases (both_flat src dst a)) [
    | inl e ↦ flat32 e
    | inr e ↦
        unfold copy_bb32 in
        rw (e, copy_bb32)
          (blit_pixels-Blits bbrgb32 bbrgb32 src dst valid_src valid_dst a fits
            (λ _ _ c d. some (to_bb32 bbrgb32 c d)))
  ]
