-- ===== src/Tests/Colors.antt =====
-- The colour arithmetic, at single colours.
use koreader_base.Prelude.{◌+◌, ◌*◌, ◌%◌, ◌≤◌, ◌≡◌, ◌≢◌, arith, u8}
use koreader_base.Color.{Color8, Color8A, ColorRgb16, ColorRgb24, ColorRgb32, bbrgb16}
use koreader_base.Color.Convert.{rgb_to_a, get_r, get_g, get_b, rgb16_to_a}
use koreader_base.Color.Laws.{rgb16_to_a_overflow}
use koreader_base.Color.Spec.{Blended}
use koreader_base.Paint.{repainted}
use koreader_base.Rect.Blend.{
  blend_pixel, blend_rgb32_over_pixel, multiply_pixel, multiply_over_pixel,
}
use koreader_base.Rect.Blend.Multiply.{Multiplied, MultipliedOver, multiply_pixels-Multiplied}
use koreader_base.Rect.Blend.Rounding.{grey, channels}
use koreader_base.Blit.Convert.{luma}
use koreader_base.Compose.Add.{add_pixel}
use koreader_base.Compose.Pixels.{channels_of}
use koreader_base.Compose.Colorize.{tint_pixel, tint_pixel_rgb32}
use koreader_base.Compose.Rounding.{mixing-Blended}
use koreader_base.Dither.{dither_o8x8}
use koreader_base.Dither.Laws.{tile_sum, dithered-Close}

abbrev half_grey : Color8A
half_grey = record { a = 200; alpha = 128 }

abbrev orange : ColorRgb32
orange = record { r = 250; g = 140; b = 10; alpha = 99 }

abbrev moss : ColorRgb16
moss = record { v = 17000 }

abbrev sky : ColorRgb16
sky = record { v = 40000 }

abbrev rust : ColorRgb24
rust = record { r = 183; g = 65; b = 14 }

multiply_pixels_example :
    Multiplied bbrgb16 (rgb_to_a 183 65 14) rust moss (multiply_pixel bbrgb16 rust moss)
    × MultipliedOver bbrgb16 99
        (rgb_to_a 250 140 10)
        (channels orange)
        moss
        (multiply_over_pixel bbrgb16 orange moss)
multiply_pixels_example =
    multiply_pixels-Multiplied bbrgb16 rust orange moss (omega arith) (omega arith) (omega arith)

abbrev opaque_grey : Color8A
opaque_grey = record { a = 137; alpha = 255 }

abbrev clear_grey : Color8A
clear_grey = record { a = 137; alpha = 0 }

abbrev dark : Color8
dark = record { a = 20 }

white_channels : (45 ≤ get_r 65535) × (45 ≤ get_g 65535) × (45 ≤ get_b 65535)
unfolding get_r get_g get_b
white_channels = omega arith

rgb16_to_a_overflow_example :
    (4 * rgb_to_a (get_r 65535) (get_g 65535) (get_b 65535) ≤ rgb16_to_a 65535)
    × (256 ≤ rgb16_to_a 65535)
    × (u8 (rgb16_to_a 65535) ≢ rgb16_to_a 65535)
rgb16_to_a_overflow_example =
    rgb16_to_a_overflow 65535 (white_channels.0) (white_channels.1) (white_channels.2)

dithered_example :
    (dither_o8x8 12 7 100 % 17 ≡ 0)
    × (dither_o8x8 12 7 100 ≤ 255)
    × (dither_o8x8 12 7 100 ≤ 100 + 17)
    × (100 ≤ dither_o8x8 12 7 100 + 17)
    × (tile_sum 100 ≤ 64 * 100 + 32)
    × (64 * 100 ≤ tile_sum 100 + 32)
dithered_example = dithered-Close 12 7 100 (omega arith)

mixing_example :
    Blended bbrgb16 128 200 (grey half_grey) moss (blend_pixel bbrgb16 half_grey moss)
    × Blended bbrgb16 99
        (rgb_to_a 250 140 10)
        (channels orange)
        moss
        (blend_rgb32_over_pixel bbrgb16 orange moss)
    × Blended bbrgb16 60
        (luma bbrgb16 sky)
        (channels_of bbrgb16 sky)
        moss
        (add_pixel bbrgb16 60 sky moss)
    × Blended bbrgb16 60
        (rgb_to_a 250 140 10)
        (channels orange)
        moss
        (repainted (tint_pixel_rgb32 bbrgb16 orange 60 moss) moss)
    × (tint_pixel bbrgb16 half_grey 60 moss
        ≡ tint_pixel_rgb32 bbrgb16 (record { r = 200; g = 200; b = 200; alpha = 128 }) 60 moss)
mixing_example =
    mixing-Blended bbrgb16 half_grey orange 60 sky moss (omega arith) (omega arith) (omega arith)
      (omega arith) (omega arith)
