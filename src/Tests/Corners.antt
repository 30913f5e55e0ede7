-- ===== src/Tests/Corners.antt =====
-- Rounded corners, applied to small screens.
use koreader_base.Prelude.{arith}
use koreader_base.Color.{bb8}
use koreader_base.Memory.Formats.{format8}
use koreader_base.Corner.{corner_color, paint_rounded_corner}
use koreader_base.Corner.Points.{Between}
use koreader_base.Corner.Laws.{ReturnsPainted, paint_rounded_corner-within}
use koreader_base.Tests.{turned, turned_typed, turned-IsValid, turned-Fits}

paint_rounded_corner-within_example :
    ReturnsPainted format8 turned
      (corner_color bb8 200)
      (Between 0 2)
      (Between 1 2)
      turned.bytes
      (paint_rounded_corner turned 0 1 2 2 1 1 200)
paint_rounded_corner-within_example =
    paint_rounded_corner-within turned bb8 turned_typed turned-IsValid 0 1 2 2 1 (omega arith)
      (omega arith) turned-Fits 1 200
