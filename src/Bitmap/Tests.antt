-- ===== src/Bitmap/Tests.antt =====
-- The bitmap theorems on a bitmap of 70 bits, of which bits 0, 1 and 3 are set.
use dunkos.Common.{◌≡◌, refl, true, false}
use dunkos.Common.{◌==◌, if◌then◌else◌}
use dunkos.Bitmap.Defs.{Bitmap, bitmap_test, bitmap_set}
use dunkos.Bitmap.Defs.{bitmap_scan}
use dunkos.Bitmap.Update.{test-set}
use dunkos.Bitmap.Scan.{IsScan, bitmap_scan-IsScan}

abbrev marks : Bitmap
marks = record { bitcount = 70; bufsize = 9; elems = λ i. if i == 0 then 11 else 0 }

test-set_example : bitmap_test (bitmap_set marks 62 20 true) 65 ≡ true
test-set_example = test-set marks 62 20 true 65

bitmap_scan-IsScan_example : IsScan marks false 2 0 (bitmap_scan marks 0 2 false)
bitmap_scan-IsScan_example = bitmap_scan-IsScan marks 0 2 false

scan_finds : bitmap_scan marks 0 2 false ≡ 4
unfolding bitmap_scan
scan_finds = refl
