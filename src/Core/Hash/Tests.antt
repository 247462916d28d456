-- ===== src/Core/Hash/Tests.antt =====
-- A table for four threads.
use parking_lot.Prelude.{◌^◌, ◌<◌, ◌≡◌, some, arith}
use parking_lot.Core.Hash.{hash, Sizes, new_sizes}
use parking_lot.Core.Hash.Laws.{Fits, new_sizes-Fits, hash-lt}

new_sizes-Fits_example : (z : Sizes) × (new_sizes 4 ≡ some z) × Fits 4 z
new_sizes-Fits_example = new_sizes-Fits 4 (omega arith) (omega arith)

hash-lt_example : hash 0x7FFE_1234 4 < 2 ^ 4
hash-lt_example = hash-lt 0x7FFE_1234 4 (omega arith) (omega arith)
