-- ===== src/Pmu/Bitmap.antt =====
-- kernel/pmu.c: the bitmap of the nodes in use.
pub mod Laws
use fi_rststep.Prelude.{ℕ, ◌-◌, ◌/◌, ◌%◌, ◌^◌, bit_and, bit_or, ◌==◌, if◌then◌else◌}
use fi_rststep.Prelude.Words.{◌>>>◌}

-- an array of `uint8_t`
abbrev pub Bytes : Type 0
Bytes = ℕ → ℕ

abbrev pub put : Bytes → ℕ → ℕ → Bytes
put bm i b j = if j == i then b else bm j

unfoldable pub is_bit_set : Bytes → ℕ → ℕ
is_bit_set bm index = bit_and (bm (index / 8) >>> (index % 8)) 1

unfoldable pub set_bit : Bytes → ℕ → Bytes
set_bit bm index = put bm (index / 8) (bit_or (bm (index / 8)) (2 ^ (index % 8)))

-- `~(1 << k)` cut to the eight bits of the byte that it is ANDed with
unfoldable pub clear_bit : Bytes → ℕ → Bytes
clear_bit bm index = put bm (index / 8) (bit_and (bm (index / 8)) (255 - 2 ^ (index % 8)))
