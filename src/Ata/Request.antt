-- ===== src/Ata/Request.antt =====
-- What `ata_read` and `ata_write` of kernel/ata.c ask of the drive by their writes to its ports.
use fi_rststep.Prelude.{ℕ, ◌+◌, ◌*◌, ◌/◌, ◌%◌, ◌^◌, ◌≤◌, ◌<◌, ◌≡◌, arith}
use fi_rststep.Ata.{command_block, addressed, requested}

bytes_of_lba :
    (lba : ℕ)
    → lba < 2 ^ 48
    → lba % 256
        + lba / 2 ^ 8 % 256 * 2 ^ 8
        + lba / 2 ^ 16 % 256 * 2 ^ 16
        + lba / 2 ^ 24 % 256 * 2 ^ 24
        + lba / 2 ^ 32 % 256 * 2 ^ 32
        + lba / 2 ^ 40 % 256 * 2 ^ 40
      ≡ lba
bytes_of_lba lba h = omega arith

-- The six bytes of an address come together again.
pub addressed-command_block :
    (lba count command : ℕ) → lba < 2 ^ 48 → addressed (command_block lba count command) ≡ lba
unfolding addressed command_block
addressed-command_block lba count command h = omega (arith, bytes_of_lba lba h)

-- The two bytes of a count do too.
pub requested-command_block :
    (lba count command : ℕ)
    → 1 ≤ count
    → count < 65536
    → command < 256
    → requested command (command_block lba count command) ≡ count
unfolding requested command_block
requested-command_block lba count command lo hi small = ground arith
