-- ===== src/Ata.antt =====
-- kernel/ata.c: reading and writing sectors by LBA 48. The drive is not part of the code: what it answers
-- on its status port, by the number of sectors that it still has to transfer and by time, and what its
-- sectors hold are the parameter `Drive`. Time is counted in reads of the status port. What a request asks of
-- the drive is read off the bytes that the code writes to the ports.
pub mod Request
pub mod Read
pub mod Write
pub mod Partial
use fi_rststep.Prelude.{
  ℕ, zero, suc, ◌+◌, ◌-◌, ◌*◌, ◌/◌, ◌^◌, ◌%◌, Bool, true, false, not, ◌&&◌, List, [], ◌∷◌, ◌++◌,
  Option, none, some, bit_and, ltb, leb, ◌==◌, if◌then◌else◌,
}
use fi_rststep.Prelude.Outcome.{Outcome, ok, panic, ◌>>=◌, ◌>>◌, assert}
use fi_rststep.Prelude.Words.{u8, u16, ◌>>>◌}

abbrev pub sect_size : ℕ
sect_size = 512

-- a part of memory, by address
abbrev pub Bytes : Type 0
Bytes = ℕ → ℕ

pub record Drive : Type 0 where
  pub status : ℕ → ℕ → ℕ
  pub sector : ℕ → Bytes

-- the status bits
abbrev pub sr_bsy : ℕ
sr_bsy = 0x80

abbrev pub sr_drdy : ℕ
sr_drdy = 0x40

abbrev pub sr_drq : ℕ
sr_drq = 0x08

-- `insl`: a sector's bytes at `dst`
abbrev pub store_sector : Bytes → ℕ → Bytes → Bytes
store_sector sec dst mem a = if leb dst a && ltb a (dst + sect_size) then sec (a - dst) else mem a

-- `outsl`: the sector at `lba` with the bytes at `src`
abbrev pub put_sector : Bytes → ℕ → ℕ → (ℕ → Bytes) → ℕ → Bytes
put_sector mem src lba disk l i = if l == lba then mem (src + i) else disk l i

-- the ports, ATA_REG_*
abbrev pub reg_seccount : ℕ
reg_seccount = 0x1F2

abbrev pub reg_lba0 : ℕ
reg_lba0 = 0x1F3

abbrev pub reg_lba1 : ℕ
reg_lba1 = 0x1F4

abbrev pub reg_lba2 : ℕ
reg_lba2 = 0x1F5

abbrev pub reg_hddevsel : ℕ
reg_hddevsel = 0x1F6

abbrev pub reg_command : ℕ
reg_command = 0x1F7

abbrev pub cmd_read_pio_ext : ℕ
cmd_read_pio_ext = 0x24

abbrev pub cmd_write_pio_ext : ℕ
cmd_write_pio_ext = 0x34

-- The writes to the ports that make a request, in order, each cut to a byte; `& 0xFF` is `% 256`.
unfoldable pub command_block : ℕ → ℕ → ℕ → List (ℕ × ℕ)
command_block lba count command =
    (reg_seccount, u8 (count >>> 8))
    ∷ (reg_lba0, u8 (lba >>> 24))
    ∷ (reg_lba1, u8 (lba >>> 32))
    ∷ (reg_lba2, u8 (lba >>> 40))
    ∷ (reg_seccount, u8 (count % 256))
    ∷ (reg_lba0, u8 lba)
    ∷ (reg_lba1, u8 (lba >>> 8))
    ∷ (reg_lba2, u8 (lba >>> 16))
    ∷ (reg_hddevsel, 0xE0)
    ∷ (reg_command, u8 command)
    ∷ []

-- What a port holds after some writes: the last two bytes, the later one lower.
abbrev pub port_word : ℕ → ℕ → List (ℕ × ℕ) → ℕ
port_word port held [] = held
port_word port held ((p, v) ∷ ws) =
    port_word port (if p == port then held % 256 * 256 + v else held) ws

-- the first sector of a request
unfoldable pub addressed : List (ℕ × ℕ) → ℕ
addressed ws =
    let a = port_word reg_lba0 0 ws in
    let b = port_word reg_lba1 0 ws in
    let c = port_word reg_lba2 0 ws in
    a % 256
    + b % 256 * 2 ^ 8
    + c % 256 * 2 ^ 16
    + a / 256 * 2 ^ 24
    + b / 256 * 2 ^ 32
    + c / 256 * 2 ^ 40

-- The sectors that a request has the first drive transfer, 0 if it is for other drives, by another way of
-- addressing or another command than the given one.
unfoldable pub requested : ℕ → List (ℕ × ℕ) → ℕ
requested command ws =
    let n = port_word reg_seccount 0 ws in
    if port_word reg_hddevsel 0 ws == 0xE0 && port_word reg_command 0 ws == command
    then (if n == 0 then 65536 else n)
    else 0

module _ (drive : Drive) where
  -- The loop of `ata_device_ready` with `retries` to go, while the drive has `pending` sectors to
  -- transfer: the status, or `none` for the timeout, and the time.
  unfoldable pub poll : ℕ → ℕ → ℕ → Option ℕ × ℕ
  poll zero pending t = (none, t)
  poll (suc retries) pending t =
      let later = poll retries pending (t + 1) in
      if bit_and (drive.status pending t) (sr_bsy + sr_drdy) == sr_drdy
      then (some (drive.status pending t), t + 1)
      else later

  -- four reads for the delay, then at most 100000 more
  unfoldable pub ata_device_ready : ℕ → ℕ → Option ℕ × ℕ
  ata_device_ready pending t = poll 100000 pending (t + 4)

  -- whether the drive has data for the processor; every other status is a failure
  unfoldable pub ata_data_ready : ℕ → ℕ → Bool × ℕ
  ata_data_ready pending t =
      let (status, t') = ata_device_ready pending t in
      elim status [ none ↦ (false, t') | some v ↦ (not (bit_and v sr_drq == 0), t') ]

  -- `do … while (--count)` with `left` rounds to go, the drive at sector `lba` with `pending` sectors
  -- to transfer: success, the memory and the time
  unfoldable pub read_loop : ℕ → ℕ → ℕ → ℕ → Bytes → ℕ → Bool × Bytes × ℕ
  read_loop zero pending dst lba mem t = (true, mem, t)
  read_loop (suc left) pending dst lba mem t =
      let (ready, t') = ata_data_ready pending t in
      let rest =
        read_loop left (pending - 1) (dst + sect_size) (lba + 1)
          (store_sector (drive.sector lba) dst mem) t' in
      if ready then rest else (false, mem, t')

  -- `count` is cut to 16 bits, and 0 stands for 65536 rounds.
  unfoldable pub ata_read : ℕ → ℕ → ℕ → Bytes → ℕ → Outcome (Bool × Bytes × ℕ)
  ata_read dst lba count mem t = do
    assert (ltb lba 0xFFFFFFFFFFFF)
    let ready = ata_device_ready 0 t
    let rounds = if u16 count == 0 then 65536 else u16 count
    let block = command_block lba (u16 count) cmd_read_pio_ext
    ok (elim ready.0 [
      | none ↦ (false, mem, ready.1)
      | some v ↦
          read_loop rounds (requested cmd_read_pio_ext block) dst (addressed block) mem ready.1
    ])

  -- `do … while (--count)` of `ata_write` with `left` rounds to go: `outsl` takes a sector at `src`.
  unfoldable pub write_loop : ℕ → ℕ → ℕ → ℕ → Bytes → (ℕ → Bytes) → ℕ → Bool × (ℕ → Bytes) × ℕ
  write_loop zero pending src lba mem disk t = (true, disk, t)
  write_loop (suc left) pending src lba mem disk t =
      let (ready, t') = ata_data_ready pending t in
      let rest =
        write_loop left (pending - 1) (src + sect_size) (lba + 1) mem (put_sector mem src lba disk)
          t' in
      if ready then rest else (false, disk, t')

  -- success, the sectors and the time
  unfoldable pub ata_write : ℕ → ℕ → ℕ → Bytes → ℕ → Outcome (Bool × (ℕ → Bytes) × ℕ)
  ata_write src lba count mem t = do
    assert (ltb lba 0xFFFFFFFFFFFF)
    let ready = ata_device_ready 0 t
    let rounds = if u16 count == 0 then 65536 else u16 count
    let block = command_block lba (u16 count) cmd_write_pio_ext
    ok (elim ready.0 [
      | none ↦ (false, drive.sector, ready.1)
      | some v ↦
          write_loop rounds (requested cmd_write_pio_ext block) src (addressed block) mem
            drive.sector ready.1
    ])
