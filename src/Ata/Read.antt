-- ===== src/Ata/Read.antt =====
-- `ata_read` of kernel/ata.c on a drive that works.
use fi_rststep.Prelude.{
  ℕ, zero, suc, ◌+◌, ◌-◌, ◌*◌, ◌/◌, ◌%◌, ◌^◌, ◌≤◌, ◌<◌, Bool, true, false, ◌&&◌, some, ◌≡◌, ◌≢◌,
  ◌==◌, ltb, leb, bit_and, arith, if◌then◌else◌, fun_ext, ap, subst, ◌∙◌, Bool-cases, inl, inr,
}
use fi_rststep.Prelude.Outcome.{ok}
use fi_rststep.Prelude.Words.{u16}
use fi_rststep.Ata.{
  Bytes, Drive, sect_size, sr_bsy, sr_drdy, sr_drq, cmd_read_pio_ext, store_sector, poll,
  ata_device_ready, ata_data_ready, read_loop, ata_read,
}
use fi_rststep.Ata.Request.{addressed-command_block, requested-command_block}

-- The drive says that it is not busy and ready.
abbrev pub says_ready : Drive → ℕ → ℕ → Bool
says_ready drive pending t = bit_and (drive.status pending t) (sr_bsy + sr_drdy) == sr_drdy

-- A drive that works: it is ready within 100000 reads of its status, and has data for the processor
-- whenever it is ready with sectors still to transfer.
pub record IsReady (drive : Drive) : Type 0 where
  pub device : (pending t : ℕ) → (k : ℕ) × (k < 100000) × (says_ready drive pending (t + k) ≡ true)
  pub data_request :
      (pending t : ℕ)
      → 1 ≤ pending
      → says_ready drive pending t ≡ true
      → (bit_and (drive.status pending t) sr_drq == 0) ≡ false

-- The memory with `n` sectors from `lba` on at `dst`.
abbrev pub store_sectors : Drive → ℕ → ℕ → ℕ → Bytes → Bytes
store_sectors drive n dst lba mem a =
    if leb dst a && ltb a (dst + n * sect_size)
    then drive.sector (lba + (a - dst) / sect_size) ((a - dst) % sect_size)
    else mem a

store_suc_at :
    (drive : Drive) (n dst lba : ℕ) (mem : Bytes) (a : ℕ)
    → store_sectors drive n (dst + sect_size) (lba + 1) (store_sector (drive.sector lba) dst mem) a
      ≡ store_sectors drive (suc n) dst lba mem a
store_suc_at drive n dst lba mem a = ground arith

module _ (drive : Drive) where
  -- The poll ends at the first ready status.
  poll_lem :
      (retries pending t k : ℕ)
      → k < retries
      → says_ready drive pending (t + k) ≡ true
      → (u : ℕ) × (poll drive retries pending t ≡ (some (drive.status pending u), u + 1))
        × (says_ready drive pending u ≡ true)
  unfolding poll
  poll_lem zero pending t k h r = absurd (omega arith)
  poll_lem (suc retries) pending t k h r = elim (Bool-cases (says_ready drive pending t)) [
    | inl now ↦ (t, rw now, now)
    | inr busy ↦
        let pos : k ≢ 0 = λ z.
          let here : t + k ≡ t = omega arith in
          let r' : says_ready drive pending t ≡ true =
            subst (λ u. says_ready drive pending u ≡ true) here r in
          cc in
        let later : t + k ≡ t + 1 + (k - 1) = omega arith in
        let (u, e, r') =
          poll_lem retries pending (t + 1) (k - 1) (omega arith)
            (subst (λ u. says_ready drive pending u ≡ true) later r) in
        (u, rw busy e, r')
  ]

  pub store-suc :
      (n dst lba : ℕ) (mem : Bytes)
      → store_sectors drive n (dst + sect_size) (lba + 1) (store_sector (drive.sector lba) dst mem)
        ≡ store_sectors drive (suc n) dst lba mem
  store-suc n dst lba mem = fun_ext λ a. store_suc_at drive n dst lba mem a

module _ (drive : Drive) (ready : IsReady drive) where
  pub ata_device_ready_lem :
      (pending t : ℕ)
      → (u : ℕ) × (ata_device_ready drive pending t ≡ (some (drive.status pending u), u + 1))
        × (says_ready drive pending u ≡ true)
  unfolding ata_device_ready
  ata_device_ready_lem pending t =
      let (k, low, r) = ready.device pending (t + 4) in
      poll_lem drive 100000 pending (t + 4) k low r

  -- With sectors still to transfer there is data.
  pub ata_data_ready_lem :
      (pending t : ℕ) → 1 ≤ pending → (t' : ℕ) × (ata_data_ready drive pending t ≡ (true, t'))
  unfolding ata_data_ready
  ata_data_ready_lem pending t more =
      let (u, e, r) = ata_device_ready_lem pending t in
      (u + 1, rw (e, ready.data_request pending u more r, ata_data_ready) (rw e))

  -- The loop of as many rounds as the drive has sectors to transfer.
  read_loop_lem :
      (n dst lba : ℕ) (mem : Bytes) (t : ℕ)
      → (t' : ℕ) × (read_loop drive n n dst lba mem t
          ≡ (true, store_sectors drive n dst lba mem, t'))
  unfolding read_loop
  read_loop_lem zero dst lba mem t = (t, ap (λ m. (true, m, t)) (fun_ext λ a. ground arith))
  read_loop_lem (suc n) dst lba mem t =
      let mem' = store_sector (drive.sector lba) dst mem in
      let (t₁, now) = ata_data_ready_lem (suc n) t (omega arith) in
      let (t', e) = read_loop_lem n (dst + sect_size) (lba + 1) mem' t₁ in
      let less : suc n - 1 ≡ n = omega arith in
      (t', rw (now, less) (e ∙ ap (λ m. (true, m, t')) (store-suc drive n dst lba mem)))

  -- With a drive that is ready within 100000 reads of its status and has data while sectors of a request
  -- are left, `ata_read` of 1 to 65535 sectors from an address below 2 ^ 48 - 1, none of them past 2 ^ 48,
  -- returns 0, and memory holds these sectors one behind the other at the destination and is otherwise
  -- unchanged. The sectors and their number are those that the bytes written to the ports ask for.
  pub ata_read-store_sectors :
      (dst lba count : ℕ) (mem : Bytes) (t : ℕ)
      → lba < 0xFFFFFFFFFFFF
      → lba + count ≤ 2 ^ 48
      → 1 ≤ count
      → count < 65536
      → (t' : ℕ) × (ata_read drive dst lba count mem t
          ≡ ok (true, store_sectors drive count dst lba mem, t'))
  unfolding ata_read
  ata_read-store_sectors dst lba count mem t hl area lo hi =
      let (u, idle, r) = ata_device_ready_lem 0 t in
      let (t', e) = read_loop_lem count dst lba mem (u + 1) in
      let below : ltb lba 0xFFFFFFFFFFFF ≡ true = ground arith in
      let whole : u16 count ≡ count = omega arith in
      let some_left : (count == 0) ≡ false = ground arith in
      let from = addressed-command_block lba count cmd_read_pio_ext (omega arith) in
      let pending = requested-command_block lba count cmd_read_pio_ext lo hi (omega arith) in
      (t', rw (below, idle, whole, some_left, from, pending) (rw idle (ap ok e)))
