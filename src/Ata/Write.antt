-- ===== src/Ata/Write.antt =====
-- `ata_write` of kernel/ata.c on a drive that works, and reading back.
use fi_rststep.Prelude.{
  ℕ, zero, suc, ◌+◌, ◌-◌, ◌*◌, ◌/◌, ◌%◌, ◌^◌, ◌≤◌, ◌<◌, true, false, ◌&&◌, ◌≡◌, ◌==◌, ltb, leb,
  arith, ◌⊎◌, if◌then◌else◌, fun_ext, ap, ◌∙◌,
}
use fi_rststep.Prelude.Outcome.{ok}
use fi_rststep.Prelude.Words.{u16}
use fi_rststep.Ata.{
  Bytes, Drive, sect_size, cmd_write_pio_ext, put_sector, write_loop, ata_write, ata_read,
}
use fi_rststep.Ata.Request.{addressed-command_block, requested-command_block}
use fi_rststep.Ata.Read.{
  IsReady, store_sectors, ata_device_ready_lem, ata_data_ready_lem, ata_read-store_sectors,
}

-- the sectors with `n` of them from `lba` on filled from `src`
abbrev pub put_sectors : ℕ → Bytes → ℕ → ℕ → (ℕ → Bytes) → ℕ → Bytes
put_sectors n mem src lba disk l i =
    if leb lba l && ltb l (lba + n) then mem (src + (l - lba) * sect_size + i) else disk l i

put_suc_at :
    (n : ℕ) (mem : Bytes) (src lba : ℕ) (disk : ℕ → Bytes) (l i : ℕ)
    → put_sectors n mem (src + sect_size) (lba + 1) (put_sector mem src lba disk) l i
      ≡ put_sectors (suc n) mem src lba disk l i
put_suc_at n mem src lba disk l i = ground arith

module _ (drive : Drive) (ready : IsReady drive) where
  write_loop_lem :
      (n src lba : ℕ) (mem : Bytes) (disk : ℕ → Bytes) (t : ℕ)
      → (t' : ℕ) × (write_loop drive n n src lba mem disk t
          ≡ (true, put_sectors n mem src lba disk, t'))
  unfolding write_loop
  write_loop_lem zero src lba mem disk t =
      (t, ap (λ d. (true, d, t)) (fun_ext λ l. fun_ext λ i. ground arith))
  write_loop_lem (suc n) src lba mem disk t =
      let disk' = put_sector mem src lba disk in
      let (t₁, now) = ata_data_ready_lem drive ready (suc n) t (omega arith) in
      let (t', e) = write_loop_lem n (src + sect_size) (lba + 1) mem disk' t₁ in
      let same = fun_ext λ l. fun_ext λ i. put_suc_at n mem src lba disk l i in
      let less : suc n - 1 ≡ n = omega arith in
      (t', rw (now, less) (e ∙ ap (λ d. (true, d, t')) same))

  -- the drive once the sectors are written
  abbrev pub written : ℕ → Bytes → ℕ → ℕ → Drive
  written n mem src lba = record drive { sector = put_sectors n mem src lba drive.sector }

  pub ata_write-put_sectors :
      (src lba count : ℕ) (mem : Bytes) (t : ℕ)
      → lba < 0xFFFFFFFFFFFF
      → lba + count ≤ 2 ^ 48
      → 1 ≤ count
      → count < 65536
      → (t' : ℕ) × (ata_write drive src lba count mem t
          ≡ ok (true, (written count mem src lba).sector, t'))
  unfolding ata_write
  ata_write-put_sectors src lba count mem t hl area lo hi =
      let (u, idle, r) = ata_device_ready_lem drive ready 0 t in
      let (t', e) = write_loop_lem count src lba mem drive.sector (u + 1) in
      let below : ltb lba 0xFFFFFFFFFFFF ≡ true = ground arith in
      let whole : u16 count ≡ count = omega arith in
      let some_left : (count == 0) ≡ false = ground arith in
      let from = addressed-command_block lba count cmd_write_pio_ext (omega arith) in
      let pending = requested-command_block lba count cmd_write_pio_ext lo hi (omega arith) in
      (t', rw (below, idle, whole, some_left, from, pending) (rw idle (ap ok e)))

  copied :
      (n src dst lba : ℕ) (mem mem' : Bytes) (a : ℕ)
      → store_sectors (written n mem src lba) n dst lba mem' a
        ≡ (if leb dst a && ltb a (dst + n * sect_size) then mem (src + (a - dst)) else mem' a)
  copied n src dst lba mem mem' a =
      let q = (a - dst) / sect_size in
      let place : src + (lba + q - lba) * sect_size + (a - dst) % sect_size ≡ src + (a - dst) =
        omega arith in
      ground (arith, ap mem place)

  -- With a drive that is ready within 100000 reads of its status and has data while sectors of a request
  -- are left, `ata_write` of 1 to 65535 sectors to an address below 2 ^ 48 - 1, none of them past 2 ^ 48,
  -- returns 0 and changes no other sector. After that, `ata_read` of the same sectors returns 0 and puts
  -- the bytes that were written at its destination, with the rest of memory unchanged. The sectors and
  -- their number are those that the bytes written to the ports ask for.
  pub ata_read-ata_write :
      (src dst lba count : ℕ) (mem mem' : Bytes) (t u : ℕ)
      → lba < 0xFFFFFFFFFFFF
      → lba + count ≤ 2 ^ 48
      → 1 ≤ count
      → count < 65536
      → (t' : ℕ) × (u' : ℕ) × (disk : ℕ → Bytes) × (ata_write drive src lba count mem t
          ≡ ok (true, disk, t'))
        × ((l : ℕ) → (l < lba) ⊎ (lba + count ≤ l) → disk l ≡ drive.sector l)
        × (ata_read (record drive { sector = disk }) dst lba count mem' u
            ≡ ok (
              true,
              (λ a.
                  if leb dst a && ltb a (dst + count * sect_size)
                  then mem (src + (a - dst))
                  else mem' a),
              u',
            ))
  ata_read-ata_write src dst lba count mem mem' t u hl area lo hi =
      let (t', e) = ata_write-put_sectors src lba count mem t hl area lo hi in
      let drive' = written count mem src lba in
      let ready' : IsReady drive' = record {
        device = ready.device;
        data_request = ready.data_request;
      } in
      let (u', f) = ata_read-store_sectors drive' ready' dst lba count mem' u hl area lo hi in
      (
        t',
        u',
        drive'.sector,
        e,
        λ l h. fun_ext λ i. ground arith,
        f ∙ ap (λ m. ok (true, m, u')) (fun_ext λ a. copied count src dst lba mem mem' a),
      )
