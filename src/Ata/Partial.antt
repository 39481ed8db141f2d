-- ===== src/Ata/Partial.antt =====
-- `ata_read` of kernel/ata.c on any drive, also one that fails.
use fi_rststep.Prelude.{
  ℕ, zero, suc, ◌+◌, ◌-◌, ◌*◌, ◌^◌, ◌≤◌, ◌<◌, true, false, none, some, ◌≡◌, refl, ◌==◌, ltb,
  bit_and, arith, fun_ext, ap, ap₂, subst, ◌∙◌, Bool-cases, inl, inr, ◌⊎◌, ℕ_discrete,
}
use fi_rststep.Prelude.Outcome.{ok}
use fi_rststep.Prelude.Words.{u16}
use fi_rststep.Ata.{
  Bytes, Drive, sect_size, sr_drq, cmd_read_pio_ext, store_sector, poll, ata_device_ready,
  ata_data_ready, read_loop, ata_read,
}
use fi_rststep.Ata.Request.{addressed-command_block, requested-command_block}
use fi_rststep.Ata.Read.{says_ready, store_sectors, store-suc}

-- At time `u` the drive is ready and has data for the processor.
abbrev pub HasData : Drive → ℕ → ℕ → Type 0
HasData drive pending u =
    (says_ready drive pending u ≡ true) × ((bit_and (drive.status pending u) sr_drq == 0) ≡ false)

-- Of the reads that a wait from time `t` on makes, four for the delay and 100000 more, the latter find the
-- drive not ready.
abbrev pub NeverReady : Drive → ℕ → ℕ → Type 0
NeverReady drive pending t = (k : ℕ) → k < 100000 → says_ready drive pending (t + 4 + k) ≡ false

-- A wait from time `t` on fails: the drive is not ready in time, or ready without data.
abbrev pub Stopped : Drive → ℕ → ℕ → Type 0
Stopped drive pending t =
    NeverReady drive pending t
    ⊎ ((u : ℕ) × (t + 4 ≤ u)
        × (u < t + 100004)
        × (says_ready drive pending u ≡ true)
        × ((bit_and (drive.status pending u) sr_drq == 0) ≡ true))

-- From time `t` to time `t'`, `m` waits one after the other each find a sector's data there.
abbrev pub Arrived : Drive → ℕ → ℕ → ℕ → ℕ → Type 0
Arrived drive pending zero t t' = t ≡ t'
Arrived drive pending (suc m) t t' =
    (u : ℕ) × (t + 4 ≤ u)
    × (u < t + 100004)
    × HasData drive pending u
    × Arrived drive (pending - 1) m (u + 1) t'

-- How a request for `count` sectors at time `t` comes to `m` of them: the drive is never ready for it, or all
-- the waits for sectors up to the `m`-th find data and, unless this is the last one, the next one fails.
abbrev pub Comes : Drive → ℕ → ℕ → ℕ → Type 0
Comes drive count m t =
    ((m ≡ 0) × NeverReady drive 0 t)
    ⊎ ((u : ℕ) × (t' : ℕ) × (t + 4 ≤ u)
        × (u < t + 100004)
        × (says_ready drive 0 u ≡ true)
        × Arrived drive count m (u + 1) t'
        × ((m ≡ count) ⊎ Stopped drive (count - m) t'))

module _ (drive : Drive) where
  poll_cases :
      (retries pending t : ℕ)
      → ((u : ℕ) × (t ≤ u)
          × (u < t + retries)
          × (poll drive retries pending t ≡ (some (drive.status pending u), u + 1))
          × (says_ready drive pending u ≡ true))
        ⊎ ((poll drive retries pending t ≡ (none, t + retries))
            × ((k : ℕ) → k < retries → says_ready drive pending (t + k) ≡ false))
  unfolding poll
  poll_cases zero pending t = inr (ap (λ u. (none, u)) (omega arith), λ k h. absurd (omega arith))
  poll_cases (suc retries) pending t = elim (Bool-cases (says_ready drive pending t)) [
    | inl now ↦ inl (t, omega arith, omega arith, rw now, now)
    | inr busy ↦ elim (poll_cases retries pending (t + 1)) [
      | inl (u, lo, hi, e, r) ↦ inl (u, omega arith, omega arith, rw busy e, r)
      | inr (e, never) ↦ inr (
        rw busy (e ∙ ap (λ u. (none, u)) (omega arith)),
        λ k h. elim (ℕ_discrete k 0) [
          | yes z ↦
              let here : t ≡ t + k = omega arith in
              subst (λ u. says_ready drive pending u ≡ false) here busy
          | no ne ↦
              let there : t + 1 + (k - 1) ≡ t + k = omega arith in
              subst (λ u. says_ready drive pending u ≡ false) there (never (k - 1) (omega arith))
        ],
      )
    ]
  ]

  -- A wait of `ata_device_ready`.
  ready_cases :
      (pending t : ℕ)
      → ((u : ℕ) × (t + 4 ≤ u)
          × (u < t + 100004)
          × (ata_device_ready drive pending t ≡ (some (drive.status pending u), u + 1))
          × (says_ready drive pending u ≡ true))
        ⊎ ((ata_device_ready drive pending t ≡ (none, t + 100004)) × NeverReady drive pending t)
  unfolding ata_device_ready
  ready_cases pending t = elim (poll_cases 100000 pending (t + 4)) [
    | inl (u, lo, hi, e, r) ↦ inl (u, lo, omega arith, e, r)
    | inr (e, never) ↦ inr (e ∙ ap (λ u. (none, u)) (omega arith), never)
  ]

  -- A wait of `ata_data_ready`.
  data_cases :
      (pending t : ℕ)
      → ((u : ℕ) × (t + 4 ≤ u)
          × (u < t + 100004)
          × (ata_data_ready drive pending t ≡ (true, u + 1))
          × HasData drive pending u)
        ⊎ ((t' : ℕ) × (t' ≤ t + 100004)
            × (ata_data_ready drive pending t ≡ (false, t'))
            × Stopped drive pending t)
  unfolding ata_data_ready
  data_cases pending t = elim (ready_cases pending t) [
    | inl (u, lo, hi, e, r) ↦ elim (Bool-cases (bit_and (drive.status pending u) sr_drq == 0)) [
      | inl empty ↦
          inr (u + 1, omega arith, rw (e, empty, ata_data_ready) (rw e), inr (u, lo, hi, r, empty))
      | inr full ↦ inl (u, lo, hi, rw (e, full, ata_data_ready) (rw e), (r, full))
    ]
    | inr (e, never) ↦ inr (t + 100004, omega arith, rw (e, ata_data_ready) (rw e), inl never)
  ]

  nothing : (dst lba : ℕ) (mem : Bytes) → mem ≡ store_sectors drive 0 dst lba mem
  nothing dst lba mem = fun_ext λ a. ground arith

  -- The loop stops before the first sector that does not come.
  read_loop_partial :
      (n dst lba : ℕ) (mem : Bytes) (t : ℕ)
      → (m : ℕ) × (t' : ℕ) × (read_loop drive n n dst lba mem t
          ≡ (m == n, store_sectors drive m dst lba mem, t'))
        × (m ≤ n)
        × (t' ≤ t + n * 100004)
        × ((t₁ : ℕ) × Arrived drive n m t t₁ × ((m ≡ n) ⊎ Stopped drive (n - m) t₁))
  unfolding read_loop
  read_loop_partial zero dst lba mem t = (
    0,
    t,
    ap (λ m. (true, m, t)) (nothing dst lba mem),
    omega arith,
    omega arith,
    (t, refl, inl refl),
  )
  read_loop_partial (suc n) dst lba mem t = elim (data_cases (suc n) t) [
    | inl (u, lo, hi, now, data_) ↦
        let less : suc n - 1 ≡ n = omega arith in
        let mem' = store_sector (drive.sector lba) dst mem in
        let (m, t', e, few, time, (t₁, come, end_)) =
          read_loop_partial n (dst + sect_size) (lba + 1) mem' (u + 1) in
        let same : (m == n) ≡ (suc m == suc n) = ground arith in
        let come' : Arrived drive (suc n - 1) m (u + 1) t₁ = rw less come in
        let left : n - m ≡ suc n - suc m = omega arith in
        (
          suc m,
          t',
          rw (now, less) (e ∙ ap₂ (λ b c. (b, c, t')) same (store-suc drive m dst lba mem)),
          omega arith,
          omega (arith, time),
          (
            t₁,
            (u, lo, hi, data_, come'),
            elim end_ [
              | inl all ↦ inl (omega arith)
              | inr stop ↦ inr (subst (λ k. Stopped drive k t₁) left stop)
            ],
          ),
        )
    | inr (t', time, failed, stop) ↦
        let whole : suc n ≡ suc n - 0 = omega arith in
        (
          0,
          t',
          rw failed (ap₂ (λ b c. (b, c, t')) (ground arith) (nothing dst lba mem)),
          omega arith,
          omega arith,
          (t, refl, inr (subst (λ k. Stopped drive k t) whole stop)),
        )
  ]

  -- Whatever the drive answers, `ata_read` of 1 to 65535 sectors from an address below 2 ^ 48 - 1, none of
  -- them past 2 ^ 48, comes to an end, within 100004 reads of the status for each sector and once more.
  -- Memory then holds the first `m` of the sectors, one behind the other, at the destination and is
  -- otherwise unchanged, and the result is 0 exactly if `m` is `count`. This `m` is the number of sectors
  -- that come: each of them after a status of the drive that says so, and the next one, unless all came, not
  -- within 100000 reads or after a status without data; it is 0 if the drive is never ready for the request.
  pub ata_read-partial :
      (dst lba count : ℕ) (mem : Bytes) (t : ℕ)
      → lba < 0xFFFFFFFFFFFF
      → lba + count ≤ 2 ^ 48
      → 1 ≤ count
      → count < 65536
      → (m : ℕ) × (t' : ℕ) × (ata_read drive dst lba count mem t
          ≡ ok (m == count, store_sectors drive m dst lba mem, t'))
        × (m ≤ count)
        × (t' ≤ t + (count + 1) * 100004)
        × Comes drive count m t
  unfolding ata_read
  ata_read-partial dst lba count mem t hl area lo hi =
      let below : ltb lba 0xFFFFFFFFFFFF ≡ true = ground arith in
      let whole : u16 count ≡ count = omega arith in
      let some_left : (count == 0) ≡ false = ground arith in
      let from = addressed-command_block lba count cmd_read_pio_ext (omega arith) in
      let pending = requested-command_block lba count cmd_read_pio_ext lo hi (omega arith) in
      elim (ready_cases 0 t) [
        | inl (u, lo', hi', idle, r) ↦
            let (m, t', run, few, time, (t₁, come, end_)) =
              read_loop_partial count dst lba mem (u + 1) in
            (
              m,
              t',
              rw (below, idle, whole, some_left, from, pending) (rw idle (ap ok run)),
              few,
              omega (arith, time),
              inr (u, t₁, lo', hi', r, come, end_),
            )
        | inr (late, never) ↦
            let none_read : false ≡ (0 == count) = ground arith in
            (
              0,
              t + 100004,
              rw (below, late)
                  (rw late (ap₂ (λ b c. ok (b, c, t + 100004)) none_read (nothing dst lba mem))),
              omega arith,
              omega arith,
              inl (refl, never),
            )
      ]
