-- ===== src/Log/Recover.antt =====
-- What a recovery leaves on the disk when the machine stops after some of its writes.
use xv6_riscv_zig.Prelude.{
  ℕ, ◌+◌, ◌<◌, ◌≡◌, refl, ◌∙◌, sym, ◌≢◌, [], ◌∷◌, ◌++◌, arith, take, take-all, length-append, true,
  false, subst,
}
use xv6_riscv_zig.Log.{Block, Log, write_head, install_trans, read_head, initlog}
use xv6_riscv_zig.Log.Header.{header, header-count, read_blocks-at}
use xv6_riscv_zig.Log.Effect.{Did, disk_trans, Apart, home_writes, install_loop-Did, write_head-Did}
use xv6_riscv_zig.Log.Writes.{
  Disk, Writes, write_all, write_all_last, write_all-append, write_all-Avoids, entries,
  length-entries, entries_congr,
}

-- The machine after a restart: nothing is cached, all counters are 0, and `power` writes will take
-- effect.
abbrev pub restart : ℕ → Disk → Log
restart power d = record {
  disk = d;
  cached = d;
  refs = λ b. 0;
  power = power;
  start = 0;
  size = 0;
  outstanding = 0;
  committing = false;
  n = 0;
  block = λ i. 0;
}

-- The install writes that the log on disk `d` calls for
abbrev pub redo : ℕ → Disk → Writes
redo start d = home_writes start (λ j. d start (j + 1)) d (d start 0) 0

-- The homes that the header on the disk names lie outside the log.
abbrev pub IsRecoverable : ℕ → Disk → Type 0
IsRecoverable start d = Apart start (λ j. d start (j + 1)) (d start 0)

module _ (start nlog power : ℕ) (d : Disk) where
  -- The disk after `initlog`, started with `power`
  unfoldable pub recovered : Disk
  recovered = (initlog start nlog (restart power d)).disk

  abbrev read : Log
  read = read_head (record (restart power d) { start = start; size = nlog })

  installed-Did : IsRecoverable start d → Did read (install_trans true read) (redo start d)
  unfolding read_head install_trans
  installed-Did h =
      subst (λ ws. Did read (install_trans true read) ws)
        (entries_congr _ _ _ _ (d start 0) 0 (λ j p q.
          (read_blocks-at (d start) (d start 0) 0 (λ i. 0) j (omega arith) (omega arith), refl)))
        (install_loop-Did true (d start 0) (d start 0) 0 read
          (λ i j p q.
            subst (λ b. start + i + 1 ≢ b)
              (sym (read_blocks-at (d start) (d start 0) 0 (λ i. 0) j (omega arith) (omega arith)))
              (h i j p q))
          (omega arith))

  recover_steps : recovered ≡ (write_head (record (install_trans true read) { n = 0 })).disk
  unfolding recovered initlog
  recover_steps = refl

  pub recovered_disk :
      IsRecoverable start d
      → (h0 : Block) × (h0 0 ≡ 0)
        × (recovered ≡ write_all (take power (redo start d ++ (start, h0) ∷ [])) d)
  unfolding read_head
  recovered_disk h =
      let t = install_trans true read in
      let i = installed-Did h in
      let h0 : Block = header 0 t.block (t.cached t.start) in
      let e = disk_trans ((t.start, h0) ∷ []) i (write_head-Did (record t { n = 0 })).disk in
      (
        h0,
        header-count 0 t.block (t.cached t.start),
        recover_steps ∙ e ∙ (λ j. write_all (take power (redo start d ++ (i.start j, h0) ∷ [])) d),
      )

  -- A recovery that is not interrupted redoes the writes of the log, and clears the header.
  pub recovered_whole :
      IsRecoverable start d
      → d start 0 < power
      → (recovered start 0 ≡ 0) × ((b : ℕ) → b ≢ start → recovered b ≡ write_all (redo start d) d b)
  recovered_whole h p =
      let (h0, z, e) = recovered_disk h in
      let ws = redo start d in
      let all : take power (ws ++ (start, h0) ∷ []) ≡ ws ++ (start, h0) ∷ [] = take-all power _ (
        omega (
          arith,
          length-append ws ((start, h0) ∷ []),
          length-entries (λ j. d start (j + 1)) (λ j. d (start + j + 1)) (d start 0) 0,
        )) in
      let whole : recovered ≡ write_all ((start, h0) ∷ []) (write_all ws d) =
        e ∙ (λ i. write_all (all i) d) ∙ write_all-append ws ((start, h0) ∷ []) d in
      (
        (λ i. whole i start 0) ∙ (λ i. write_all_last (write_all ws d) start h0 i 0) ∙ z,
        λ b ne.
            (λ i. whole i b)
            ∙ write_all-Avoids ((start, h0) ∷ []) (write_all ws d) b ((λ q. ne (sym q)), tt),
      )

  -- Where the header is clear there is nothing to redo.
  pub recovered_clear : d start 0 ≡ 0 → 0 < power → (b : ℕ) → b ≢ start → recovered b ≡ d b
  unfolding write_all entries
  recovered_clear z p b ne =
      (recovered_whole (λ i j q r e. absurd (omega arith)) (omega arith)).1 b ne
      ∙ (λ i. write_all (entries (λ j. d start (j + 1)) (λ j. d (start + j + 1)) (z i) 0) d b)
