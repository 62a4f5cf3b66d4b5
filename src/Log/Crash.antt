-- ===== src/Log/Crash.antt =====
-- Crash atomicity of kernel/log.c: wherever a commit stops, recovery finds all or nothing of it.
use xv6_riscv_zig.Prelude.{
  ℕ, zero, suc, ◌+◌, ◌-◌, ◌<◌, ◌≤◌, ◌≡◌, refl, ◌∙◌, sym, ◌⊎◌, inl, inr, Bool, false, ◌||◌, ◌==◌, [],
  ◌∷◌, ◌++◌, arith, take, take-all, length-append, length, if◌then◌else◌, update, subst, Bool-cases,
  ltb, ltb→lt, append_assoc,
}
use xv6_riscv_zig.Log.{Block, Log, commit}
use xv6_riscv_zig.Log.Header.{header-count, header-block}
use xv6_riscv_zig.Log.Effect.{log_writes}
use xv6_riscv_zig.Log.Commit.{IsLogged, installs, commit_writes, commit_disk, head}
use xv6_riscv_zig.Log.Recover.{IsRecoverable, redo}
use xv6_riscv_zig.Log.Writes.{
  Disk, Writes, Avoids, write_all, write_all-append, write_all-Avoids, write_all-entries, entries,
  entries_congr, entries-Avoids, length-entries, take-Avoids, write_all_last, take-append,
  append-Avoids,
}

-- Block `b` is no block of the log.
abbrev pub Outside : ℕ → ℕ → ℕ → Type 0
Outside start size b = (b < start) ⊎ (start + size ≤ b)

-- Block `b` is one of `block[i..i+k)`.
unfoldable pub logged : (ℕ → ℕ) → ℕ → ℕ → ℕ → Bool
logged block zero i b = false
logged block (suc k) i b = block i == b || logged block k (i + 1) b

-- What block `b` is meant to hold after the commit: the logged blocks their cached contents, the
-- others what is on the disk.
unfoldable pub committed : Log → Disk
unfolding logged
committed s b = if logged s.block s.n 0 b then s.cached b else s.disk b

-- A log that fits into its blocks, whose logged blocks lie outside it, and whose header on the
-- disk is clear
pub record IsCommitting (s : Log) : Type 0 where
  pub fits : s.n < s.size
  pub homes : (i : ℕ) → i < s.n → Outside s.start s.size (s.block i)
  pub clear : s.disk s.start 0 ≡ 0

-- The disk when the machine stops after `k` writes of `commit`
unfoldable pub crashed : Log → ℕ → Disk
crashed s k = (commit (record s { power = k })).disk

pub installs-committed :
    (block : ℕ → ℕ) (c d : Disk) (k i b : ℕ)
    → write_all (entries block (λ j. c (block j)) k i) d b
      ≡ (if logged block k i b then c b else d b)
unfolding write_all entries logged
installs-committed block c d zero i b = refl
installs-committed block c d (suc k) i b =
    ground (arith, installs-committed block c (update d (block i) (c (block i))) k (i + 1) b)

module _ (s : Log) (w : IsCommitting s) where
  pub Committing-logged : IsLogged s
  Committing-logged = record {
    apart = λ i j p q e. grind (arith, w.homes j q, w.fits);
    homes = λ i p e. grind (arith, w.homes i p, w.fits);
  }

  -- the writes to the log, and those to the homes
  abbrev pub to_log : Writes
  to_log = log_writes s.start s.block s.cached s.n 0

  abbrev pub to_homes : Writes
  to_homes = installs s.n s.block s.cached

  length-to_log : length to_log ≡ s.n
  length-to_log = length-entries (λ j. s.start + j + 1) (λ j. s.cached (s.block j)) s.n 0

  pub length-to_homes : length to_homes ≡ s.n
  length-to_homes = length-entries s.block (λ j. s.cached (s.block j)) s.n 0

  to_log-Avoids : (b : ℕ) → (b ≡ s.start) ⊎ Outside s.start s.size b → Avoids b to_log
  to_log-Avoids b out = entries-Avoids _ _ b s.n 0 (λ j p q e. grind (arith, out, w.fits))

  to_homes-Avoids : (i : ℕ) → i < s.size → Avoids (s.start + i) to_homes
  to_homes-Avoids i p =
      entries-Avoids _ _ (s.start + i) s.n 0
        (λ j q r e. grind (arith, w.homes j (omega arith), w.fits))

  -- A commit of nothing writes nothing.
  pub crashed_empty : (k : ℕ) → s.n ≡ 0 → crashed s k ≡ s.disk
  unfolding crashed commit
  crashed_empty k e = ground arith

  crashed_disk :
      (k : ℕ)
      → 0 < s.n
      → (h0 : Block) × (h0 0 ≡ 0) × (crashed s k ≡ write_all (take k (commit_writes s h0)) s.disk)
  unfolding crashed
  crashed_disk k pos =
      commit_disk {s = record s { power = k }}
        (record { apart = Committing-logged.apart; homes = Committing-logged.homes }) pos

  -- Up to the write of the header only log blocks have been written.
  pub crashed_early :
      (k b : ℕ) → k ≤ s.n → (b ≡ s.start) ⊎ Outside s.start s.size b → crashed s k b ≡ s.disk b
  crashed_early k b h out = elim (Bool-cases (ltb 0 s.n)) [
    | inr e ↦ λ i. crashed_empty k (ground arith) i b
    | inl pos ↦
        let (h0, z, e) = crashed_disk k (ltb→lt 0 s.n pos) in
        let rest : Writes = (s.start, head Committing-logged) ∷ (to_homes ++ (s.start, h0) ∷ []) in
        let first : take k (to_log ++ rest) ≡ take k to_log ++ take (k - length to_log) rest =
          take-append k to_log rest in
        let no_more : 0 ≡ k - length to_log = omega (arith, length-to_log) in
        let nothing : Avoids b (take 0 rest) = tt in
        (λ i. e i b)
        ∙ (λ i. write_all (first i) s.disk b)
        ∙ write_all-Avoids (take k to_log ++ take (k - length to_log) rest) s.disk b (
            append-Avoids (take k to_log) (take (k - length to_log) rest) b
              (take-Avoids k to_log b (to_log-Avoids b out))
              (subst (λ m. Avoids b (take m rest)) no_more nothing))
  ]

  -- The disk with the log and its header written, and nothing else
  abbrev pub logged_disk : Disk
  logged_disk = write_all (to_log ++ (s.start, head Committing-logged) ∷ []) s.disk

  pub crashed_late :
      (k : ℕ)
      → 0 < s.n
      → s.n < k
      → (h0 : Block) × (h0 0 ≡ 0)
        × (crashed s k
            ≡ write_all (take (k - s.n - 1) (to_homes ++ (s.start, h0) ∷ [])) logged_disk)
  crashed_late k pos h =
      let (h0, z, e) = crashed_disk k pos in
      let hd : Writes = to_log ++ (s.start, head Committing-logged) ∷ [] in
      let rest : Writes = to_homes ++ (s.start, h0) ∷ [] in
      let whole : commit_writes s h0 ≡ hd ++ rest =
        sym (append_assoc to_log ((s.start, head Committing-logged) ∷ []) rest) in
      let size : length hd ≡ suc s.n =
        omega
          (arith, length-append to_log ((s.start, head Committing-logged) ∷ []), length-to_log) in
      let left : k - length hd ≡ k - s.n - 1 = omega arith in
      let split : take k (hd ++ rest) ≡ hd ++ take (k - s.n - 1) rest =
        take-append k hd rest ∙ (λ i. take-all k hd (omega arith) i ++ take (left i) rest) in
      (
        h0,
        z,
        e
            ∙ (λ i. write_all (take k (whole i)) s.disk)
            ∙ (λ i. write_all (split i) s.disk)
            ∙ write_all-append hd (take (k - s.n - 1) rest) s.disk,
      )

  -- The log on `logged_disk`: the header, the log blocks, and all other blocks as before
  header-logged_disk : logged_disk s.start ≡ head Committing-logged
  header-logged_disk =
      (λ i. write_all-append to_log ((s.start, head Committing-logged) ∷ []) s.disk i s.start)
      ∙ write_all_last (write_all to_log s.disk) s.start (head Committing-logged)

  logged_disk-log : (j : ℕ) → j < s.n → logged_disk (s.start + j + 1) ≡ s.cached (s.block j)
  logged_disk-log j p =
      (λ i.
        write_all-append to_log ((s.start, head Committing-logged) ∷ []) s.disk i (s.start + j + 1))
      ∙ write_all-Avoids ((s.start, head Committing-logged) ∷ []) (write_all to_log s.disk)
          (s.start + j + 1) (omega arith, tt)
      ∙ write_all-entries (λ i. s.start + i + 1) (λ i. s.cached (s.block i)) s.n 0 j s.disk
          (λ a b r t. omega arith) (omega arith) (omega arith)

  pub logged_disk-Outside : (b : ℕ) → Outside s.start s.size b → logged_disk b ≡ s.disk b
  logged_disk-Outside b out =
      write_all-Avoids (to_log ++ (s.start, head Committing-logged) ∷ []) s.disk b (
        append-Avoids to_log ((s.start, head Committing-logged) ∷ []) b (to_log-Avoids b (inr out))
          ((λ e. grind (arith, out, w.fits)), tt))

  -- The log and header of a disk on which home blocks have been written since
  module _ (m : ℕ) where
    abbrev pub stopped : Disk
    stopped = write_all (take m to_homes) logged_disk

    stopped-log : (i : ℕ) → i < s.size → stopped (s.start + i) ≡ logged_disk (s.start + i)
    stopped-log i p =
        write_all-Avoids (take m to_homes) logged_disk (s.start + i)
          (take-Avoids m to_homes (s.start + i) (to_homes-Avoids i p))

    stopped-header : stopped s.start ≡ head Committing-logged
    stopped-header =
        subst (λ b. stopped b ≡ logged_disk b) (omega arith) (stopped-log 0 (omega (arith, w.fits)))
        ∙ header-logged_disk

    pub stopped-count : stopped s.start 0 ≡ s.n
    stopped-count = (λ i. stopped-header i 0) ∙ header-count s.n s.block (s.cached s.start)

    stopped-block : (j : ℕ) → j < s.n → stopped s.start (j + 1) ≡ s.block j
    stopped-block j p =
        (λ i. stopped-header i (j + 1)) ∙ header-block s.n s.block (s.cached s.start) j p

    stopped-entry : (j : ℕ) → j < s.n → stopped (s.start + j + 1) ≡ s.cached (s.block j)
    stopped-entry j p =
        subst (λ b. stopped b ≡ logged_disk b) (omega arith)
          (stopped-log (j + 1) (omega (arith, w.fits)))
        ∙ logged_disk-log j p

    pub stopped-IsRecoverable : IsRecoverable s.start stopped
    stopped-IsRecoverable i j p q e =
        Committing-logged.apart i j (omega (arith, stopped-count)) (omega (arith, stopped-count))
          (e ∙ stopped-block j (omega (arith, stopped-count)))

    pub redo-stopped : redo s.start stopped ≡ to_homes
    redo-stopped =
        (λ i.
          entries (λ j. stopped s.start (j + 1)) (λ j. stopped (s.start + j + 1)) (stopped-count i)
            0)
        ∙ entries_congr _ _ _ _ s.n 0
            (λ j p q. (stopped-block j (omega arith), stopped-entry j (omega arith)))
