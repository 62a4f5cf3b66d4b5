-- ===== src/Log/Atomic.antt =====
-- The theorems about commits of kernel/log.c that stop, and recoveries that stop.
use xv6_riscv_zig.Prelude.{
  ℕ, ◌-◌, ◌<◌, ◌≤◌, ◌≡◌, refl, ◌∙◌, sym, ◌≢◌, inl, inr, [], ◌∷◌, ◌++◌, arith, take-all,
  length-append, Bool-cases, leb, leb→le, leb-false, ltb, ltb→lt, if◌then◌else◌,
}
use xv6_riscv_zig.Log.{Log}
use xv6_riscv_zig.Log.Recover.{recovered, recovered_whole, recovered_clear}
use xv6_riscv_zig.Log.Writes.{
  Disk, Writes, write_all, write_all-append, write_all-Avoids, write_all_last, write_all_congr,
  write_all_again, take-append_of_le,
}
use xv6_riscv_zig.Log.Crash.{
  Outside, IsCommitting, crashed, committed, logged, installs-committed, crashed_empty,
  crashed_early, crashed_late, to_homes, logged_disk, logged_disk-Outside, stopped, stopped-count,
  stopped-IsRecoverable, redo-stopped, length-to_homes,
}

module _ (s : Log) (w : IsCommitting s) (p : ℕ) (enough : s.n < p) where
  abbrev after : Disk → Disk
  after = recovered s.start s.size p

  homes-committed :
      (b : ℕ)
      → Outside s.start s.size b
      → write_all (to_homes s w) (logged_disk s w) b ≡ committed s b
  unfolding committed
  homes-committed b out =
      write_all_congr (to_homes s w) (logged_disk s w) s.disk b (logged_disk-Outside s w b out)
      ∙ installs-committed s.block s.cached s.disk s.n 0 b

  ne_start : (b : ℕ) → Outside s.start s.size b → b ≢ s.start
  ne_start b out e = grind (arith, out, w.fits)

  -- Some of the homes are written: recovery writes them all.
  after_some : (m b : ℕ) → Outside s.start s.size b → after (stopped s w m) b ≡ committed s b
  after_some m b out =
      (recovered_whole s.start s.size p (stopped s w m) (stopped-IsRecoverable s w m)
          (omega (arith, stopped-count s w m))).1
        b (ne_start b out)
      ∙ (λ i. write_all (redo-stopped s w m i) (stopped s w m) b)
      ∙ write_all_again m (to_homes s w) (logged_disk s w) (logged_disk s w) b refl
      ∙ homes-committed b out

  -- The header is clear again: recovery has nothing to do.
  after_all :
      (h0 : ℕ → ℕ) (b : ℕ)
      → h0 0 ≡ 0
      → Outside s.start s.size b
      → after (write_all (to_homes s w ++ (s.start, h0) ∷ []) (logged_disk s w)) b ≡ committed s b
  after_all h0 b z out =
      let y : Disk = write_all (to_homes s w) (logged_disk s w) in
      let d : Disk = write_all (to_homes s w ++ (s.start, h0) ∷ []) (logged_disk s w) in
      let last : d ≡ write_all ((s.start, h0) ∷ []) y =
        write_all-append (to_homes s w) ((s.start, h0) ∷ []) (logged_disk s w) in
      recovered_clear s.start s.size p d
        ((λ i. last i s.start 0) ∙ (λ i. write_all_last y s.start h0 i 0) ∙ z) (omega arith) b
        (ne_start b out)
      ∙ (λ i. last i b)
      ∙ write_all-Avoids ((s.start, h0) ∷ []) y b ((λ e. ne_start b out (sym e)), tt)
      ∙ homes-committed b out

  after_late :
      (k b : ℕ)
      → 0 < s.n
      → s.n < k
      → Outside s.start s.size b
      → after (crashed s k) b ≡ committed s b
  after_late k b pos h out =
      let (h0, z, e) = crashed_late s w k pos h in
      let m : ℕ = k - s.n - 1 in
      let rest : Writes = (s.start, h0) ∷ [] in
      elim (Bool-cases (leb m s.n)) [
        | inl few ↦
            (λ i. after (e i) b)
            ∙ (λ i.
                after
                  (write_all
                    (take-append_of_le m (to_homes s w) rest
                      (omega (arith, length-to_homes s w, leb→le m s.n few)) i)
                    (logged_disk s w))
                  b)
            ∙ after_some m b out
        | inr many ↦
            (λ i. after (e i) b)
            ∙ (λ i.
                after
                  (write_all
                    (take-all m (to_homes s w ++ rest)
                      (omega (
                        arith,
                        length-to_homes s w,
                        length-append (to_homes s w) rest,
                        leb-false m s.n many,
                      ))
                      i)
                    (logged_disk s w))
                  b)
            ∙ after_all h0 b z out
      ]

  after_early : (k b : ℕ) → k ≤ s.n → Outside s.start s.size b → after (crashed s k) b ≡ s.disk b
  after_early k b h out =
      recovered_clear s.start s.size p (crashed s k)
        ((λ i. crashed_early s w k s.start h (inl refl) i 0) ∙ w.clear) (omega arith) b
        (ne_start b out)
      ∙ crashed_early s w k b h (inr out)

  committed-zero : s.n ≡ 0 → (b : ℕ) → committed s b ≡ s.disk b
  unfolding committed
  committed-zero e b = λ i. if logged s.block (e i) 0 b then s.cached b else s.disk b

  -- Let the machine stop after any `k` disk writes of `commit`, and let it restart and recover
  -- with power for all writes of the recovery. Then every block outside the log holds what it
  -- held on the disk before the commit, if the header was not yet written (`k` up to `n`), and
  -- what the commit is to leave there, if it was (`k` above `n`).
  pub commit_atomic :
      (k b : ℕ)
      → Outside s.start s.size b
      → (k ≤ s.n → recovered s.start s.size p (crashed s k) b ≡ s.disk b)
        × (s.n < k → recovered s.start s.size p (crashed s k) b ≡ committed s b)
  commit_atomic k b out = (
    λ h. after_early k b h out,
    λ h. elim (Bool-cases (ltb 0 s.n)) [
      | inl pos ↦ after_late k b (ltb→lt 0 s.n pos) h out
      | inr e ↦
          (λ i. after (crashed_empty s w k (ground arith) i) b)
          ∙ recovered_clear s.start s.size p s.disk w.clear (omega arith) b (ne_start b out)
          ∙ sym (committed-zero (ground arith) b)
    ],
  )
