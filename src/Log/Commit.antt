-- ===== src/Log/Commit.antt =====
-- What a commit and a recovery leave on the disk when the machine stops after some of their
-- writes.
use xv6_riscv_zig.Prelude.{
  ℕ, ◌+◌, ◌<◌, ◌≡◌, ap, ◌∙◌, sym, ◌≢◌, List, [], ◌∷◌, ◌++◌, append_assoc, arith, take, lt→ltb,
  false, subst,
}
use xv6_riscv_zig.Log.{Block, Log, write_log, write_head, install_trans, commit}
use xv6_riscv_zig.Log.Header.{header, header-count}
use xv6_riscv_zig.Log.Effect.{
  Did, Did-trans, disk_trans, Apart, log_writes, home_writes, write_log_loop-Did, install_loop-Did,
  write_head-Did,
}
use xv6_riscv_zig.Log.Writes.{
  Disk, Writes, write_all, write_all-append, entries, entries_congr, write_all-entries,
  write_all-Avoids, entries-Avoids,
}

-- The block numbers and contents of a commit's install writes: each logged block, as cached.
abbrev pub installs : ℕ → (ℕ → ℕ) → Disk → Writes
installs n block d = entries block (λ j. d (block j)) n 0

-- All writes of a commit, in order.
abbrev pub commit_writes : Log → Block → Writes
commit_writes s h0 =
    log_writes s.start s.block s.cached s.n 0
    ++ (s.start, header s.n s.block (s.cached s.start))
      ∷ (installs s.n s.block s.cached ++ (s.start, h0) ∷ [])

regroup {ℓ} :
    {A : Type ℓ} (l : List A) (h : A) (i : List A) (z : A)
    → ((l ++ h ∷ []) ++ i) ++ z ∷ [] ≡ l ++ h ∷ (i ++ z ∷ [])
regroup l h i z = append_assoc (l ++ h ∷ []) i (z ∷ []) ∙ append_assoc l (h ∷ []) (i ++ z ∷ [])

-- The state in which `commit` is called: the homes of the logged blocks lie outside the log.
pub record IsLogged (s : Log) : Type 0 where
  pub apart : Apart s.start s.block s.n
  pub homes : (i : ℕ) → i < s.n → s.block i ≢ s.start

module _ {s : Log} (w : IsLogged s) where
  write_log-Did : Did s (write_log s) (log_writes s.start s.block s.cached s.n 0)
  unfolding write_log
  write_log-Did = write_log_loop-Did s.n s.n 0 s w.apart (omega arith)

  cached-write_log :
      (j : ℕ) → j < s.n → (write_log s).cached (s.start + j + 1) ≡ s.cached (s.block j)
  cached-write_log j p =
      (λ t. write_log-Did.cached t (s.start + j + 1))
      ∙ write_all-entries (λ i. s.start + i + 1) (λ i. s.cached (s.block i)) s.n 0 j s.cached
          (λ a b r t. omega arith) (omega arith) (omega arith)

  cached-write_log_start : (write_log s).cached s.start ≡ s.cached s.start
  cached-write_log_start =
      (λ t. write_log-Did.cached t s.start)
      ∙ write_all-Avoids (log_writes s.start s.block s.cached s.n 0) s.cached s.start
          (entries-Avoids _ _ s.start s.n 0 (λ j p q. omega arith))

  abbrev pub head : Block
  head = header s.n s.block (s.cached s.start)

  write_head-write_log-Did :
      Did s
        (write_head (write_log s))
        (log_writes s.start s.block s.cached s.n 0 ++ (s.start, head) ∷ [])
  write_head-write_log-Did =
      let d = write_log-Did in
      let at_start : (write_log s).cached (write_log s).start ≡ s.cached s.start =
        ap (write_log s).cached d.start ∙ cached-write_log_start in
      subst
        (λ ws. Did s (write_head (write_log s)) (log_writes s.start s.block s.cached s.n 0 ++ ws))
        (λ t. (d.start t, header (d.count t) (d.block t) (at_start t)) ∷ [])
        (Did-trans d (write_head-Did (write_log s)))

  -- After `write_head` the header in memory is as before, and so are the log blocks.
  abbrev headed : Log
  headed = write_head (write_log s)

  cached-headed : (j : ℕ) → j < s.n → headed.cached (s.start + j + 1) ≡ s.cached (s.block j)
  cached-headed j p =
      (λ t. write_head-write_log-Did.cached t (s.start + j + 1))
      ∙ (λ t.
          write_all-append (log_writes s.start s.block s.cached s.n 0) ((s.start, head) ∷ [])
            s.cached t (s.start + j + 1))
      ∙ write_all-Avoids ((s.start, head) ∷ [])
          (write_all (log_writes s.start s.block s.cached s.n 0) s.cached) (s.start + j + 1)
          (omega arith, tt)
      ∙ (λ t. sym write_log-Did.cached t (s.start + j + 1))
      ∙ cached-write_log j p

  headed-Apart : Apart headed.start headed.block headed.n
  headed-Apart i j p q =
      let d = write_head-write_log-Did in
      subst (λ b. headed.start + i + 1 ≢ b j) (sym d.block)
        (subst (λ a. a + i + 1 ≢ s.block j) (sym d.start)
          (w.apart i j (omega (arith, d.count)) (omega (arith, d.count))))

  installs-headed :
      home_writes headed.start headed.block headed.cached headed.n 0 ≡ installs s.n s.block s.cached
  installs-headed =
      let d = write_head-write_log-Did in
      (λ t. entries headed.block (λ j. headed.cached (headed.start + j + 1)) (d.count t) 0)
      ∙ entries_congr _ _ _ _ s.n 0 (λ j p q. (
        (λ t. d.block t j),
        (λ t. headed.cached (d.start t + j + 1)) ∙ cached-headed j (omega arith),
      ))

  installed-Did : Did s (install_trans false headed) (
      (log_writes s.start s.block s.cached s.n 0 ++ (s.start, head) ∷ [])
      ++ installs s.n s.block s.cached)
  unfolding install_trans
  installed-Did =
      subst
        (λ ws.
          Did s (install_trans false headed)
            ((log_writes s.start s.block s.cached s.n 0 ++ (s.start, head) ∷ []) ++ ws))
        installs-headed
        (Did-trans write_head-write_log-Did
          (install_loop-Did false headed.n headed.n 0 headed headed-Apart (omega arith)))

  commit_steps : 0 < s.n → commit s ≡ write_head (record (install_trans false headed) { n = 0 })
  unfolding commit
  commit_steps pos = rw (lt→ltb 0 s.n pos)

  pub commit_disk :
      0 < s.n
      → (h0 : Block) × (h0 0 ≡ 0)
        × ((commit s).disk ≡ write_all (take s.power (commit_writes s h0)) s.disk)
  commit_disk pos =
      let t = install_trans false headed in
      let d = installed-Did in
      let h0 : Block = header 0 t.block (t.cached t.start) in
      let e = disk_trans ((t.start, h0) ∷ []) d (write_head-Did (record t { n = 0 })).disk in
      (
        h0,
        header-count 0 t.block (t.cached t.start),
        ap (λ (u : Log). u.disk) (commit_steps pos)
            ∙ e
            ∙ ap (λ ws. write_all (take s.power ws) s.disk)
                (regroup (log_writes s.start s.block s.cached s.n 0) (s.start, head)
                    (installs s.n s.block s.cached) (t.start, h0)
                  ∙ (λ i.
                      log_writes s.start s.block s.cached s.n 0
                      ++ (s.start, head)
                        ∷ (installs s.n s.block s.cached ++ (d.start i, h0) ∷ []))),
      )
