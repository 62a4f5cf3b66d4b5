-- ===== src/Log/Effect.antt =====
-- What each part of kernel/log.c writes, as a sequence of block writes.
use xv6_riscv_zig.Prelude.{
  ℕ, zero, suc, ◌+◌, ◌-◌, ◌<◌, ◌≤◌, ◌≡◌, refl, ◌∙◌, sym, ◌≢◌, [], ◌∷◌, ◌++◌, arith, take, length,
  length-append, take-nil, update, update_self, update_ne, ◌==◌, if◌then◌else◌, ne→==_false, Bool,
  true, false, subst,
}
use xv6_riscv_zig.Log.{
  Block, Log, store, bwrite, install_one, install_loop, write_log_one, write_log_loop, write_head,
}
use xv6_riscv_zig.Log.Header.{header}
use xv6_riscv_zig.Log.Writes.{
  Disk, Writes, write_all, entries, write_all-append, take-append, entries_congr,
}

-- `t` is `s` after the writes `ws`, of which the disk has those that the power allows.
pub record Did (s t : Log) (ws : Writes) : Type 0 where
  pub disk : t.disk ≡ write_all (take s.power ws) s.disk
  pub cached : t.cached ≡ write_all ws s.cached
  pub power : t.power ≡ s.power - length ws
  pub start : t.start ≡ s.start
  pub block : t.block ≡ s.block
  pub count : t.n ≡ s.n

pub disk_trans :
    {s t : Log} {d : Disk} {ws : Writes} (vs : Writes)
    → Did s t ws
    → d ≡ write_all (take t.power vs) t.disk
    → d ≡ write_all (take s.power (ws ++ vs)) s.disk
disk_trans {s} {ws} vs a e =
    rw (take-append s.power ws vs, write_all-append) (rw (← a.disk, ← a.power) e)

pub Did-trans : {s t u : Log} {ws vs : Writes} → Did s t ws → Did t u vs → Did s u (ws ++ vs)
Did-trans {ws} {vs} a b = record {
  disk = disk_trans vs a b.disk;
  cached = rw write_all-append (rw (← a.cached) b.cached);
  power = omega (arith, a.power, b.power, length-append ws vs);
  start = b.start ∙ a.start;
  block = b.block ∙ a.block;
  count = b.count ∙ a.count;
}

Did-refl : (s : Log) → Did s s []
unfolding write_all
Did-refl s = record {
  disk = rw (take-nil (ℕ × Block) s.power);
  cached = refl;
  power = omega arith;
  start = refl;
  block = refl;
  count = refl;
}

one_write :
    (p : ℕ) (d : Disk) (b : ℕ) (v : Block)
    → (if p == 0 then d else update d b v) ≡ write_all (take p ((b, v) ∷ [])) d
unfolding write_all
one_write zero d b v = refl
one_write (suc zero) d b v = refl
one_write (suc (suc p)) d b v = rw (ne→==_false (suc (suc p)) 0 (omega arith))

bwrite-Did : (s : Log) (b : ℕ) (v : Block) → Did s (bwrite b (store b v s)) ((b, v) ∷ [])
unfolding bwrite store write_all
bwrite-Did s b v = record {
  disk = rw (update_self s.cached b v) (one_write s.power s.disk b v);
  cached = refl;
  power = refl;
  start = refl;
  block = refl;
  count = refl;
}

-- The log blocks of rounds `0` to `m` are no home of a logged block.
abbrev pub Apart : ℕ → (ℕ → ℕ) → ℕ → Type 0
Apart start block m = (i j : ℕ) → i < m → j < m → start + i + 1 ≢ block j

write_log_one-Did :
    (i : ℕ) (s : Log) → Did s (write_log_one i s) ((s.start + i + 1, s.cached (s.block i)) ∷ [])
unfolding write_log_one write_all
write_log_one-Did i s = record {
  disk =
      rw (update_self s.cached (s.start + i + 1) (s.cached (s.block i)))
        (one_write s.power s.disk (s.start + i + 1) (s.cached (s.block i)));
  cached = refl;
  power = refl;
  start = refl;
  block = refl;
  count = refl;
}

install_one-Did :
    (r : Bool) (i : ℕ) (s : Log)
    → Did s (install_one r i s) ((s.block i, s.cached (s.start + i + 1)) ∷ [])
unfolding install_one write_all
install_one-Did true i s = record {
  disk =
      rw (update_self s.cached (s.block i) (s.cached (s.start + i + 1)))
        (one_write s.power s.disk (s.block i) (s.cached (s.start + i + 1)));
  cached = refl;
  power = refl;
  start = refl;
  block = refl;
  count = refl;
}
install_one-Did false i s = record {
  disk =
      rw (update_self s.cached (s.block i) (s.cached (s.start + i + 1)))
        (one_write s.power s.disk (s.block i) (s.cached (s.start + i + 1)));
  cached = refl;
  power = refl;
  start = refl;
  block = refl;
  count = refl;
}

-- What the loop of `write_log` writes: each logged block to its place in the log.
abbrev pub log_writes : ℕ → (ℕ → ℕ) → Disk → ℕ → ℕ → Writes
log_writes start block d = entries (λ j. start + j + 1) (λ j. d (block j))

-- What the loop of `install_trans` writes: each log block to its home.
abbrev pub home_writes : ℕ → (ℕ → ℕ) → Disk → ℕ → ℕ → Writes
home_writes start block d = entries block (λ j. d (start + j + 1))

module _ (m start : ℕ) (block : ℕ → ℕ) (apart : Apart start block m) where
  log_writes-update :
      (d : Disk) (v : Block) (i k : ℕ)
      → i + suc k ≤ m
      → log_writes start block (update d (start + i + 1) v) k (i + 1)
        ≡ log_writes start block d k (i + 1)
  log_writes-update d v i k h = entries_congr _ _ _ _ k (i + 1) λ j p q.
      (refl, update_ne d (start + i + 1) (block j) v (apart i j (omega arith) (omega arith)))

  home_writes-update :
      (d : Disk) (v : Block) (i k : ℕ)
      → i + suc k ≤ m
      → home_writes start block (update d (block i) v) k (i + 1)
        ≡ home_writes start block d k (i + 1)
  home_writes-update d v i k h = entries_congr _ _ _ _ k (i + 1) λ j p q. (
    refl,
    update_ne d (block i) (start + j + 1) v (λ e. apart j i (omega arith) (omega arith) (sym e)),
  )

pub write_log_loop-Did :
    (m k i : ℕ) (s : Log)
    → Apart s.start s.block m
    → i + k ≤ m
    → Did s (write_log_loop k i s) (log_writes s.start s.block s.cached k i)
unfolding write_log_loop write_log_one entries
write_log_loop-Did m zero i s apart h = Did-refl s
write_log_loop-Did m (suc k) i s apart h =
    subst
      (λ ws.
        Did s (write_log_loop k (i + 1) (write_log_one i s))
          ((s.start + i + 1, s.cached (s.block i)) ∷ ws))
      (log_writes-update m s.start s.block apart s.cached (s.cached (s.block i)) i k h)
      (Did-trans (write_log_one-Did i s)
        (write_log_loop-Did m k (i + 1) (write_log_one i s) apart (omega arith)))

pub install_loop-Did :
    (r : Bool) (m k i : ℕ) (s : Log)
    → Apart s.start s.block m
    → i + k ≤ m
    → Did s (install_loop r k i s) (home_writes s.start s.block s.cached k i)
unfolding install_loop install_one entries
install_loop-Did r m zero i s apart h = Did-refl s
install_loop-Did true m (suc k) i s apart h =
    subst
      (λ ws.
        Did s (install_loop true k (i + 1) (install_one true i s))
          ((s.block i, s.cached (s.start + i + 1)) ∷ ws))
      (home_writes-update m s.start s.block apart s.cached (s.cached (s.start + i + 1)) i k h)
      (Did-trans (install_one-Did true i s)
        (install_loop-Did true m k (i + 1) (install_one true i s) apart (omega arith)))
install_loop-Did false m (suc k) i s apart h =
    subst
      (λ ws.
        Did s (install_loop false k (i + 1) (install_one false i s))
          ((s.block i, s.cached (s.start + i + 1)) ∷ ws))
      (home_writes-update m s.start s.block apart s.cached (s.cached (s.start + i + 1)) i k h)
      (Did-trans (install_one-Did false i s)
        (install_loop-Did false m k (i + 1) (install_one false i s) apart (omega arith)))

pub write_head-Did :
    (s : Log) → Did s (write_head s) ((s.start, header s.n s.block (s.cached s.start)) ∷ [])
unfolding write_head write_all
write_head-Did s = record {
  disk =
      let v = header s.n s.block (s.cached s.start) in
      rw (update_self s.cached s.start v) (one_write s.power s.disk s.start v);
  cached = refl;
  power = refl;
  start = refl;
  block = refl;
  count = refl;
}
