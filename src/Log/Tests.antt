-- ===== src/Log/Tests.antt =====
-- The theorems about kernel/log.c at concrete logs.
use xv6_riscv_zig.Prelude.{
  ℕ, ◌≤◌, ◌<◌, ◌≡◌, refl, inl, inr, true, false, ◌||◌, ◌==◌, [], ◌∷◌, arith, update, if◌then◌else◌,
  ok,
}
use xv6_riscv_zig.Log.{
  Log, begin_op, record_block, log_write, write_log, write_head, install_trans, commit, initlog,
  logsize, write_log_one, install_one,
}
use xv6_riscv_zig.Log.Writes.{Disk}
use xv6_riscv_zig.Log.Recover.{IsRecoverable, recovered}
use xv6_riscv_zig.Log.Crash.{IsCommitting, crashed, committed, logged}
use xv6_riscv_zig.Log.Atomic.{commit_atomic}
use xv6_riscv_zig.Log.Again.{recovery_restarts}
use xv6_riscv_zig.Log.Absorb.{log_write-logged}
use xv6_riscv_zig.Log.Busy.{Busy, HasSpace, enter, Reach, here, next, reserve}
use xv6_riscv_zig.Log.Space.{log_write_fits}

-- One operation has logged block 40; every block `b` holds `b` in the cache, and 0 on the disk.
abbrev one_logged : Log
one_logged = record {
  disk = λ b w. 0;
  cached = λ b w. b;
  refs = λ b. 0;
  power = 0;
  start = 2;
  size = 31;
  outstanding = 1;
  committing = false;
  n = 1;
  block = λ i. 40;
}

one_logged-IsCommitting : IsCommitting one_logged
one_logged-IsCommitting = record {
  fits = omega arith;
  homes = λ i p. inr (omega arith);
  clear = refl;
}

-- With the header written (two writes), the home block is not, but the recovery writes it.
crash_before_install :
    (crashed one_logged 2 40 5 ≡ 0) × (recovered 2 31 5 (crashed one_logged 2) 40 5 ≡ 40)
unfolding crashed recovered commit write_log write_head install_trans initlog write_log_one
    install_one
crash_before_install = (refl, refl)

commit_atomic_example :
    (2 ≤ 1 → recovered 2 31 5 (crashed one_logged 2) 40 ≡ one_logged.disk 40)
    × (1 < 2 → recovered 2 31 5 (crashed one_logged 2) 40 ≡ committed one_logged 40)
commit_atomic_example =
    commit_atomic one_logged one_logged-IsCommitting 5 (omega arith) 2 40 (inr (omega arith))

-- A log on the disk with one block, number 40, whose contents are all 7
abbrev logged_disk : Disk
logged_disk = update (update (λ b w. 0) 2 (λ w. if w == 0 then 1 else 40)) 3 (λ w. 7)

logged_disk-IsRecoverable : IsRecoverable 2 logged_disk
logged_disk-IsRecoverable i j p q e = ground arith

recovery_restarts_example :
    recovered 2 31 5 (recovered 2 31 1 logged_disk) 40 ≡ recovered 2 31 5 logged_disk 40
recovery_restarts_example =
    recovery_restarts 2 31 5 logged_disk logged_disk-IsRecoverable (λ j p e. ground arith)
      (omega arith) 1 40 (omega arith)

log_write-logged_example :
    let t : Log = record_block 41 one_logged in
    ((c : ℕ) → logged t.block t.n 0 c ≡ (41 == c || logged one_logged.block 1 0 c))
    × (logged one_logged.block 1 0 41 ≡ true → t.n ≡ 1)
unfolding log_write
log_write-logged_example = log_write-logged 41 one_logged (record_block 41 one_logged) refl

-- A log of `logsize` blocks, as the image has it
abbrev idle : Busy
idle = record { log = record one_logged { size = 30; outstanding = 0; n = 0 }; used = [] }

abbrev entered : Busy
entered = record { log = record one_logged { size = 30; outstanding = 1; n = 0 }; used = 0 ∷ [] }

idle-HasSpace : HasSpace idle
unfolding reserve
idle-HasSpace = record {
  counted = refl;
  few = omega arith;
  space = omega arith;
  alone = λ c. refl;
  room = omega arith;
}

entered-Reach : Reach idle entered
unfolding begin_op
entered-Reach = next here (enter refl refl)

log_write_fits_example : (l : Log) × (log_write 9 entered.log ≡ ok l) × (entered.log.n < logsize)
log_write_fits_example =
    log_write_fits idle-HasSpace entered-Reach [] [] 0 9 refl (inl (omega arith))
