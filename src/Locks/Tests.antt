-- ===== src/Locks/Tests.antt =====
-- Runs of the locks on small inputs.
use xv6_riscv_zig.Prelude.{ℕ, ◌≡◌, refl, true, false, some, none, ok, inr, update}
use xv6_riscv_zig.Locks.{
  Cpu, initlock, push_off, acquire_check, release_check, swap_locked, note_cpu,
}
use xv6_riscv_zig.Locks.Nesting.{Matched, done, round, run, run_matched}
use xv6_riscv_zig.Locks.Exclusion.{
  System, outside, spinning, swapped, inside, Reach, start, next, enters, swaps, notes, idle,
  mutual_exclusion,
}

abbrev quiet : Cpu
quiet = record { intr = true; noff = 0; intena = false }

abbrev pairs : Matched
pairs = round (round done (round done done)) (round done done)

run_matched_example : (c' : Cpu) × (run pairs quiet ≡ ok c') × (c'.intr ≡ true) × (c'.noff ≡ 0)
run_matched_example = run_matched pairs quiet (inr refl)

-- Hart 2 holds the lock.
abbrev taken : System
taken = record {
  lock = record { locked = true; cpu = some 2 };
  stage = update (update (update (λ i. outside) 2 spinning) 2 swapped) 2 inside;
}

idle-taken : Reach idle taken
unfolding initlock acquire_check push_off swap_locked note_cpu
idle-taken =
    next (next (next start (enters 2 quiet (push_off quiet) refl refl refl)) (swaps 2 refl refl))
      (notes 2 refl refl)

mutual_exclusion_example :
    (taken.stage 2 ≡ inside → taken.stage 2 ≡ inside → ◌≡◌ {A = ℕ} 2 2)
    × (taken.stage 2 ≡ outside → acquire_check 2 quiet taken.lock ≡ ok (push_off quiet))
    × (taken.stage 2 ≡ inside
        → release_check 2 taken.lock ≡ ok (record (taken.lock) { cpu = none }))
mutual_exclusion_example = mutual_exclusion 2 2 quiet idle-taken
