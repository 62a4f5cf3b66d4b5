-- ===== src/Proc/Tests.antt =====
-- The theorems about kernel/proc.c at concrete tables.
use xv6_riscv_zig.Prelude.{
  ℕ, ◌^◌, ◌<◌, ◌≡◌, refl, true, false, ◌&&◌, not, some, [], ◌∷◌, arith, get_elem?, if◌then◌else◌,
}
use xv6_riscv_zig.Proc.{
  runnable, sleeping, used, zombie, process, address, Proc, Table, is_sleeping, same_chan, is_proc,
  no_proc, procinit, wakeup, kill, allocproc, find_unused, init_proc, wait, scan, finish_wait, reap,
  reaped,
}
use xv6_riscv_zig.Proc.Wake.{wakeup_lem, Killed, kill_lem}
use xv6_riscv_zig.Proc.Steps.{Reach, steps, here, next, allocates, pids_unique}

-- A parent that sleeps on itself, its exited child, and a process that waits for input
abbrev parent : Proc
parent = record no_proc { state = sleeping; chan = process 0; pid = 1 }

abbrev child : Proc
child = record no_proc { state = zombie; pid = 2; parent = some 0; xstate = 7 }

abbrev reader : Proc
reader = record no_proc { state = sleeping; chan = address 9; pid = 3; parent = some 0 }

abbrev family : Table
family = record { procs = parent ∷ child ∷ reader ∷ []; nextpid = 4; freed = [] }

wait-family : (wait 0 0 false true family).1 ≡ reaped 2
unfolding wait scan finish_wait reap
wait-family = refl

wakeup_lem_example :
    get_elem? (wakeup (address 9) (some 0) family.procs) 2
    ≡ some (
        if not (is_proc (some 0) 2)
          && (is_sleeping reader.state && same_chan reader.chan (address 9))
        then record reader { state = runnable }
        else reader)
wakeup_lem_example = wakeup_lem (address 9) (some 0) 2 family.procs reader refl

kill_lem_example : Killed 3 family.procs (kill 3 family.procs)
kill_lem_example = kill_lem 3 family.procs

-- The first process, in the first entry
abbrev first : Proc
first = record no_proc { state = used; pid = 1; trapframe = 4096; pagetable = 8192 }

first-Reach : Reach procinit (allocproc 4096 8192 procinit).0
first-Reach = next here (allocates 4096 8192 refl)

pids_unique_example : ◌≡◌ {A = ℕ} 0 0 × (1 < 2) × (2 < 2 ^ 31)
unfolding allocproc procinit find_unused init_proc steps first-Reach
pids_unique_example =
    pids_unique {t = (allocproc 4096 8192 procinit).0} 0 0 first first first-Reach (omega arith)
      refl refl (omega arith) refl
