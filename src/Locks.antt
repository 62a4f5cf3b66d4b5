-- ===== src/Locks.antt =====
-- kernel/spinlock.c and kernel/sleeplock.c.
pub mod Nesting
pub mod Exclusion
mod Tests
use Prim.Native.String.{String}
use xv6_riscv_zig.Prelude.{
  ℕ, ◌+◌, ◌-◌, Bool, true, false, ◌&&◌, not, Option, none, some, ltb, ◌==◌, if◌then◌else◌, Run, ok,
  panic, ◌>>=◌, ◌>>◌, panic_if,
}

-- What `push_off` and `pop_off` use of a hart: whether interrupts are on, `noff` and `intena` of
-- `struct cpu`.
pub record Cpu : Type 0 where
  pub intr : Bool
  pub noff : ℕ
  pub intena : Bool

-- `noff` is an `int`, and counts the locks that one hart holds.
unfoldable pub push_off : Cpu → Cpu
push_off c = record c {
  intr = false;
  intena = if c.noff == 0 then c.intr else c.intena;
  noff = c.noff + 1;
}

unfoldable pub pop_off : Cpu → Run Cpu
pop_off c = do
  panic_if c.intr "pop_off - interruptible"
  panic_if (ltb c.noff 1) "pop_off"
  ok (record c { noff = c.noff - 1; intr = if c.noff - 1 == 0 && c.intena then true else c.intr })

-- `struct spinlock`, less its name; `cpu` is the index of a hart.
pub record Spinlock : Type 0 where
  pub locked : Bool
  pub cpu : Option ℕ

unfoldable pub initlock : Spinlock
initlock = record { locked = false; cpu = none }

abbrev pub is_cpu : Option ℕ → ℕ → Bool
is_cpu none me = false
is_cpu (some i) me = i == me

unfoldable pub holding : ℕ → Spinlock → Bool
holding me lk = lk.locked && is_cpu lk.cpu me

-- The parts of `acquire` that other harts can come between: its check; one atomic swap of `locked`,
-- with what it returns; and the note of the new holder.
unfoldable pub acquire_check : ℕ → Cpu → Spinlock → Run Cpu
unfolding push_off holding
acquire_check me c lk = do panic_if (holding me lk) "acquire"; ok (push_off c)

unfoldable pub swap_locked : Spinlock → Spinlock × Bool
swap_locked lk = (record lk { locked = true }, lk.locked)

unfoldable pub note_cpu : ℕ → Spinlock → Spinlock
note_cpu me lk = record lk { cpu = some me }

-- The parts of `release`: its check and the note that no one holds the lock; the store to `locked`.
-- `pop_off` follows.
pub release_check : ℕ → Spinlock → Run Spinlock
unfolding holding
release_check me lk = do panic_if (not (holding me lk)) "release"; ok (record lk { cpu = none })

pub release_locked : Spinlock → Spinlock
release_locked lk = record lk { locked = false }

-- `struct sleeplock`, less its spin lock and name
pub record Sleeplock : Type 0 where
  pub locked : Bool
  pub pid : ℕ

unfoldable pub initsleeplock : Sleeplock
initsleeplock = record { locked = false; pid = 0 }

-- One round of `acquiresleep` of the process with pid `me`; `none` where it goes to sleep, to try
-- again when it wakes.
unfoldable pub acquiresleep : ℕ → Sleeplock → Option Sleeplock
acquiresleep me lk = if lk.locked then none else some (record { locked = true; pid = me })

-- (It wakes the sleepers.)
unfoldable pub releasesleep : Sleeplock → Sleeplock
releasesleep lk = record { locked = false; pid = 0 }

unfoldable pub holdingsleep : ℕ → Sleeplock → Bool
holdingsleep me lk = lk.locked && lk.pid == me
