-- ===== src/Proc/Child.antt =====
-- What `wait` finds.
use xv6_riscv_zig.Prelude.{ℕ, ◌≡◌, Bool, true, false, some, get_elem?}
use xv6_riscv_zig.Proc.{Proc, Table, is_proc, is_zombie, freeproc, Waited, reaped, failed, asleep}

-- What one round of `wait` has done. It has freed a child that was a zombie, and returns its pid;
-- or it returns -1 and the table is as it was, since it could not copy the exit status of a zombie
-- child, or the caller has no child, or was killed; or it sleeps, with the table as it was, since
-- the caller was not killed and has children, none of them a zombie.
pub data WaitDone (me : ℕ) (killed copied : Bool) (t : Table) : Table → Waited → Type 0 where
  freed :
      (i : ℕ) (p : Proc)
      → get_elem? t.procs i ≡ some p
      → is_proc p.parent me ≡ true
      → is_zombie p.state ≡ true
      → WaitDone me killed copied t (freeproc i p t) (reaped p.pid)
  not_copied :
      (i : ℕ) (p : Proc)
      → copied ≡ false
      → get_elem? t.procs i ≡ some p
      → is_proc p.parent me ≡ true
      → is_zombie p.state ≡ true
      → WaitDone me killed copied t t failed
  no_child :
      ((j : ℕ) (p : Proc) → get_elem? t.procs j ≡ some p → is_proc p.parent me ≡ false)
      → WaitDone me killed copied t t failed
  was_killed : killed ≡ true → WaitDone me killed copied t t failed
  sleeps :
      killed ≡ false
      → (k : ℕ) (c : Proc) → get_elem? t.procs k ≡ some c
      → is_proc c.parent me ≡ true
      → ((j : ℕ) (p : Proc)
          → get_elem? t.procs j ≡ some p
          → is_proc p.parent me ≡ true
          → is_zombie p.state ≡ false)
      → WaitDone me killed copied t t asleep
