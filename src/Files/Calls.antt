-- ===== src/Files/Calls.antt =====
-- Any sequence of a process's calls on descriptors.
use xv6_riscv_zig.Prelude.{ℕ, ◌≡◌, refl, Bool, Option, List, [], ◌∷◌, Run, ok, panic, ◌>>=◌}
use xv6_riscv_zig.Files.{Files, open_inode, open_device, open_fd, sys_dup, sys_close, sys_pipe}
use xv6_riscv_zig.Files.Counts.{Counted, Kept, kept, sys_close-Kept, sys_dup-Kept, open_fd-Kept}
use xv6_riscv_zig.Files.Pipes.{sys_pipe-Kept}

-- A call, with what the rest of the kernel returns to it
pub data Call : Type 0 where
  dups : (fd : ℕ) → Call
  closes : (fd : ℕ) → Call
  opens : (ip : ℕ) (readable writable : Bool) → Call
  opens_device : (ip major : ℕ) (readable writable : Bool) → Call
  pipes : (page : ℕ) (copied : Bool) → Call

pub call : Call → Files → Run (Files × Option ℕ)
call (dups fd) s = sys_dup fd s
call (closes fd) s = sys_close fd s
call (opens ip readable writable) s = open_fd (open_inode ip readable writable) s
call (opens_device ip major readable writable) s =
    open_fd (open_device ip major readable writable) s
call (pipes page copied) s = sys_pipe page copied s

pub run : List Call → Files → Run Files
unfolding call
run [] s = ok s
run (c ∷ cs) s = do (s1, result) ← call c s; run cs s1

call-Kept : (others : ℕ → ℕ) (c : Call) (s : Files) → Counted others s → Kept others (call c s)
unfolding call open_inode open_device
call-Kept others (dups fd) s h = sys_dup-Kept others fd s h
call-Kept others (closes fd) s h = sys_close-Kept others fd s h
call-Kept others (opens ip readable writable) s h =
    open_fd-Kept others (open_inode ip readable writable) s (λ g. refl) h
call-Kept others (opens_device ip major readable writable) s h =
    open_fd-Kept others (open_device ip major readable writable) s (λ g. refl) h
call-Kept others (pipes page copied) s h = sys_pipe-Kept others page copied s h

-- Let the reference count of every file be the number of this process's descriptors that refer to
-- it and of the `others` that do. Then any sequence of dup, close, open and pipe calls, whichever of
-- them fail, ends without a panic, and the counts are right again.
pub calls-Counted :
    (others : ℕ → ℕ) (cs : List Call) (s : Files)
    → Counted others s
    → (t : Files) × (run cs s ≡ ok t) × Counted others t
unfolding run
calls-Counted others [] s h = (s, refl, h)
calls-Counted others (c ∷ cs) s h =
    after (call c s) (call-Kept others c s h) (calls-Counted others cs)
  where
    after :
        (r : Run (Files × Option ℕ))
        → Kept others r
        → ((u : Files) → Counted others u → (t : Files) × (run cs u ≡ ok t) × Counted others t)
        → (t : Files) × ((r >>= λ (s1, result). run cs s1) ≡ ok t) × Counted others t
    after (ok (u, r)) (kept _ _ h1) ih = ih u h1
    after (panic m) k ih = elim k [ ]
