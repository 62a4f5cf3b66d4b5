-- ===== src/Bio/Tests.antt =====
-- Runs of the buffer cache on small inputs.
use xv6_riscv_zig.Prelude.{ℕ, ◌≡◌, refl, Bool, true, false, List, [], ◌∷◌, Run, ok, panic, arith}
use xv6_riscv_zig.Locks.{initsleeplock}
use xv6_riscv_zig.Bio.{Buf, Cache, Block, binit, init_bufs, bget, bread_locked, fill}
use xv6_riscv_zig.Bio.Edits.{Got, bget_lem}
use xv6_riscv_zig.Bio.Steps.{gets, Reach, start, next, bufs_distinct}
use xv6_riscv_zig.Bio.Reading.{HasRead, bread-view}

-- Each word of block `k` holds `k`.
abbrev numbered : ℕ → ℕ → Block
numbered dev blockno = λ w. blockno

abbrev bufs_of : Run (ℕ × List Buf) → List Buf
bufs_of (ok (i, bs)) = bs
bufs_of (panic m) = []

-- The cache after its first `bget`, which takes the buffer that `binit` left at the end
abbrev once : List Buf
once = bufs_of (bget 1 5 binit)

abbrev first_buf : Buf
unfolding initsleeplock
first_buf = record {
  id = 0;
  valid = false;
  dev = 1;
  blockno = 5;
  lock = initsleeplock;
  refcnt = 1;
  content = λ i. 0;
}

first_run :
    Reach (record { bufs = binit; disk = numbered }) (record { bufs = once; disk = numbered })
unfolding bget binit
first_run = next start (gets 1 5 0 once (λ e. omega (arith, e)) refl refl)

bget_lem_example : Got 1 5 once (bget 1 5 once)
bget_lem_example = bget_lem 1 5 once

bufs_distinct_example : ◌≡◌ {A = ℕ} 29 29
unfolding bget binit first_buf
bufs_distinct_example =
    bufs_distinct numbered 29 29 first_buf first_buf first_run refl refl (λ e. omega (arith, e))
      refl refl

-- Three buffers, none of them in use
abbrev small : Cache
small = record { bufs = init_bufs 3; disk = numbered }

-- Block 7, read into the last of them by the process with pid 4
abbrev read_7 : Cache
read_7 = record {
  bufs =
      buf 2 0 0 false false 0 0 (λ i. 0)
      ∷ buf 1 0 0 false false 0 0 (λ i. 0)
      ∷ buf 0 1 7 true true 4 1 (λ i. 7)
      ∷ [];
  disk = numbered;
}
  where
    buf : ℕ → ℕ → ℕ → Bool → Bool → ℕ → ℕ → Block → Buf
    buf id dev blockno valid locked pid refcnt content = record {
      id = id;
      valid = valid;
      dev = dev;
      blockno = blockno;
      lock = record { locked = locked; pid = pid };
      refcnt = refcnt;
      content = content;
    }

bread-view_example : HasRead 1 7 0 small read_7
unfolding init_bufs bget bread_locked fill
bread-view_example =
    bread-view 4 1 7 0 small read_7 (bufs_of (bget 1 7 small.bufs)) (λ e. omega (arith, e))
      ((λ n. absurd (n refl)), ((λ n. absurd (n refl)), ((λ n. absurd (n refl)), tt)))
      ((λ e v. cc v), ((λ e v. cc v), ((λ e v. cc v), tt)))
      ((refl, (refl, tt)), ((refl, tt), (tt, tt))) refl refl
