-- ===== src/Pipe/Closing.antt =====
-- `pipealloc` starts a pipe and `pipeclose` ends it.
use xv6_riscv_zig.Prelude.{◌≡◌, refl, Bool, true, false, not, ◌∷◌, arith, if◌then◌else◌}
use xv6_riscv_zig.Pipe.{Pipe, readers, writers, wakeup_on, pipeclose}
use xv6_riscv_zig.Pipe.Ring.{contents}

-- Closing both ends of a pipe, in either order, gives its page back at the second call, and at the
-- second only where both ends were open before. Each call wakes the processes at the other end, and
-- neither touches the contents.
pub pipeclose-both :
    (writable : Bool) (p : Pipe)
    → p.readopen ≡ true
    → p.writeopen ≡ true
    → let once = pipeclose writable p in
      let twice = pipeclose (not writable) once.0 in
      (once.1 ≡ false)
      × (twice.1 ≡ true)
      × (contents once.0 ≡ contents p)
      × (contents twice.0 ≡ contents p)
      × (once.0.woken ≡ (if writable then readers else writers) ∷ p.woken)
      × (twice.0.woken
          ≡ (if writable then writers else readers)
            ∷ (if writable then readers else writers)
            ∷ p.woken)
unfolding pipeclose wakeup_on
pipeclose-both true p r w = (ground arith, ground arith, refl, refl, refl, refl)
pipeclose-both false p r w = (ground arith, ground arith, refl, refl, refl, refl)
