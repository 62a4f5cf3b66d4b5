-- ===== src/Pipe/Tests.antt =====
-- Runs of the pipe on small inputs.
use xv6_riscv_zig.Prelude.{ℕ, ◌-◌, ◌^◌, ◌≡◌, refl, Bool, true, false, [], ◌∷◌, arith}
use xv6_riscv_zig.Pipe.{
  Pipe, UserMem, Write, wrote, refused, full, out_of_fuel, write_loop, write_step, write_chunk,
  finish_write, wakeup_on, copyin, copy, pipewrite, piperead,
}
use xv6_riscv_zig.Pipe.Ring.{contents, IsPipe}
use xv6_riscv_zig.Pipe.Sending.{WriteDone, pipewrite_lem}
use xv6_riscv_zig.Pipe.Receiving.{ReadDone, piperead_lem}

-- Three bytes are queued; the ring and the counters both wrap at the next one.
abbrev wrapping : Pipe
wrapping = record {
  ring = λ i. i;
  nread = 2 ^ 32 - 4;
  nwrite = 2 ^ 32 - 1;
  readopen = true;
  writeopen = true;
  woken = [];
}

wrapping-IsPipe : IsPipe wrapping
wrapping-IsPipe = record { nread_lt = omega arith; nwrite_lt = omega arith; used_le = omega arith }

-- A buffer of bytes 100, 101, ... of which those below address 1000 are there
abbrev buffer : UserMem
buffer = record { byte = λ x. x; present = λ x. 1000 - x }

abbrev alive : ℕ → Bool
alive i = false

abbrev pipe_of : Write → Pipe
pipe_of (wrote p i) = p
pipe_of (refused p) = p
pipe_of (full p i) = p
pipe_of out_of_fuel = wrapping

-- A write goes round the end of the ring.
write_wraps :
    contents (pipe_of (pipewrite buffer alive 100 3 0 wrapping))
    ≡ 508 ∷ 509 ∷ 510 ∷ 100 ∷ 101 ∷ 102 ∷ []
unfolding pipewrite write_loop write_step write_chunk finish_write wakeup_on copyin copy
write_wraps = refl

pipewrite_lem_example :
    WriteDone buffer alive 100 3 0 wrapping (pipewrite buffer alive 100 3 0 wrapping)
pipewrite_lem_example = pipewrite_lem buffer alive 100 3 0 wrapping wrapping-IsPipe (omega arith)

piperead_lem_example : ReadDone false 100 8 buffer wrapping (piperead buffer false 100 8 wrapping)
piperead_lem_example = piperead_lem false 100 8 buffer wrapping wrapping-IsPipe
