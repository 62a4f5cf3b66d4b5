-- ===== src/Pipe.antt =====
-- kernel/pipe.c: a ring of bytes between two processes. `pipewrite` and `piperead` are cut where
-- they sleep: each run below holds the pipe's lock throughout, and gives it up at the end.
pub mod Ring
pub mod Memory
pub mod Sent
pub mod Sending
pub mod Taken
pub mod Closing
pub mod Receiving
mod Tests
use xv6_riscv_zig.Prelude.{
  ℕ, zero, suc, ◌+◌, ◌-◌, ◌%◌, ◌^◌, min, Bool, true, false, ◌&&◌, ◌||◌, not, Option, none, some,
  List, [], ◌∷◌, ltb, leb, ◌==◌, if◌then◌else◌,
}

abbrev pub pipesize : ℕ
pipesize = 512

-- What a pipe's processes sleep on: `&pi->nread` or `&pi->nwrite`
pub data PipeChan : Type 0 where
  readers writers : PipeChan

-- `struct pipe`, with the `wakeup` calls made so far, the last one first. Entries of `ring` from
-- `pipesize` on do not exist.
pub record Pipe : Type 0 where
  pub ring : ℕ → ℕ
  pub nread : ℕ
  pub nwrite : ℕ
  pub readopen : Bool
  pub writeopen : Bool
  pub woken : List PipeChan

pub wakeup_on : PipeChan → Pipe → Pipe
wakeup_on chan p = record p { woken = chan ∷ p.woken }

-- What `copyin` and `copyout` of kernel/vm.c see of the process's memory: its bytes, and how many
-- can be copied from an address on before a page is missing.
pub record UserMem : Type 0 where
  pub byte : ℕ → ℕ
  pub present : ℕ → ℕ

-- `k` bytes of `src` from `from` on go to `to`.
unfoldable pub copy : (ℕ → ℕ) → ℕ → (ℕ → ℕ) → ℕ → ℕ → ℕ → ℕ
copy dst to src from k q = if leb to q && ltb q (to + k) then src (from + (q - to)) else dst q

-- They copy page by page, so what lies before a missing page is copied even where they fail.
unfoldable pub copyin : (ℕ → ℕ) → ℕ → UserMem → ℕ → ℕ → (ℕ → ℕ) × Bool
unfolding copy
copyin ring to u addr len =
    (copy ring to u.byte addr (min len (u.present addr)), leb len (u.present addr))

unfoldable pub copyout : UserMem → ℕ → (ℕ → ℕ) → ℕ → ℕ → UserMem × Bool
unfolding copy
copyout u addr ring from len = (
  record u { byte = copy u.byte addr ring from (min len (u.present addr)) },
  leb len (u.present addr),
)

-- `x - y` and `x + y` on `uint`
abbrev pub sub32 : ℕ → ℕ → ℕ
sub32 x y = (x + (2 ^ 32 - y)) % 2 ^ 32

abbrev pub add32 : ℕ → ℕ → ℕ
add32 x y = (x + y) % 2 ^ 32

-- The end of a run of `pipewrite`: it returns `i`, it returns -1, or it sleeps with `i` bytes
-- written, to run on when it wakes.
pub data Write : Type 0 where
  wrote : Pipe → ℕ → Write
  refused : Pipe → Write
  full : Pipe → ℕ → Write
  out_of_fuel : Write

pub data WriteStep : Type 0 where
  goes_on : Pipe → ℕ → WriteStep
  ends : Write → WriteStep

-- The end of `pipewrite`, after its loop
pub finish_write : Pipe → ℕ → Write
unfolding wakeup_on
finish_write p i = wrote (wakeup_on readers p) i

-- The copying branch of the loop of `pipewrite`
pub write_chunk : UserMem → ℕ → ℕ → ℕ → Pipe → WriteStep
unfolding copyin finish_write
write_chunk u addr n i p =
    let avail_space = sub32 pipesize (sub32 p.nwrite p.nread) in
    let n_to_write = min avail_space (n - i) in
    let write_pos = p.nwrite % pipesize in
    let bytes_until_end = pipesize - write_pos in
    let chunk = min bytes_until_end n_to_write in
    let (ring, done) = copyin p.ring write_pos u (addr + i) chunk in
    if done
    then goes_on (record p { ring = ring; nwrite = add32 p.nwrite chunk }) (i + chunk)
    else ends (finish_write (record p { ring = ring }) i)

-- One round of the loop. `killed i` is what `killed(pr)` returns in the round that starts with `i`
-- bytes written.
pub write_step : UserMem → (ℕ → Bool) → ℕ → ℕ → ℕ → Pipe → WriteStep
unfolding write_chunk finish_write wakeup_on
write_step u killed addr n i p =
    if ltb i n
    then (if not p.readopen || killed i
        then ends (refused p)
        else (if p.nwrite == add32 p.nread pipesize
            then ends (full (wakeup_on readers p) i)
            else write_chunk u addr n i p))
    else ends (finish_write p i)

pub write_loop : UserMem → (ℕ → Bool) → ℕ → ℕ → ℕ → ℕ → Pipe → Write
write_loop u killed addr n zero i p = out_of_fuel
write_loop u killed addr n (suc fuel) i p = elim (write_step u killed addr n i p) [
  | goes_on q j ↦ write_loop u killed addr n fuel j q
  | ends r ↦ r
]

-- `pipewrite(pi, addr, n)` with `i` bytes already written. (Where `n` is negative it writes
-- nothing, as with 0.)
pub pipewrite : UserMem → (ℕ → Bool) → ℕ → ℕ → ℕ → Pipe → Write
unfolding write_loop
pipewrite u killed addr n i p = write_loop u killed addr n (suc n) i p

-- The end of a run of `piperead`
pub data Read : Type 0 where
  got : UserMem → Pipe → ℕ → Read
  interrupted : Pipe → Read
  empty : Pipe → Read
  unfinished : Read

pub data ReadStep : Type 0 where
  reads_on : UserMem → Pipe → ℕ → ReadStep
  stops : UserMem → Pipe → ℕ → ReadStep

-- One round of the copying loop of `piperead`
pub read_step : UserMem → ℕ → ℕ → ℕ → Pipe → ReadStep
unfolding copyout
read_step u addr n i p =
    let remaining = sub32 p.nwrite p.nread in
    let n_to_read = min remaining (n - i) in
    let read_pos = p.nread % pipesize in
    let bytes_until_end = pipesize - read_pos in
    let chunk = min n_to_read bytes_until_end in
    let (v, done) = copyout u (addr + i) p.ring read_pos chunk in
    if ltb i n && not (remaining == 0)
    then (if done
        then reads_on v (record p { nread = add32 p.nread chunk }) (i + chunk)
        else stops v p i)
    else stops u p i

pub read_loop : UserMem → ℕ → ℕ → ℕ → ℕ → Pipe → Read
unfolding wakeup_on
read_loop u addr n zero i p = unfinished
read_loop u addr n (suc fuel) i p = elim (read_step u addr n i p) [
  | reads_on v q j ↦ read_loop v addr n fuel j q
  | stops v q j ↦ got v (wakeup_on writers q) j
]

-- `piperead(pi, addr, n)`, from its start or from where it wakes
pub piperead : UserMem → Bool → ℕ → ℕ → Pipe → Read
unfolding read_loop
piperead u killed addr n p =
    if p.nread == p.nwrite && p.writeopen
    then (if killed then interrupted p else empty p)
    else read_loop u addr n (suc n) 0 p

-- `pipeclose`: the pipe, and whether its page is given back
pub pipeclose : Bool → Pipe → Pipe × Bool
unfolding wakeup_on
pipeclose writable p =
    let q : Pipe =
      if writable
      then wakeup_on readers (record p { writeopen = false })
      else wakeup_on writers (record p { readopen = false }) in
    (q, not q.readopen && not q.writeopen)

-- `struct file` as `pipealloc` sets it up (with `FD_PIPE`), beside the file's own index
pub record PipeEnd : Type 0 where
  pub file : ℕ
  pub readable : Bool
  pub writable : Bool
  pub pipe : ℕ

pub data PipeAlloc : Type 0 where
  opened : Pipe → PipeEnd → PipeEnd → PipeAlloc
  bad : (closed : List ℕ) → PipeAlloc

-- `file0`, `file1` and `page` are what `filealloc`, the second `filealloc` and `kalloc` return; a
-- later one is not called where an earlier one fails. The page's other contents are `junk`.
pub pipealloc : Option ℕ → Option ℕ → ℕ → (ℕ → ℕ) → PipeAlloc
pipealloc none file1 page junk = bad []
pipealloc (some f0) none page junk = bad (f0 ∷ [])
pipealloc (some f0) (some f1) page junk =
    if page == 0
    then bad (f0 ∷ f1 ∷ [])
    else opened
        (record {
          ring = junk;
          nread = 0;
          nwrite = 0;
          readopen = true;
          writeopen = true;
          woken = [];
        })
        (record { file = f0; readable = true; writable = false; pipe = page })
        (record { file = f1; readable = false; writable = true; pipe = page })
