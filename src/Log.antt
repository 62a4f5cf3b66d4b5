-- ===== src/Log.antt =====
-- kernel/log.c: transactions, commit and crash recovery, over the buffers and the disk of one
-- device.
--
-- `cached b` is what `bread` finds in block `b`: the cached contents, or what is on the disk.
-- The machine may stop at any time: `power` counts the disk writes that still take effect, and
-- every later one is lost. (`power - 1` stays at 0.) What runs on in memory after that has no effect on the disk.
pub mod Writes
pub mod Header
pub mod Effect
pub mod Commit
pub mod Recover
pub mod Crash
pub mod Atomic
pub mod Again
pub mod Busy
pub mod Space
pub mod Calls
pub mod Absorb
mod Tests
use Prim.Native.String.{String}
use xv6_riscv_zig.Prelude.{
  ℕ, zero, suc, ◌+◌, ◌-◌, ◌*◌, ◌^◌, Bool, true, false, ◌&&◌, ◌||◌, not, Option, none, some, ltb,
  leb, ◌==◌, if◌then◌else◌, update, Run, ok, panic, ◌>>=◌, ◌>>◌, panic_if, inc32, dec32,
}

-- The data of a block, as 32-bit words.
abbrev pub Block : Type 0
Block = ℕ → ℕ

-- kernel/param.h
abbrev pub maxopblocks : ℕ
maxopblocks = 10

abbrev pub logsize : ℕ
logsize = 30

-- `struct log`, with `lh.n` and `lh.block`, beside the disk and the buffers. `refs b` is the
-- `refcnt` of block `b`'s buffer. The entries of `block` from `logsize` on do not exist.
pub record Log : Type 0 where
  pub disk : ℕ → Block
  pub cached : ℕ → Block
  pub refs : ℕ → ℕ
  pub power : ℕ
  pub start : ℕ
  pub size : ℕ
  pub outstanding : ℕ
  pub committing : Bool
  pub n : ℕ
  pub block : ℕ → ℕ

-- What the log uses of kernel/bio.c: a reference is taken and given back, the contents are
-- replaced, and the contents are written to the disk.
pub bread : ℕ → Log → Log
bread b s = record s { refs = update s.refs b (inc32 (s.refs b)) }

pub brelse : ℕ → Log → Log
brelse b s = record s { refs = update s.refs b (dec32 (s.refs b)) }

pub bpin : ℕ → Log → Log
bpin b s = record s { refs = update s.refs b (inc32 (s.refs b)) }

pub bunpin : ℕ → Log → Log
bunpin b s = record s { refs = update s.refs b (dec32 (s.refs b)) }

pub store : ℕ → Block → Log → Log
store b v s = record s { cached = update s.cached b v }

pub bwrite : ℕ → Log → Log
bwrite b s = record s {
  disk = if s.power == 0 then s.disk else update s.disk b (s.cached b);
  power = s.power - 1;
}

-- One round of `install_trans`: log block `tail` goes to its home.
pub install_one : Bool → ℕ → Log → Log
unfolding bread store bwrite bunpin brelse
install_one recovering tail s =
    let from : ℕ = s.start + tail + 1 in
    let to : ℕ = s.block tail in
    let s1 = bread to (bread from s) in
    let s2 = bwrite to (store to (s1.cached from) s1) in
    let s3 : Log = if recovering then s2 else bunpin to s2 in brelse to (brelse from s3)

-- `k` rounds from `tail` on
pub install_loop : Bool → ℕ → ℕ → Log → Log
install_loop recovering zero tail s = s
install_loop recovering (suc k) tail s =
    install_loop recovering k (tail + 1) (install_one recovering tail s)

pub install_trans : Bool → Log → Log
unfolding install_loop
install_trans recovering s = install_loop recovering s.n 0 s

-- The copy loop of `read_head`: `h` is the header block, whose word 0 is `n` and whose word
-- `i + 1` is `block[i]`.
pub read_blocks : Block → ℕ → ℕ → (ℕ → ℕ) → ℕ → ℕ
read_blocks h zero i block = block
read_blocks h (suc k) i block = read_blocks h k (i + 1) (update block i (h (i + 1)))

-- `n` is an `int`; a header that `write_head` wrote holds 0 to `logsize` there.
pub read_head : Log → Log
unfolding bread brelse read_blocks
read_head s =
    let h : Block = s.cached s.start in
    let s1 = bread s.start s in
    brelse s.start (record s1 { n = h 0; block = read_blocks h (h 0) 0 s1.block })

-- The copy loop of `write_head`
pub write_blocks : (ℕ → ℕ) → ℕ → ℕ → Block → Block
write_blocks block zero i h = h
write_blocks block (suc k) i h = write_blocks block k (i + 1) (update h (i + 1) (block i))

pub write_head : Log → Log
unfolding bread store bwrite brelse write_blocks
write_head s =
    let s1 = bread s.start s in
    let h = write_blocks s1.block s1.n 0 (update (s1.cached s.start) 0 s1.n) in
    brelse s.start (bwrite s.start (store s.start h s1))

pub recover_from_log : Log → Log
unfolding read_head install_trans write_head
recover_from_log s = let s1 = install_trans true (read_head s) in write_head (record s1 { n = 0 })

-- `initlog`, with the `logstart` and `nlog` of the super block. (`sizeof(struct logheader)` is
-- 124 and `BSIZE` 1024, so it does not panic.)
pub initlog : ℕ → ℕ → Log → Log
unfolding recover_from_log
initlog logstart nlog s = recover_from_log (record s { start = logstart; size = nlog })

-- One round of `write_log`: the cached block goes to its place in the log.
pub write_log_one : ℕ → Log → Log
unfolding bread store bwrite brelse
write_log_one tail s =
    let to : ℕ = s.start + tail + 1 in
    let from : ℕ = s.block tail in
    let s1 = bread from (bread to s) in
    brelse to (brelse from (bwrite to (store to (s1.cached from) s1)))

pub write_log_loop : ℕ → ℕ → Log → Log
write_log_loop zero tail s = s
write_log_loop (suc k) tail s = write_log_loop k (tail + 1) (write_log_one tail s)

pub write_log : Log → Log
unfolding write_log_loop
write_log s = write_log_loop s.n 0 s

pub commit : Log → Log
commit s =
    if ltb 0 s.n
    then (let s1 = install_trans false (write_head (write_log s)) in
        write_head (record s1 { n = 0 }))
    else s

-- `begin_op` once it holds the lock: `none` where it goes to sleep, to try again when it wakes.
pub begin_op : Log → Option Log
begin_op s =
    if s.committing
    then none
    else (if ltb logsize (s.n + (s.outstanding + 1) * maxopblocks)
        then none
        else some (record s { outstanding = s.outstanding + 1 }))

-- The first locked part of `end_op`: the new state, and `do_commit`. (The caller runs inside a
-- transaction. Waking the processes in `begin_op` is theirs to notice.)
pub end_op_start : Log → Run (Log × Bool)
end_op_start s =
    let s1 : Log = record s { outstanding = dec32 s.outstanding } in
    if s1.committing
    then panic "log.committing"
    else (if s1.outstanding == 0
        then ok (record s1 { committing = true }, true)
        else ok (s1, false))

-- The rest of `end_op`, after the commit
pub end_op_finish : Log → Log
end_op_finish s = record s { committing = false }

pub end_op : Log → Run Log
unfolding end_op_start end_op_finish
end_op s = do
  (s1, do_commit) ← end_op_start s
  ok (if do_commit then end_op_finish (commit s1) else s1)

-- The loop of `log_write`: the index of `b` in `block[i..i+k)`, or `i + k`
pub find_block : (ℕ → ℕ) → ℕ → ℕ → ℕ → ℕ
find_block block b zero i = i
find_block block b (suc k) i =
    let rest = find_block block b k (i + 1) in if block i == b then i else rest

-- What `log_write` does after its checks
pub record_block : ℕ → Log → Log
unfolding bpin
record_block b s =
    let i = find_block s.block b s.n 0 in
    let s1 : Log = record s { block = update s.block i b } in
    if i == s.n then (let s2 = bpin b s1 in record s2 { n = s2.n + 1 }) else s1

-- `log_write` on the buffer of block `b`. (`size` is at least 1, `outstanding` never negative.)
pub log_write : ℕ → Log → Run Log
log_write b s = do
  panic_if (leb logsize s.n || leb (s.size - 1) s.n) "too big a transaction"
  panic_if (ltb s.outstanding 1) "log_write outside of trans"
  ok (record_block b s)
