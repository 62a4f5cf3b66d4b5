-- ===== src/Bio.antt =====
-- kernel/bio.c: the buffer cache. The doubly linked list through `prev` and `next` is a list here,
-- from `head.next` (the most recently used) to `head.prev`; a buffer is named by its index in
-- `bcache.buf`. A function is one step where it holds `bcache.lock`.
pub mod Edits
pub mod Keys
pub mod Steps
pub mod View
pub mod Reading
mod Tests
use Prim.Native.String.{String}
use xv6_riscv_zig.Prelude.{
  ℕ, zero, suc, ◌+◌, Bool, true, false, ◌&&◌, not, Option, none, some, List, [], ◌∷◌, ◌==◌,
  if◌then◌else◌, update, Run, ok, panic, ◌>>=◌, ◌>>◌, panic_if, inc32, dec32,
}
use xv6_riscv_zig.Locks.{Sleeplock, initsleeplock, acquiresleep, releasesleep, holdingsleep}

-- kernel/param.h
abbrev pub nbuf : ℕ
nbuf = 30

-- The data of a block, as 32-bit words
abbrev pub Block : Type 0
Block = ℕ → ℕ

-- `struct buf`, with its index
pub record Buf : Type 0 where
  pub id : ℕ
  pub valid : Bool
  pub dev : ℕ
  pub blockno : ℕ
  pub lock : Sleeplock
  pub refcnt : ℕ
  pub content : Block

-- `bcache`, with the disks (`disk dev blockno`)
pub record Cache : Type 0 where
  pub bufs : List Buf
  pub disk : ℕ → ℕ → Block

-- The loop of `binit`, which puts each buffer in front of those before it. The buffers are static,
-- so zeroed.
pub init_bufs : ℕ → List Buf
unfolding initsleeplock
init_bufs zero = []
init_bufs (suc n) =
    record {
      id = n;
      valid = false;
      dev = 0;
      blockno = 0;
      lock = initsleeplock;
      refcnt = 0;
      content = λ i. 0;
    }
    ∷ init_bufs n

pub binit : List Buf
unfolding init_bufs
binit = init_bufs nbuf

-- `b->dev == dev && b->blockno == blockno`
abbrev pub is_block : ℕ → ℕ → Buf → Bool
is_block dev blockno b = b.dev == dev && b.blockno == blockno

-- The first loop of `bget`, from `head.next`: the buffer that caches the block has one more
-- reference.
pub get_cached : ℕ → ℕ → List Buf → Option (ℕ × List Buf)
get_cached dev blockno [] = none
get_cached dev blockno (b ∷ bs) =
    let rest = get_cached dev blockno bs in
    if is_block dev blockno b
    then some (b.id, record b { refcnt = inc32 b.refcnt } ∷ bs)
    else elim rest [ none ↦ none | some (i, cs) ↦ some (i, b ∷ cs) ]

-- What `bget` makes of the buffer it recycles
pub recycled : ℕ → ℕ → Buf → Buf
recycled dev blockno b = record b { dev = dev; blockno = blockno; valid = false; refcnt = 1 }

-- The second loop of `bget`, from `head.prev`: the last buffer of the list with no reference
pub recycle : ℕ → ℕ → List Buf → Option (ℕ × List Buf)
unfolding recycled
recycle dev blockno [] = none
recycle dev blockno (b ∷ bs) = elim (recycle dev blockno bs) [
  | some (i, cs) ↦ some (i, b ∷ cs)
  | none ↦ if b.refcnt == 0 then some (b.id, recycled dev blockno b ∷ bs) else none
]

-- `bget` up to `acquiresleep`
pub bget : ℕ → ℕ → List Buf → Run (ℕ × List Buf)
unfolding get_cached recycle
bget dev blockno bs = elim (get_cached dev blockno bs) [
  | some found ↦ ok found
  | none ↦ elim (recycle dev blockno bs) [ some found ↦ ok found | none ↦ panic "bget: no buffers" ]
]

-- Pointers to buffers: the one with index `i` is looked up, or replaced.
abbrev pub buf_at : List Buf → ℕ → Option Buf
buf_at [] i = none
buf_at (b ∷ bs) i = if b.id == i then some b else buf_at bs i

abbrev pub set_buf : ℕ → Buf → List Buf → List Buf
set_buf i c [] = []
set_buf i c (b ∷ bs) = if b.id == i then c ∷ bs else b ∷ set_buf i c bs

-- `bread` once it holds the buffer's lock
pub fill : Cache → Buf → Buf
fill s b = if not b.valid then record b { content = s.disk b.dev b.blockno; valid = true } else b

-- `bread` after `bget`: `none` where it sleeps, to try again when it wakes.
pub bread_locked : ℕ → ℕ → Cache → Option Cache
unfolding fill acquiresleep
bread_locked me i s = elim (buf_at s.bufs i) [
  | none ↦ none
  | some b ↦ elim (acquiresleep me b.lock) [
    | none ↦ none
    | some lk ↦ some (record s { bufs = set_buf i (fill s (record b { lock = lk })) s.bufs })
  ]
]

-- `bwrite` of the buffer `b` by process `me`
pub bwrite : ℕ → Buf → Cache → Run Cache
unfolding holdingsleep
bwrite me b s = do
  panic_if (not (holdingsleep me b.lock)) "bwrite"
  ok (record s {
    disk = λ dev. if dev == b.dev then update (s.disk dev) b.blockno b.content else s.disk dev;
  })

-- The list without the buffer with index `i`
pub unlink : ℕ → List Buf → List Buf
unlink i [] = []
unlink i (b ∷ bs) = if b.id == i then bs else b ∷ unlink i bs

-- The locked part of `brelse`, on the buffer `b`: one reference less, and to the front at the last.
pub put_back : Buf → List Buf → List Buf
unfolding unlink
put_back b bs =
    let c : Buf = record b { refcnt = dec32 b.refcnt } in
    if c.refcnt == 0 then c ∷ unlink b.id bs else set_buf b.id c bs

pub brelse : ℕ → Buf → List Buf → Run (List Buf)
unfolding holdingsleep releasesleep put_back
brelse me b bs = do
  panic_if (not (holdingsleep me b.lock)) "brelse"
  ok (put_back (record b { lock = releasesleep b.lock }) bs)

pub bpin : Buf → List Buf → List Buf
bpin b bs = set_buf b.id (record b { refcnt = inc32 b.refcnt }) bs

pub bunpin : Buf → List Buf → List Buf
bunpin b bs = set_buf b.id (record b { refcnt = dec32 b.refcnt }) bs
