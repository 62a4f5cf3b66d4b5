-- ===== src/Inodes.antt =====
-- kernel/fs.c: the table of inodes in memory. An inode is named by its index in `itable.inode`; there
-- is one device. `itable.lock` guards the table, and an inode's sleep lock its content: each function
-- is one step, and `iput` is three where it frees the inode.
pub mod Lookup
pub mod Distinct
pub mod Steps
mod Tests
use Prim.Native.String.{String}
use xv6_riscv_zig.Prelude.{
  ℕ, zero, suc, ◌+◌, ◌-◌, ◌%◌, Bool, true, false, ◌&&◌, ◌||◌, not, Option, none, some, List, [],
  ◌∷◌, ltb, ◌==◌, if◌then◌else◌, get_elem?, set, update, Run, ok, panic, ◌>>=◌, ◌>>◌, panic_if,
}
use xv6_riscv_zig.Locks.{Sleeplock, acquiresleep, releasesleep, holdingsleep}
use xv6_riscv_zig.Blocks.{Superblock, Dinode, no_dinode, Disk, mark_logged}
use xv6_riscv_zig.Content.{ipb, iblock, put_dinode, iupdate, itrunc}

-- `struct inode`, with the fields copied from the disk in `dinode`
pub record Inode : Type 0 where
  pub dev : ℕ
  pub inum : ℕ
  pub ref : ℕ
  pub lock : Sleeplock
  pub valid : Bool
  pub dinode : Dinode

abbrev pub is_inode : ℕ → ℕ → Inode → Bool
is_inode dev inum i = ltb 0 i.ref && i.dev == dev && i.inum == inum

abbrev pub after : Option ℕ → Option ℕ
after none = none
after (some k) = some (suc k)

-- The loop of `iget`: the entry that is in use for the inode, and otherwise the first empty one
pub find_inode : ℕ → ℕ → List Inode → Option ℕ × Option ℕ
find_inode dev inum [] = (none, none)
find_inode dev inum (i ∷ is) =
    let (hit, empty) = find_inode dev inum is in
    if is_inode dev inum i
    then (some 0, none)
    else (after hit, if i.ref == 0 then some 0 else after empty)

abbrev pub change : ℕ → (Inode → Inode) → List Inode → List Inode
change k f is = elim (get_elem? is k) [ none ↦ is | some i ↦ set is k (f i) ]

-- `ip->ref++`
pub idup : ℕ → List Inode → List Inode
idup k is = change k (λ i. record i { ref = i.ref + 1 }) is

-- What `iget` makes of the entry it recycles
pub recycled : ℕ → ℕ → Inode → Inode
recycled dev inum i = record i { dev = dev; inum = inum; ref = 1; valid = false }

pub iget : ℕ → ℕ → List Inode → Run (List Inode × ℕ)
unfolding find_inode recycled idup
iget dev inum is =
    let (hit, empty) = find_inode dev inum is in
    elim hit [
      | some k ↦ ok (idup k is, k)
      | none ↦ elim empty [
        | none ↦ panic "iget: no inodes"
        | some k ↦ ok (change k (recycled dev inum) is, k)
      ]
    ]

-- The loop of `ialloc` from `inum` on, with `k` to go; `none` is the null pointer.
pub ialloc_from :
    Superblock → ℕ → ℕ → ℕ → ℕ → List Inode → Disk → Run (List Inode × Disk × Option ℕ)
unfolding iget
ialloc_from sb dev type inum zero is d = ok (is, d, none)
ialloc_from sb dev type inum (suc k) is d =
    let bno = iblock inum sb in
    let taken = do
      (is', i) ← iget dev inum is
      ok (
        is',
        mark_logged bno (put_dinode bno (inum % ipb) (record no_dinode { type = type }) d),
        some i,
      )
    in let rest = ialloc_from sb dev type (inum + 1) k is d in
      if (d.dinodes bno (inum % ipb)).type == 0 then taken else rest

pub ialloc : Superblock → ℕ → ℕ → List Inode → Disk → Run (List Inode × Disk × Option ℕ)
unfolding ialloc_from
ialloc sb dev type is d = ialloc_from sb dev type 1 (sb.ninodes - 1) is d

-- The part of `ilock` behind `acquiresleep`: the inode is read from the disk, if it was not.
pub read_inode : Superblock → Disk → Inode → Run Inode
read_inode sb d i =
    let dip = d.dinodes (iblock i.inum sb) (i.inum % ipb) in
    let filled = record i { dinode = dip; valid = true } in
    if i.valid then ok i else (if dip.type == 0 then panic "ilock: no type" else ok filled)

-- `ilock` of process `me`: `none` where it sleeps, to try again when it wakes.
pub ilock : Superblock → Disk → ℕ → ℕ → List Inode → Run (Option (List Inode))
unfolding acquiresleep read_inode
ilock sb d me k is = elim (get_elem? is k) [
  | none ↦ panic "ilock"
  | some i ↦ do
    panic_if (ltb i.ref 1) "ilock"
    elim (acquiresleep me i.lock) [
      | none ↦ ok none
      | some lk ↦ do j ← read_inode sb d (record i { lock = lk }); ok (some (set is k j))
    ]
]

pub iunlock : ℕ → ℕ → List Inode → Run (List Inode)
unfolding holdingsleep releasesleep
iunlock me k is = elim (get_elem? is k) [
  | none ↦ panic "iunlock"
  | some i ↦ do
    panic_if (not (holdingsleep me i.lock) || ltb i.ref 1) "iunlock"
    ok (set is k (record i { lock = releasesleep i.lock }))
]

-- The part of `iput` that frees an inode without links on the disk, between `acquiresleep` and
-- `releasesleep`
pub free_inode : Superblock → Disk → Inode → Run (Inode × Disk)
free_inode sb d i = do
  (ip, d1) ← itrunc sb i.inum i.dinode d
  let ip' = record ip { type = 0 }
  ok (record i { dinode = ip'; valid = false }, iupdate sb i.inum ip' d1)

-- `iput` of process `me` up to the release of `itable.lock`: `true` where it has locked the inode to
-- free it, `false` where it has given its reference back. `none` where it would sleep.
pub iput_start : ℕ → ℕ → List Inode → Option (List Inode × Bool)
unfolding acquiresleep
iput_start me k is = elim (get_elem? is k) [
  | none ↦ some (is, false)
  | some i ↦
      let last : Option (List Inode × Bool) = elim (acquiresleep me i.lock) [
        | none ↦ none
        | some lk ↦ some (set is k (record i { lock = lk }), true)
      ] in
      if i.ref == 1 && i.valid && i.dinode.nlink == 0
      then last
      else some (set is k (record i { ref = i.ref - 1 }), false)
]

-- The part of `iput` without `itable.lock`
pub iput_free : Superblock → Disk → ℕ → List Inode → Run (List Inode × Disk)
unfolding free_inode releasesleep
iput_free sb d k is = elim (get_elem? is k) [
  | none ↦ ok (is, d)
  | some i ↦ do
    (j, d1) ← free_inode sb d i
    ok (set is k (record j { lock = releasesleep j.lock }), d1)
]

-- `iput` from where it takes `itable.lock` again
pub iput_end : ℕ → List Inode → List Inode
iput_end k is = change k (λ i. record i { ref = i.ref - 1 }) is

-- All of `iput`, where no other process comes in between
pub iput : Superblock → Disk → ℕ → ℕ → List Inode → Run (Option (List Inode × Disk))
unfolding iput_start iput_free iput_end
iput sb d me k is =
    let freed =
      λ (is1 : List Inode). (do (is2, d2) ← iput_free sb d k is1; ok (some (iput_end k is2, d2))) in
    elim (iput_start me k is) [
      | none ↦ ok none
      | some (is1, last) ↦ if last then freed is1 else ok (some (is1, d))
    ]

-- `none` where it would sleep.
pub iunlockput : Superblock → Disk → ℕ → ℕ → List Inode → Run (Option (List Inode × Disk))
unfolding iunlock iput
iunlockput sb d me k is = do is1 ← iunlock me k is; iput sb d me k is1
