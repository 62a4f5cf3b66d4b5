-- ===== src/Inodes/Steps.antt =====
-- The steps of the table of inodes keep its entries different.
use Prim.Native.String.{String}
use xv6_riscv_zig.Prelude.{
  Option-cases, not, ◌||◌, panic_if, ◌>>◌, ◌>>=◌, ℕ, ◌-◌, ◌%◌, ◌<◌, ◌≡◌, ◌≢◌, inl, inr, refl, sym,
  subst, Bool, true, false, ◌&&◌, ◌==◌, ltb, arith, Bool-cases, some, List, get_elem?, set, Run, ok,
  panic,
}
use xv6_riscv_zig.Blocks.{Superblock, Dinode, Disk}
use xv6_riscv_zig.Content.{iblock, ipb, itrunc, iupdate}
use xv6_riscv_zig.Locks.{Sleeplock, acquiresleep, releasesleep, holdingsleep}
use xv6_riscv_zig.Inodes.{
  read_inode, free_inode, Inode, idup, change, ilock, iunlock, iput_start, iput_free, iput_end,
}
use xv6_riscv_zig.Inodes.Distinct.{
  Distinct, Keeps, Keeps-Distinct, Step, Steps, iget-Distinct, idup-Keeps, gets, dups, locks,
  unlocks, puts, frees, ends_put, here, next,
}

-- What a run that does not panic tells of a test before it
after_panic_if :
    {A : Type 0} {m : Run A} {a : A} (b : Bool) (text : String)
    → (panic_if b text >> m) ≡ ok a
    → m ≡ ok a
after_panic_if true text e = cc e
after_panic_if false text e = e

iunlock-Keeps : (me k : ℕ) (is is' : List Inode) → iunlock me k is ≡ ok is' → Keeps is is'
unfolding iunlock
iunlock-Keeps me k is is' run = elim (Option-cases (get_elem? is k)) [
  | inl out ↦ cc (rw (out, iunlock) at run)
  | inr (i, e) ↦
      let now : set is k (record i { lock = releasesleep i.lock }) ≡ is' = cc (
        after_panic_if (not (holdingsleep me i.lock) || ltb i.ref 1) "iunlock"
          (rw (e, iunlock) at run)) in
      (k, i, record i { lock = releasesleep i.lock }, e, sym now, (λ h. h), refl, refl)
]

-- The fields that name an inode, and its references, stay.
record SameEntry (i j : Inode) : Type 0 where
  dev : j.dev ≡ i.dev
  inum : j.inum ≡ i.inum
  ref : j.ref ≡ i.ref

SameEntry-eq : {i a b : Inode} → a ≡ b → SameEntry i a → SameEntry i b
SameEntry-eq {i} e h = subst (SameEntry i) e h

read_inode-SameEntry :
    (sb : Superblock) (d : Disk) (i j : Inode) → read_inode sb d i ≡ ok j → SameEntry i j
unfolding read_inode
read_inode-SameEntry sb d i j run = elim (Bool-cases i.valid) [
  | inl valid ↦
      let same : i ≡ j = cc (rw (valid, read_inode) at run) in
      SameEntry-eq same (record { dev = refl; inum = refl; ref = refl })
  | inr stale ↦ elim (Bool-cases ((d.dinodes (iblock i.inum sb) (i.inum % ipb)).type == 0)) [
    | inl untyped ↦ cc (rw (stale, untyped, read_inode) at run)
    | inr typed ↦
        let same : (record i { dinode = d.dinodes (iblock i.inum sb) (i.inum % ipb); valid = true })
            ≡ j =
          cc (rw (stale, typed, read_inode) at run) in
        SameEntry-eq same (record { dev = refl; inum = refl; ref = refl })
  ]
]

free_inode-SameEntry :
    (sb : Superblock) (d d' : Disk) (i j : Inode) → free_inode sb d i ≡ ok (j, d') → SameEntry i j
unfolding free_inode
free_inode-SameEntry sb d d' i j run = go (itrunc sb i.inum i.dinode d) run
  where
    go :
        (r : Run (Dinode × Disk))
        → ◌>>=◌ {B = Inode × Disk} r (λ q. ok (
          record i { dinode = record q.0 { type = 0 }; valid = false },
          iupdate sb i.inum (record q.0 { type = 0 }) q.1,
        ))
          ≡ ok (j, d')
        → SameEntry i j
    go (panic m) e = cc e
    go (ok (ip, d1)) e =
        let same : (record i { dinode = record ip { type = 0 }; valid = false }) ≡ j = cc e in
        SameEntry-eq same (record { dev = refl; inum = refl; ref = refl })

ilock-Keeps :
    (sb : Superblock) (d : Disk) (me k : ℕ) (is is' : List Inode)
    → ilock sb d me k is ≡ ok (some is')
    → Keeps is is'
unfolding ilock
ilock-Keeps sb d me k is is' run = elim (Option-cases (get_elem? is k)) [
  | inl out ↦ cc (rw (out, ilock) at run)
  | inr (i, e) ↦ elim (Option-cases (acquiresleep me i.lock)) [
    | inl busy ↦ cc (after_panic_if (ltb i.ref 1) "ilock" (rw (e, busy, ilock) at run))
    | inr (lk, free) ↦
        locked i e lk (read_inode sb d (record i { lock = lk }))
          (read_inode-SameEntry sb d (record i { lock = lk }))
          (after_panic_if (ltb i.ref 1) "ilock" (rw (e, free, ilock) at run))
  ]
]
  where
    locked :
        (i : Inode)
        → get_elem? is k ≡ some i
        → (lk : Sleeplock) (r : Run Inode)
        → ((j : Inode) → r ≡ ok j → SameEntry (record i { lock = lk }) j)
        → (r >>= λ j. ok (some (set is k j))) ≡ ok (some is')
        → Keeps is is'
    locked i e lk (panic m) keeps ran = cc ran
    locked i e lk (ok j) keeps ran =
        let now : set is k j ≡ is' = cc ran in
        let s = keeps j refl in (k, i, j, e, sym now, (λ h. omega (arith, h, s.ref)), s.dev, s.inum)

iput_start-Keeps :
    (me k : ℕ) (last : Bool) (is is' : List Inode) (i : Inode)
    → get_elem? is k ≡ some i
    → iput_start me k is ≡ some (is', last)
    → Keeps is is'
unfolding iput_start
iput_start-Keeps me k last is is' i e run =
    elim (Bool-cases (i.ref == 1 && i.valid && i.dinode.nlink == 0)) [
      | inr plain ↦
          let now : set is k (record i { ref = i.ref - 1 }) ≡ is' =
            cc (rw (e, plain, iput_start) at run) in
          (k, i, record i { ref = i.ref - 1 }, e, sym now, (λ h. omega (arith, h)), refl, refl)
      | inl unlinked ↦ elim (Option-cases (acquiresleep me i.lock)) [
        | inl busy ↦ cc (rw (e, unlinked, busy, iput_start) at run)
        | inr (lk, free) ↦
            let now : set is k (record i { lock = lk }) ≡ is' =
              cc (rw (e, unlinked, free, iput_start) at run) in
            (k, i, record i { lock = lk }, e, sym now, (λ h. h), refl, refl)
      ]
    ]

iput_free-Keeps :
    (sb : Superblock) (d d' : Disk) (k : ℕ) (is is' : List Inode) (i : Inode)
    → get_elem? is k ≡ some i
    → iput_free sb d k is ≡ ok (is', d')
    → Keeps is is'
unfolding iput_free
iput_free-Keeps sb d d' k is is' i e run =
    released (free_inode sb d i) (λ j d1. free_inode-SameEntry sb d d1 i j)
      (rw (e, iput_free) at run)
  where
    released :
        (r : Run (Inode × Disk))
        → ((j : Inode) (d1 : Disk) → r ≡ ok (j, d1) → SameEntry i j)
        → ◌>>=◌ {B = List Inode × Disk} r
            (λ q. ok (set is k (record q.0 { lock = releasesleep q.0.lock }), q.1))
          ≡ ok (is', d')
        → Keeps is is'
    released (panic m) keeps ran = cc ran
    released (ok (j, d1)) keeps ran =
        let now : set is k (record j { lock = releasesleep j.lock }) ≡ is' = cc ran in
        let s = keeps j d1 refl in
        (
          k,
          i,
          record j { lock = releasesleep j.lock },
          e,
          sym now,
          (λ h. omega (arith, h, s.ref)),
          s.dev,
          s.inum,
        )

iput_end-Keeps :
    (k : ℕ) (is : List Inode) (i : Inode) → get_elem? is k ≡ some i → Keeps is (iput_end k is)
unfolding iput_end
iput_end-Keeps k is i e = (
  k,
  i,
  record i { ref = i.ref - 1 },
  e,
  rw (e, change) refl,
  (λ h. omega (arith, h)),
  refl,
  refl,
)

Step-Distinct :
    (sb : Superblock) (is is' : List Inode) → Step sb is is' → Distinct is → Distinct is'
Step-Distinct sb is is' (gets dev inum k run) d = iget-Distinct dev inum k is is' run d
Step-Distinct sb is is' (dups k i e used now) d =
    subst Distinct (sym now) (Keeps-Distinct is (idup k is) (idup-Keeps k i is e used) d)
Step-Distinct sb is is' (locks t me k run) d =
    Keeps-Distinct is is' (ilock-Keeps sb t me k is is' run) d
Step-Distinct sb is is' (unlocks me k run) d =
    Keeps-Distinct is is' (iunlock-Keeps me k is is' run) d
Step-Distinct sb is is' (puts me k i last e run) d =
    Keeps-Distinct is is' (iput_start-Keeps me k last is is' i e run) d
Step-Distinct sb is is' (frees t t' k i e run) d =
    Keeps-Distinct is is' (iput_free-Keeps sb t t' k is is' i e run) d
Step-Distinct sb is is' (ends_put k i e now) d =
    subst Distinct (sym now) (Keeps-Distinct is (iput_end k is) (iput_end-Keeps k is i e) d)

-- Behind any sequence of calls of `iget`, `idup`, `ilock` and `iunlock`, and of the three parts of
-- `iput`, which other calls may come between, that starts with a table whose entries are all free, no
-- two entries in use are for the same inode.
pub inodes_distinct :
    (sb : Superblock) (is is' : List Inode)
    → ((k : ℕ) (i : Inode) → get_elem? is k ≡ some i → i.ref ≡ 0)
    → Steps sb is is'
    → (j k : ℕ) (a b : Inode) → get_elem? is' j ≡ some a
    → get_elem? is' k ≡ some b
    → j ≢ k
    → 0 < a.ref
    → 0 < b.ref
    → ¬ ((a.dev ≡ b.dev) × (a.inum ≡ b.inum))
inodes_distinct sb is is' free steps j k a b ej ek ne ua ub (dev, inum) =
    ne (go is' steps j k a b ej ek ua ub dev inum)
  where
    go : (js : List Inode) → Steps sb is js → Distinct js
    go js here = λ j k a b ej ek ua ub dev inum. absurd (omega (arith, free j a ej, ua))
    go js (next {is'} r s) = Step-Distinct sb is' js s (go is' r)
