-- ===== src/Bio/Edits.antt =====
-- What the operations of the buffer cache do to the list: they replace one buffer, or move it.
use xv6_riscv_zig.Prelude.{
  ℕ, ◌≡◌, refl, ◌≢◌, true, false, Option, none, some, List, [], ◌∷◌, ◌==◌, arith, if◌then◌else◌,
  ==_iff, inc32, Bool-cases, Run, ok, panic, inl, inr,
}
use xv6_riscv_zig.Bio.{Buf, is_block, get_cached, recycled, recycle, bget, buf_at, set_buf}

-- One buffer of the list was replaced by another; `P` is about the two and the buffers behind.
pub data Edit (P : Buf → Buf → List Buf → Type 0) : List Buf → List Buf → Type 0 where
  here : {b c : Buf} {bs : List Buf} → P b c bs → Edit P (b ∷ bs) (c ∷ bs)
  there : {b : Buf} {bs cs : List Buf} → Edit P bs cs → Edit P (b ∷ bs) (b ∷ cs)

-- No buffer of the list caches the block.
abbrev pub Absent : ℕ → ℕ → List Buf → Type 0
Absent dev blockno [] = Unit
Absent dev blockno (b ∷ bs) = (is_block dev blockno b ≡ false) × Absent dev blockno bs

-- Every buffer of the list has references.
abbrev pub AllUsed : List Buf → Type 0
AllUsed [] = Unit
AllUsed (b ∷ bs) = (b.refcnt ≢ 0) × AllUsed bs

-- The buffer with index `i` caches the block and gets one more reference.
abbrev pub Cached : ℕ → ℕ → ℕ → Buf → Buf → List Buf → Type 0
Cached dev blockno i b c behind =
    (is_block dev blockno b ≡ true) × (b.id ≡ i) × (c ≡ record b { refcnt = inc32 b.refcnt })

-- The buffer with index `i` had no reference, all behind it have some. It has one now, is for the
-- block, and its data are not valid.
abbrev pub Recycled : ℕ → ℕ → ℕ → Buf → Buf → List Buf → Type 0
Recycled dev blockno i b c behind =
    (b.refcnt ≡ 0)
    × AllUsed behind
    × (b.id ≡ i)
    × (c ≡ record b { dev = dev; blockno = blockno; valid = false; refcnt = 1 })

-- What a loop of `bget` returns: nothing, where `N` holds, or an edited list.
data Search (N : Type 0) (P : ℕ → Buf → Buf → List Buf → Type 0) (bs : List Buf)
    : Option (ℕ × List Buf) → Type 0 where
  missing : N → Search N P bs none
  found : (i : ℕ) (cs : List Buf) → Edit (P i) bs cs → Search N P bs (some (i, cs))

get_cached-Search :
    (dev blockno : ℕ) (bs : List Buf)
    → Search (Absent dev blockno bs) (Cached dev blockno) bs (get_cached dev blockno bs)
unfolding get_cached
get_cached-Search dev blockno [] = missing tt
get_cached-Search dev blockno (b ∷ bs) = elim (Bool-cases (is_block dev blockno b)) [
  | inl hit ↦
      rw hit (found b.id (record b { refcnt = inc32 b.refcnt } ∷ bs) (here (hit, refl, refl)))
  | inr miss ↦
      rw miss
        (behind (λ a. (refl, a)) (get_cached dev blockno bs) (get_cached-Search dev blockno bs))
]
  where
    behind :
        {N : Type 0}
        → (Absent dev blockno bs → N)
        → (r : Option (ℕ × List Buf)) → Search (Absent dev blockno bs) (Cached dev blockno) bs r
        → Search N
            (Cached dev blockno)
            (b ∷ bs)
            (elim r [ none ↦ none | some (i, cs) ↦ some (i, b ∷ cs) ])
    behind k none (missing a) = missing (k a)
    behind k (some (i, cs)) (found _ _ edit) = found i (b ∷ cs) (there edit)

recycle-Search :
    (dev blockno : ℕ) (bs : List Buf)
    → Search (AllUsed bs) (Recycled dev blockno) bs (recycle dev blockno bs)
unfolding recycle
recycle-Search dev blockno [] = missing tt
recycle-Search dev blockno (b ∷ bs) = front (recycle dev blockno bs) (recycle-Search dev blockno bs)
  where
    front :
        (r : Option (ℕ × List Buf))
        → Search (AllUsed bs) (Recycled dev blockno) bs r
        → Search (AllUsed (b ∷ bs)) (Recycled dev blockno) (b ∷ bs) (elim r [
          | some (i, cs) ↦ some (i, b ∷ cs)
          | none ↦ if b.refcnt == 0 then some (b.id, recycled dev blockno b ∷ bs) else none
        ])
    front (some (i, cs)) (found _ _ edit) = found i (b ∷ cs) (there edit)
    front none (missing all) = elim (Bool-cases (b.refcnt == 0)) [
      | inl free ↦ rw free (
          found b.id (recycled dev blockno b ∷ bs)
            (here ((==_iff b.refcnt 0).0 free, all, refl, refl)))
      | inr used ↦ rw used (missing (λ e. ground arith, all))
    ]

-- What `bget` does on each branch.
pub data Got (dev blockno : ℕ) (bs : List Buf) : Run (ℕ × List Buf) → Type 0 where
  cached :
      (i : ℕ) (cs : List Buf) → Edit (Cached dev blockno i) bs cs → Got dev blockno bs (ok (i, cs))
  replaced :
      (i : ℕ) (cs : List Buf)
      → Absent dev blockno bs
      → Edit (Recycled dev blockno i) bs cs
      → Got dev blockno bs (ok (i, cs))
  exhausted : Absent dev blockno bs → AllUsed bs → Got dev blockno bs (panic "bget: no buffers")

-- `bget` gives the cached buffer of the block one more reference; where no buffer caches the block,
-- it takes the least recently used one that has no reference: this is for the block now, has one
-- reference, and its data are not valid; and where all have references, it panics.
pub bget_lem : (dev blockno : ℕ) (bs : List Buf) → Got dev blockno bs (bget dev blockno bs)
unfolding bget
bget_lem dev blockno bs =
    first (get_cached dev blockno bs) (get_cached-Search dev blockno bs) (recycle dev blockno bs)
      (recycle-Search dev blockno bs)
  where
    first :
        (r : Option (ℕ × List Buf))
        → Search (Absent dev blockno bs) (Cached dev blockno) bs r
        → (q : Option (ℕ × List Buf)) → Search (AllUsed bs) (Recycled dev blockno) bs q
        → Got dev blockno bs (elim r [
          | some x ↦ ok x
          | none ↦ elim q [ some x ↦ ok x | none ↦ panic "bget: no buffers" ]
        ])
    first (some (i, cs)) (found _ _ edit) q s = cached i cs edit
    first none (missing a) (some (i, cs)) (found _ _ edit) = replaced i cs a edit
    first none (missing a) none (missing all) = exhausted a all

abbrev pub Replaced : Buf → Buf → Buf → Buf → List Buf → Type 0
Replaced b0 c0 b c behind = (b ≡ b0) × (c ≡ c0)

pub set_buf-Edit :
    (i : ℕ) (b c : Buf) (bs : List Buf)
    → buf_at bs i ≡ some b
    → Edit (Replaced b c) bs (set_buf i c bs)
set_buf-Edit i b c [] e = cc e
set_buf-Edit i b c (d ∷ bs) e = elim (Bool-cases (d.id == i)) [
  | inl hit ↦ rw hit (here (cc (rw hit at e), refl))
  | inr miss ↦ rw miss (there (set_buf-Edit i b c bs (rw miss at e)))
]
