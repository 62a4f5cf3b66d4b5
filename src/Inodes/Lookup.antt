-- ===== src/Inodes/Lookup.antt =====
-- `iget` finds the entry of an inode, or makes one.
use xv6_riscv_zig.Prelude.{
  ℕ, zero, suc, ◌+◌, ◌<◌, ◌≡◌, ◌⊎◌, inl, inr, refl, ap, ◌∙◌, sym, true, false, ◌==◌, ==_iff,
  if◌then◌else◌, arith, Bool-cases, Option, some, none, List, [], ◌∷◌, get_elem?, set, Run, ok,
  panic,
}
use xv6_riscv_zig.Inodes.{Inode, is_inode, after, find_inode, change, idup, recycled, iget}

-- The entry that the inode has
abbrev pub IsHit : ℕ → ℕ → List Inode → ℕ → Type 0
IsHit dev inum is k = (i : Inode) × (get_elem? is k ≡ some i) × (is_inode dev inum i ≡ true)

-- No entry in use is the inode's.
abbrev pub NoHit : ℕ → ℕ → List Inode → Type 0
NoHit dev inum is = (k : ℕ) (i : Inode) → get_elem? is k ≡ some i → is_inode dev inum i ≡ false

-- What the loop of `iget` finds
abbrev pub Finds : ℕ → ℕ → List Inode → Option ℕ × Option ℕ → Type 0
Finds dev inum is (some k, empty) = IsHit dev inum is k
Finds dev inum is (none, some k) =
    NoHit dev inum is × (i : Inode) × (get_elem? is k ≡ some i) × (i.ref ≡ 0)
Finds dev inum is (none, none) =
    NoHit dev inum is × ((k : ℕ) (i : Inode) → get_elem? is k ≡ some i → 0 < i.ref)

NoHit-cons :
    (dev inum : ℕ) (i : Inode) (is : List Inode)
    → is_inode dev inum i ≡ false
    → NoHit dev inum is
    → NoHit dev inum (i ∷ is)
NoHit-cons dev inum i is here rest zero j e =
    let same : i ≡ j = cc e in ap (is_inode dev inum) (sym same) ∙ here
NoHit-cons dev inum i is here rest (suc k) j e = rest k j e

Finds-cons :
    (dev inum : ℕ) (i : Inode) (is : List Inode) (hit empty : Option ℕ)
    → is_inode dev inum i ≡ false
    → Finds dev inum is (hit, empty)
    → Finds dev inum (i ∷ is) (after hit, if i.ref == 0 then some 0 else after empty)
Finds-cons dev inum i is (some k) empty here (j, e, hits) = (j, e, hits)
Finds-cons dev inum i is none (some k) here (miss, j, e, free) = elim (Bool-cases (i.ref == 0)) [
  | inl zero_ref ↦
      rw zero_ref (NoHit-cons dev inum i is here miss, i, refl, (==_iff i.ref 0).0 zero_ref)
  | inr used ↦ rw used (NoHit-cons dev inum i is here miss, j, e, free)
]
Finds-cons dev inum i is none none here (miss, full) = elim (Bool-cases (i.ref == 0)) [
  | inl zero_ref ↦
      rw zero_ref (NoHit-cons dev inum i is here miss, i, refl, (==_iff i.ref 0).0 zero_ref)
  | inr used ↦ rw used (NoHit-cons dev inum i is here miss, in_use used)
]
  where
    in_use : (i.ref == 0) ≡ false → (k : ℕ) (j : Inode) → get_elem? (i ∷ is) k ≡ some j → 0 < j.ref
    in_use used zero j e = let same : i ≡ j = cc e in ground (arith, ap (λ (a : Inode). a.ref) same)
    in_use used (suc k) j e = full k j e

find_inode-Finds : (dev inum : ℕ) (is : List Inode) → Finds dev inum is (find_inode dev inum is)
unfolding find_inode
find_inode-Finds dev inum [] = (λ k i e. cc e, λ k i e. cc e)
find_inode-Finds dev inum (i ∷ is) = elim (Bool-cases (is_inode dev inum i)) [
  | inl hit ↦ rw hit (i, refl, hit)
  | inr miss ↦ rw miss (
      Finds-cons dev inum i is (find_inode dev inum is).0 (find_inode dev inum is).1 miss
        (find_inode-Finds dev inum is))
]

-- How `iget` ends: the inode's entry has one more reference; or the inode had none, and the first
-- free entry is its own now, with one reference and not yet read; or it had none, and all are in use.
abbrev pub Gets : ℕ → ℕ → List Inode → Run (List Inode × ℕ) → Type 0
Gets dev inum is (ok (is', k)) =
    (i : Inode) × (get_elem? is k ≡ some i)
    × (((is_inode dev inum i ≡ true) × (is' ≡ set is k (record i { ref = i.ref + 1 })))
        ⊎ (NoHit dev inum is
            × (i.ref ≡ 0)
            × (is' ≡ set is k (record i { dev = dev; inum = inum; ref = 1; valid = false }))))
Gets dev inum is (panic m) =
    NoHit dev inum is × ((k : ℕ) (i : Inode) → get_elem? is k ≡ some i → 0 < i.ref)

Gets-found :
    (dev inum : ℕ) (is : List Inode) (found : Option ℕ × Option ℕ)
    → Finds dev inum is found
    → Gets dev inum is (elim found.0 as (λ x. Run (List Inode × ℕ)) [
      | some k ↦ ok (idup k is, k)
      | none ↦ elim found.1 as (λ x. Run (List Inode × ℕ)) [
        | none ↦ panic "iget: no inodes"
        | some k ↦ ok (change k (recycled dev inum) is, k)
      ]
    ])
unfolding idup recycled
Gets-found dev inum is (some k, empty) (i, e, hit) = (i, e, inl (hit, rw (e, change) refl))
Gets-found dev inum is (none, some k) (miss, i, e, free) =
    (i, e, inr (miss, free, rw (e, change) refl))
Gets-found dev inum is (none, none) (miss, full) = (miss, full)

pub iget_lem : (dev inum : ℕ) (is : List Inode) → Gets dev inum is (iget dev inum is)
unfolding iget
iget_lem dev inum is =
    Gets-found dev inum is (find_inode dev inum is) (find_inode-Finds dev inum is)
