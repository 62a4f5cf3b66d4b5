-- ===== src/Inodes/Distinct.antt =====
-- Tables in which no two entries in use are for the same inode, and the steps of a table.
use xv6_riscv_zig.Prelude.{
  ℕ, ◌+◌, ◌<◌, ◌≡◌, inl, inr, refl, ap, ◌∙◌, sym, subst, Bool, true, false, arith, some, List,
  get_elem?, set, Run, ok, panic, get_elem?-set_cases,
}
use xv6_riscv_zig.Blocks.{Superblock, Disk}
use xv6_riscv_zig.Inodes.{
  change, Inode, is_inode, idup, iget, ilock, iunlock, iput_start, iput_free, iput_end,
}
use xv6_riscv_zig.Inodes.Lookup.{Gets, NoHit, iget_lem}

-- Entries in use are for different inodes.
abbrev pub Distinct : List Inode → Type 0
Distinct is =
    (j k : ℕ) (a b : Inode)
    → get_elem? is j ≡ some a
    → get_elem? is k ≡ some b
    → 0 < a.ref
    → 0 < b.ref
    → a.dev ≡ b.dev
    → a.inum ≡ b.inum
    → j ≡ k

-- An entry is replaced by one for the same inode, which is in use only if it was.
Distinct-set :
    (is : List Inode) (k : ℕ) (i i' : Inode)
    → get_elem? is k ≡ some i
    → (0 < i'.ref → 0 < i.ref)
    → i'.dev ≡ i.dev
    → i'.inum ≡ i.inum
    → Distinct is
    → Distinct (set is k i')
Distinct-set is k i i' e used dev inum d j m a b ej em ua ub same_dev same_inum =
    elim (get_elem?-set_cases is k j i' a ej) [
      | inl (jk, ai) ↦ elim (get_elem?-set_cases is k m i' b em) [
        | inl (mk, bi) ↦ jk ∙ sym mk
        | inr (mk, old) ↦
            jk
            ∙ d k m i b e old (used (subst (λ x. 0 < x.ref) ai ua)) ub
                (sym dev ∙ ap (λ (x : Inode). x.dev) (sym ai) ∙ same_dev)
                (sym inum ∙ ap (λ (x : Inode). x.inum) (sym ai) ∙ same_inum)
      ]
      | inr (jk, old) ↦ elim (get_elem?-set_cases is k m i' b em) [
        | inl (mk, bi) ↦
            d j k a i old e ua (used (subst (λ x. 0 < x.ref) bi ub))
              (same_dev ∙ ap (λ (x : Inode). x.dev) bi ∙ dev)
              (same_inum ∙ ap (λ (x : Inode). x.inum) bi ∙ inum)
            ∙ sym mk
        | inr (mk, old') ↦ d j m a b old old' ua ub same_dev same_inum
      ]
    ]

-- A free entry is given to an inode that has none.
Distinct-new :
    (dev inum : ℕ) (is : List Inode) (k : ℕ) (i' : Inode)
    → NoHit dev inum is
    → i'.dev ≡ dev
    → i'.inum ≡ inum
    → Distinct is
    → Distinct (set is k i')
Distinct-new dev inum is k i' miss edev einum d j m a b ej em ua ub same_dev same_inum =
    elim (get_elem?-set_cases is k j i' a ej) [
      | inl (jk, ai) ↦ elim (get_elem?-set_cases is k m i' b em) [
        | inl (mk, bi) ↦ jk ∙ sym mk
        | inr (mk, old) ↦ absurd (
            clash m b old ub (sym same_dev ∙ ap (λ (x : Inode). x.dev) ai ∙ edev)
              (sym same_inum ∙ ap (λ (x : Inode). x.inum) ai ∙ einum))
      ]
      | inr (jk, old) ↦ elim (get_elem?-set_cases is k m i' b em) [
        | inl (mk, bi) ↦ absurd (
            clash j a old ua (same_dev ∙ ap (λ (x : Inode). x.dev) bi ∙ edev)
              (same_inum ∙ ap (λ (x : Inode). x.inum) bi ∙ einum))
        | inr (mk, old') ↦ d j m a b old old' ua ub same_dev same_inum
      ]
    ]
  where
    clash :
        (n : ℕ) (c : Inode) → get_elem? is n ≡ some c → 0 < c.ref → c.dev ≡ dev → c.inum ≡ inum → ⊥
    clash n c e used p q =
        let hit : is_inode dev inum c ≡ true = ground arith in cc (miss n c e, hit)

-- A table that differs from `is` in one entry, for the same inode
abbrev pub Keeps : List Inode → List Inode → Type 0
Keeps is is' =
    (k : ℕ) × (i : Inode) × (i' : Inode) × (get_elem? is k ≡ some i)
    × (is' ≡ set is k i')
    × (0 < i'.ref → 0 < i.ref)
    × (i'.dev ≡ i.dev)
    × (i'.inum ≡ i.inum)

pub Keeps-Distinct : (is is' : List Inode) → Keeps is is' → Distinct is → Distinct is'
Keeps-Distinct is is' (k, i, i', e, at, used, dev, inum) d =
    subst Distinct (sym at) (Distinct-set is k i i' e used dev inum d)

-- One step on the table: a call, or one of the three parts of `iput`. Who calls `idup` has a
-- reference.
pub data Step (sb : Superblock) (is is' : List Inode) : Type 0 where
  gets : (dev inum k : ℕ) → iget dev inum is ≡ ok (is', k) → Step sb is is'
  dups :
      (k : ℕ) (i : Inode) → get_elem? is k ≡ some i → 0 < i.ref → is' ≡ idup k is → Step sb is is'
  locks : (d : Disk) (me k : ℕ) → ilock sb d me k is ≡ ok (some is') → Step sb is is'
  unlocks : (me k : ℕ) → iunlock me k is ≡ ok is' → Step sb is is'
  puts :
      (me k : ℕ) (i : Inode) (last : Bool)
      → get_elem? is k ≡ some i
      → iput_start me k is ≡ some (is', last)
      → Step sb is is'
  frees :
      (d d' : Disk) (k : ℕ) (i : Inode)
      → get_elem? is k ≡ some i
      → iput_free sb d k is ≡ ok (is', d')
      → Step sb is is'
  ends_put : (k : ℕ) (i : Inode) → get_elem? is k ≡ some i → is' ≡ iput_end k is → Step sb is is'

pub data Steps (sb : Superblock) (is : List Inode) : List Inode → Type 0 where
  here : Steps sb is is
  next : {is' is'' : List Inode} → Steps sb is is' → Step sb is' is'' → Steps sb is is''

pub iget-Distinct :
    (dev inum k : ℕ) (is is' : List Inode)
    → iget dev inum is ≡ ok (is', k)
    → Distinct is
    → Distinct is'
iget-Distinct dev inum k is is' run d = go (iget dev inum is) (iget_lem dev inum is) run
  where
    go : (r : Run (List Inode × ℕ)) → Gets dev inum is r → r ≡ ok (is', k) → Distinct is'
    go (panic m) g e = cc e
    go (ok (js, j)) (i, at, inl (hit, now)) e =
        let same : js ≡ is' = cc e in
        subst Distinct (sym now ∙ same)
          (Distinct-set is j i (record i { ref = i.ref + 1 }) at (λ h. ground arith) refl refl d)
    go (ok (js, j)) (i, at, inr (miss, free, now)) e =
        let same : js ≡ is' = cc e in
        subst Distinct (sym now ∙ same) (
          Distinct-new dev inum is j (record i { dev = dev; inum = inum; ref = 1; valid = false })
            miss refl refl d)

pub idup-Keeps :
    (k : ℕ) (i : Inode) (is : List Inode)
    → get_elem? is k ≡ some i
    → 0 < i.ref
    → Keeps is (idup k is)
unfolding idup
idup-Keeps k i is e used =
    (k, i, record i { ref = i.ref + 1 }, e, rw (e, change) refl, (λ h. used), refl, refl)
