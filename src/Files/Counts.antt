-- ===== src/Files/Counts.antt =====
-- The reference count of a file is the number of descriptors that refer to it, through all calls
-- of a process, whatever the other processes hold.
use xv6_riscv_zig.Prelude.{
  ℕ, ◌+◌, ◌≡◌, refl, ap, ◌∙◌, sym, Option, none, some, List, get_elem?, set, Run, ok, ◌>>=◌, arith,
  Option-cases, inl, inr, Bool-cases, ==_iff, ◌==◌,
}
use xv6_riscv_zig.Files.{
  File, Files, filealloc, filedup, fileclose, argfd, fdalloc, sys_dup, sys_close, open_fd, place,
}
use xv6_riscv_zig.Files.Table.{
  ref_at, ref_of, hit, ref_of-set, Alloc, all_used, taken, filealloc_lem, filedup_lem,
  fileclose_lem,
}
use xv6_riscv_zig.Files.Slots.{
  count, count-set, count_pos, argfd-some, Slot, full, free, fdalloc_lem,
}

-- `others j` is how often other processes refer to file `j`.
abbrev pub Counted : (ℕ → ℕ) → Files → Type 0
Counted others s = (j : ℕ) → ref_of s.files j ≡ count j s.ofile + others j

-- A call that returns, and keeps the counts
pub data Kept (others : ℕ → ℕ) : Run (Files × Option ℕ) → Type 0 where
  kept : (t : Files) (r : Option ℕ) → Counted others t → Kept others (ok (t, r))

hit_self : (k : ℕ) → hit (some k) k ≡ 1
hit_self k = ground arith

module _ (others : ℕ → ℕ) where
  pub sys_close-Kept : (fd : ℕ) (s : Files) → Counted others s → Kept others (sys_close fd s)
  unfolding sys_close
  sys_close-Kept fd s h = elim (Option-cases (argfd fd s.ofile)) [
    | inl n ↦ rw (n, sys_close) (kept s none h)
    | inr (k, e) ↦
        let at = argfd-some fd k s.ofile e in
        let (t, done, same, less, last) =
          fileclose_lem k (record s { ofile = set s.ofile fd none })
            (omega (arith, h k, count_pos s.ofile fd k at)) in
        rw (e, done, sys_close)
          (kept t (some 0) (λ j.
            omega (arith, less j, h j, count-set s.ofile fd j (some k) none at, ap (count j) same)))
  ]

  pub sys_dup-Kept : (fd : ℕ) (s : Files) → Counted others s → Kept others (sys_dup fd s)
  unfolding sys_dup
  sys_dup-Kept fd s h = elim (Option-cases (argfd fd s.ofile)) [
    | inl n ↦ rw (n, sys_dup) (kept s none h)
    | inr (k, e) ↦
        rw (e, sys_dup)
          (slot k (argfd-some fd k s.ofile e) (fdalloc k s.ofile) (fdalloc_lem k s.ofile))
  ]
    where
      slot :
          (k : ℕ)
          → get_elem? s.ofile fd ≡ some (some k)
          → (r : Option (ℕ × List (Option ℕ))) → Slot k s.ofile r
          → Kept others (elim r [
            | none ↦ ok (s, none)
            | some (fd', ofile') ↦
                filedup k (record s { ofile = ofile' }) >>= λ s1. ok (s1, some fd')
          ])
      slot k at none (full f) = kept s none h
      slot k at (some (fd', ofile')) (free _ empty) =
          let (t, done, same, more) =
            filedup_lem k (record s { ofile = set s.ofile fd' (some k) })
              (omega (arith, h k, count_pos s.ofile fd k at)) in
          rw done (
            kept t (some fd') (λ j.
              omega (
                arith,
                more j,
                h j,
                count-set s.ofile fd' j none (some k) empty,
                ap (count j) same,
              )))

  -- One reference that no descriptor holds is given back.
  pub close_one :
      (k : ℕ) (s : Files)
      → Counted (λ j. others j + hit (some k) j) s
      → (t : Files) × (fileclose k s ≡ ok t) × Counted others t
  close_one k s h =
      let (t, done, same, less, last) = fileclose_lem k s (omega (arith, h k, hit_self k)) in
      (t, done, λ j. omega (arith, less j, h j, ap (count j) same))

  pub Counted-taken :
      (k : ℕ) (s : Files) (f : File)
      → get_elem? s.files k ≡ some f
      → f.ref ≡ 0
      → Counted others s
      → Counted
          (λ j. others j + hit (some k) j)
          (record s { files = set s.files k (record f { ref = 1 }) })
  Counted-taken k s f e z h j =
      ref_of-set s.files k j (record f { ref = 1 }) f e ∙ elim (Bool-cases (k == j)) [
        | inl same ↦
            let p : k ≡ j = (==_iff k j).0 same in
            rw same (omega (arith, ap ref_at e, ap (ref_of s.files) p, h j, z))
        | inr other ↦ rw other (omega (arith, h j))
      ]

  -- What is written into a file's other fields does not matter.
  pub ref_of-setup :
      (setup : File → File) (k j : ℕ) (files : List File) (f : File)
      → ((g : File) → (setup g).ref ≡ g.ref)
      → get_elem? files k ≡ some f
      → ref_of (set files k (setup f)) j ≡ ref_of files j
  ref_of-setup setup k j files f keeps e =
      ref_of-set files k j (setup f) f e ∙ elim (Bool-cases (k == j)) [
        | inl same ↦
            let p : k ≡ j = (==_iff k j).0 same in
            rw same (keeps f ∙ ap ref_at (sym e) ∙ ap (ref_of files) p)
        | inr other ↦ rw other refl
      ]

  pub place-Kept :
      (setup : File → File) (k : ℕ) (s : Files)
      → ((g : File) → (setup g).ref ≡ g.ref)
      → Counted (λ j. others j + hit (some k) j) s
      → Kept others (place setup k s)
  unfolding place
  place-Kept setup k s keeps h = (slot (fdalloc k s.ofile) (fdalloc_lem k s.ofile))
    where
      slot :
          (r : Option (ℕ × List (Option ℕ)))
          → Slot k s.ofile r
          → Kept others (elim r [
            | none ↦ fileclose k s >>= λ s1. ok (s1, none)
            | some (fd, ofile') ↦ elim (get_elem? s.files k) [
              | none ↦ ok (s, none)
              | some f ↦ ok (record s { files = set s.files k (setup f); ofile = ofile' }, some fd)
            ]
          ])
      slot none (full f) = let (t, done, c) = close_one k s h in rw done (kept t none c)
      slot (some (fd, ofile')) (free _ empty) = elim (Option-cases (get_elem? s.files k)) [
        | inl n ↦ absurd (omega (arith, ap ref_at n, h k, hit_self k))
        | inr (f, e) ↦ rw e (
            kept (record s { files = set s.files k (setup f); ofile = set s.ofile fd (some k) })
              (some fd)
              (λ j. omega (
                arith,
                ref_of-setup setup k j s.files f keeps e,
                h j,
                count-set s.ofile fd j none (some k) empty,
              )))
      ]

  pub open_fd-Kept :
      (setup : File → File) (s : Files)
      → ((g : File) → (setup g).ref ≡ g.ref)
      → Counted others s
      → Kept others (open_fd setup s)
  unfolding open_fd
  open_fd-Kept setup s keeps h = found (filealloc s.files) (filealloc_lem s.files)
    where
      found :
          (r : List File × Option ℕ)
          → Alloc s.files r
          → Kept others (elim r.1 [
            | none ↦ ok (record s { files = r.0 }, none)
            | some k ↦ place setup k (record s { files = r.0 })
          ])
      found (_, none) (all_used a) = kept s none h
      found (_, some k) (taken _ f e z) =
          place-Kept setup k (record s { files = set s.files k (record f { ref = 1 }) }) keeps
            (Counted-taken k s f e z h)
