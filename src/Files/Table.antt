-- ===== src/Files/Table.antt =====
-- Reference counts in the table of open files.
use xv6_riscv_zig.Prelude.{
  ℕ, zero, suc, ◌+◌, ◌-◌, ◌<◌, ◌≡◌, ◌≢◌, refl, ap, ◌∙◌, false, Option, none, some, List, [], ◌∷◌,
  ltb, ◌==◌, if◌then◌else◌, get_elem?, set, ok, arith, Bool-cases, Option-cases, inl, inr, ==_iff,
  ne→==_false, ltb→lt,
}
use xv6_riscv_zig.Files.{
  File, Files, fd_none, fd_pipe, fd_inode, fd_device, Closing, pipeclose, iput, filealloc, filedup,
  fileclose, finish_close,
}

abbrev pub ref_at : Option File → ℕ
ref_at none = 0
ref_at (some f) = f.ref

abbrev pub ref_of : List File → ℕ → ℕ
ref_of files k = ref_at (get_elem? files k)

-- One reference to file `j`?
abbrev pub hit : Option ℕ → ℕ → ℕ
hit none j = 0
hit (some k) j = if k == j then 1 else 0

shifted : (k j n m : ℕ) → (if k == j then n else m) ≡ (if suc k == suc j then n else m)
shifted k j n m = elim (Bool-cases (k == j)) [
  | inl same ↦
      let p : k ≡ j = (==_iff k j).0 same in rw (same, (==_iff (suc k) (suc j)).1 (ap suc p))
  | inr other ↦ rw (other, ne→==_false (suc k) (suc j) (ground arith))
]

pub ref_of-set :
    (files : List File) (k j : ℕ) (f g : File)
    → get_elem? files k ≡ some g
    → ref_of (set files k f) j ≡ (if k == j then f.ref else ref_of files j)
ref_of-set [] k j f g e = cc e
ref_of-set (x ∷ files) zero zero f g e = refl
ref_of-set (x ∷ files) zero (suc j) f g e = rw (ne→==_false 0 (suc j) (omega arith))
ref_of-set (x ∷ files) (suc k) zero f g e = rw (ne→==_false (suc k) 0 (omega arith))
ref_of-set (x ∷ files) (suc k) (suc j) f g e =
    ref_of-set files k j f g e ∙ shifted k j f.ref (ref_of files j)

-- What `filealloc` does
pub data Alloc (files : List File) : List File × Option ℕ → Type 0 where
  all_used :
      ((j : ℕ) (f : File) → get_elem? files j ≡ some f → f.ref ≢ 0) → Alloc files (files, none)
  taken :
      (k : ℕ) (f : File)
      → get_elem? files k ≡ some f
      → f.ref ≡ 0
      → Alloc files (set files k (record f { ref = 1 }), some k)

pub filealloc_lem : (files : List File) → Alloc files (filealloc files)
unfolding filealloc
filealloc_lem [] = all_used (λ j f e. cc e)
filealloc_lem (f ∷ files) = elim (Bool-cases (f.ref == 0)) [
  | inl free ↦ rw free (taken 0 f refl ((==_iff f.ref 0).0 free))
  | inr used ↦ rw used (later (filealloc files) used (filealloc_lem files))
]
  where
    used_all :
        (f.ref == 0) ≡ false
        → ((j : ℕ) (g : File) → get_elem? files j ≡ some g → g.ref ≢ 0)
        → (j : ℕ) (g : File) → get_elem? (f ∷ files) j ≡ some g
        → g.ref ≢ 0
    used_all used h zero g e = let same : f ≡ g = cc e in rw (← same) (λ z. ground arith)
    used_all used h (suc j) g e = h j g e

    later :
        (r : List File × Option ℕ)
        → (f.ref == 0) ≡ false
        → Alloc files r
        → Alloc (f ∷ files) (f ∷ r.0, elim r.1 [ none ↦ none | some k ↦ some (suc k) ])
    later (gs, none) used (all_used h) = all_used (used_all used h)
    later (gs, some k) used (taken _ g e z) = taken (suc k) g e z

-- A reference more: no panic where the file has one.
pub filedup_lem :
    (k : ℕ) (s : Files)
    → 0 < ref_of s.files k
    → (t : Files) × (filedup k s ≡ ok t)
      × (t.ofile ≡ s.ofile)
      × ((j : ℕ) → ref_of t.files j ≡ ref_of s.files j + hit (some k) j)
unfolding filedup
filedup_lem k s h = elim (Option-cases (get_elem? s.files k)) [
  | inl n ↦ absurd (omega (arith, ap ref_at n))
  | inr (f, e) ↦
      let pos : 0 < f.ref = omega (arith, ap ref_at e) in
      (
        record s { files = set s.files k (record f { ref = f.ref + 1 }) },
        rw (e, filedup) (ground arith),
        refl,
        λ j. ref_of-set s.files k j (record f { ref = f.ref + 1 }) f e ∙ added j f e,
      )
]
  where
    added :
        (j : ℕ) (f : File)
        → get_elem? s.files k ≡ some f
        → (if k == j then f.ref + 1 else ref_of s.files j) ≡ ref_of s.files j + hit (some k) j
    added j f e = elim (Bool-cases (k == j)) [
      | inl same ↦
          let p : k ≡ j = (==_iff k j).0 same in
          rw same (omega (arith, ap ref_at e, ap (ref_of s.files) p))
      | inr other ↦ rw other (omega arith)
    ]

-- What is called for the last reference to `f`, besides the calls `before`
abbrev pub Closes : File → List Closing → List Closing → Type 0
Closes f before after =
    (f.type ≡ fd_pipe → after ≡ pipeclose f.pipe f.writable ∷ before)
    × (f.type ≡ fd_inode → after ≡ iput f.ip ∷ before)
    × (f.type ≡ fd_device → after ≡ iput f.ip ∷ before)
    × (f.type ≡ fd_none → after ≡ before)

finish_close-Closes : (f : File) (cs : List Closing) → Closes f cs (finish_close f cs)
unfolding finish_close
finish_close-Closes f cs = (λ e. rw e refl, λ e. rw e refl, λ e. rw e refl, λ e. rw e refl)

-- On a file with references `fileclose` does not panic: it takes one off, leaves the counts of all
-- other files and the descriptors as they were. Where this was the last one, it calls `pipeclose` for
-- the end of a pipe, with whether it is the end for writing, and `iput` for an inode or a device;
-- otherwise it calls neither.
pub fileclose_lem :
    (k : ℕ) (s : Files)
    → 0 < ref_of s.files k
    → (t : Files) × (fileclose k s ≡ ok t)
      × (t.ofile ≡ s.ofile)
      × ((j : ℕ) → ref_of t.files j + hit (some k) j ≡ ref_of s.files j)
      × ((f : File)
          → get_elem? s.files k ≡ some f
          → (f.ref ≢ 1 → t.closed ≡ s.closed) × (f.ref ≡ 1 → Closes f s.closed t.closed))
unfolding fileclose
fileclose_lem k s h = elim (Option-cases (get_elem? s.files k)) [
  | inl n ↦ absurd (omega (arith, ap ref_at n))
  | inr (f, e) ↦
      let pos : 0 < f.ref = omega (arith, ap ref_at e) in
      elim (Bool-cases (ltb 0 (f.ref - 1))) [
        | inl more ↦ (
          record s { files = set s.files k (record f { ref = f.ref - 1 }) },
          rw (e, fileclose) (ground arith),
          refl,
          λ j.
              ap (λ n. n + hit (some k) j)
                (ref_of-set s.files k j (record f { ref = f.ref - 1 }) f e)
              ∙ taken_off j f e pos (f.ref - 1) refl,
          λ g eg.
              let same : f ≡ g = cc (e, eg) in
              rw (← same)
                (λ ne. refl, λ one. absurd (omega (arith, ltb→lt 0 (f.ref - 1) more, one))),
        )
        | inr last ↦ (
          record s {
            files = set s.files k (record f { ref = 0; type = fd_none });
            closed = finish_close f s.closed;
          },
          rw (e, fileclose) (ground arith),
          refl,
          λ j.
              ap (λ n. n + hit (some k) j)
                (ref_of-set s.files k j (record f { ref = 0; type = fd_none }) f e)
              ∙ taken_off j f e pos 0 (ground arith),
          λ g eg.
              let same : f ≡ g = cc (e, eg) in
              rw (← same) (λ ne. absurd (ground arith), λ one. finish_close-Closes f s.closed),
        )
      ]
]
  where
    taken_off :
        (j : ℕ) (f : File)
        → get_elem? s.files k ≡ some f
        → 0 < f.ref
        → (n : ℕ) → n ≡ f.ref - 1
        → (if k == j then n else ref_of s.files j) + hit (some k) j ≡ ref_of s.files j
    taken_off j f e pos n less = elim (Bool-cases (k == j)) [
      | inl same ↦
          let p : k ≡ j = (==_iff k j).0 same in
          rw same (omega (arith, ap ref_at e, ap (ref_of s.files) p, less))
      | inr other ↦ rw other (omega arith)
    ]
