-- ===== src/Files/Ends.antt =====
-- `pipealloc` keeps the counts of both files of a pipe.
use xv6_riscv_zig.Prelude.{
  ℕ, ◌+◌, ◌≡◌, refl, ◌∙◌, Option, none, some, List, get_elem?, set, Run, ok, ◌>>=◌, arith,
  Option-cases, inl, inr, Bool-cases, ◌==◌, if◌then◌else◌,
}
use xv6_riscv_zig.Files.{
  File, Files, filealloc, fileclose, close_both, setup_at, read_end, write_end, pipe_files,
}
use xv6_riscv_zig.Files.Table.{ref_of, hit, Alloc, all_used, taken, filealloc_lem}
use xv6_riscv_zig.Files.Counts.{Counted, close_one, Counted-taken, ref_of-setup}

-- Two more references, to the files `k0` and `k1`
abbrev pub both : (ℕ → ℕ) → ℕ → ℕ → ℕ → ℕ
both others k0 k1 j = others j + hit (some k1) j + hit (some k0) j

pub close_two :
    (others : ℕ → ℕ) (k0 k1 : ℕ) (s : Files)
    → Counted (both others k0 k1) s
    → (t : Files) × (close_both k0 k1 s ≡ ok t) × Counted others t
unfolding close_both
close_two others k0 k1 s h =
    let (t, done, h1) = close_one (λ j. others j + hit (some k1) j) k0 s h in
    let (u, done', h2) = close_one others k1 t h1 in (u, rw (done, done'), h2)

setup_at-ref_of :
    (setup : File → File) (k j : ℕ) (files : List File)
    → ((g : File) → (setup g).ref ≡ g.ref)
    → ref_of (setup_at k setup files) j ≡ ref_of files j
unfolding setup_at
setup_at-ref_of setup k j files keeps = elim (Option-cases (get_elem? files k)) [
  | inl n ↦ rw (n, setup_at)
  | inr (f, e) ↦ rw (e, setup_at) (ref_of-setup (λ _. 0) setup k j files f keeps e)
]

-- What `pipe_files` returns: the files are counted, each of the two once more than descriptors refer
-- to it.
pub data PipeFiles (others : ℕ → ℕ) (ofile : List (Option ℕ))
    : Run (Files × Option (ℕ × ℕ)) → Type 0 where
  bad : (t : Files) → Counted others t → PipeFiles others ofile (ok (t, none))
  made :
      (t : Files) (k0 k1 : ℕ)
      → Counted (both others k0 k1) t
      → PipeFiles others ofile (ok (t, some (k0, k1)))

module _ (others : ℕ → ℕ) where
  pub pipe_files-PipeFiles :
      (page : ℕ) (s : Files) → Counted others s → PipeFiles others s.ofile (pipe_files page s)
  unfolding pipe_files
  pipe_files-PipeFiles page s h = first (filealloc s.files) (filealloc_lem s.files)
    where
      rest : List File → ℕ → Run (Files × Option (ℕ × ℕ))
      rest files0 k0 =
          let (files1, found1) = filealloc files0 in
          let s1 : Files = record s { files = files1 } in
          elim found1 [
            | none ↦ fileclose k0 s1 >>= λ s2. ok (s2, none)
            | some k1 ↦
                if page == 0
                then (close_both k0 k1 s1 >>= λ s2. ok (s2, none))
                else ok (
                  record s1 {
                    files = setup_at k1 (write_end page) (setup_at k0 (read_end page) files1);
                  },
                  some (k0, k1),
                )
          ]

      both_taken :
          (k0 k1 : ℕ) (s1 : Files)
          → Counted (both others k0 k1) s1
          → PipeFiles others s.ofile (
              if page == 0
              then (close_both k0 k1 s1 >>= λ s2. ok (s2, none))
              else ok (
                record s1 {
                  files = setup_at k1 (write_end page) (setup_at k0 (read_end page) s1.files);
                },
                some (k0, k1),
              ))
      both_taken k0 k1 s1 h1 = elim (Bool-cases (page == 0)) [
        | inl no_page ↦
            let (t, done, h2) = close_two others k0 k1 s1 h1 in rw (no_page, done) (bad t h2)
        | inr page_there ↦ rw page_there (
            made
              (record s1 {
                files = setup_at k1 (write_end page) (setup_at k0 (read_end page) s1.files);
              })
              k0 k1
              (λ j.
                setup_at-ref_of (write_end page) k1 j (setup_at k0 (read_end page) s1.files)
                  (λ g. unfold write_end in refl)
                ∙ setup_at-ref_of (read_end page) k0 j s1.files (λ g. unfold read_end in refl)
                ∙ h1 j))
      ]

      second :
          (k0 : ℕ) (files0 : List File) (r : List File × Option ℕ)
          → Counted (λ j. others j + hit (some k0) j) (record s { files = files0 })
          → Alloc files0 r
          → PipeFiles others s.ofile (elim r.1 [
            | none ↦ fileclose k0 (record s { files = r.0 }) >>= λ s2. ok (s2, none)
            | some k1 ↦
                if page == 0
                then (close_both k0 k1 (record s { files = r.0 }) >>= λ s2. ok (s2, none))
                else ok (
                  record s {
                    files = setup_at k1 (write_end page) (setup_at k0 (read_end page) r.0);
                  },
                  some (k0, k1),
                )
          ])
      second k0 files0 (_, none) h0 (all_used a) =
          let (t, done, h1) = close_one others k0 (record s { files = files0 }) h0 in
          rw done (bad t h1)
      second k0 files0 (_, some k1) h0 (taken _ f e z) =
          both_taken k0 k1 (record s { files = set files0 k1 (record f { ref = 1 }) })
            (λ j. omega (
              arith,
              Counted-taken (λ j. others j + hit (some k0) j) k1 (record s { files = files0 }) f e z
                  h0 j,
            ))

      first :
          (r : List File × Option ℕ)
          → Alloc s.files r
          → PipeFiles others s.ofile
              (elim r.1 [ none ↦ ok (record s { files = r.0 }, none) | some k0 ↦ rest r.0 k0 ])
      first (_, none) (all_used a) = bad s h
      first (_, some k0) (taken _ f e z) =
          let files0 = set s.files k0 (record f { ref = 1 }) in
          second k0 files0 (filealloc files0) (Counted-taken others k0 s f e z h)
            (filealloc_lem files0)
