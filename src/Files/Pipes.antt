-- ===== src/Files/Pipes.antt =====
-- `sys_pipe` keeps the counts on each of its branches.
use xv6_riscv_zig.Prelude.{
  ℕ, ◌≡◌, refl, ap, ◌∙◌, sym, Bool, Option, none, some, List, get_elem?, set, Run, ok, panic, ◌>>=◌,
  arith, inl, inr, Bool-cases, if◌then◌else◌, ◌≢◌, get_elem?-set_self, get_elem?-set_ne,
  lt-length_of_some,
}
use xv6_riscv_zig.Files.{Files, fdalloc, close_both, pipe_files, pipe_fds, sys_pipe}
use xv6_riscv_zig.Files.Slots.{count, count-set, Slot, full, free, fdalloc_lem}
use xv6_riscv_zig.Files.Counts.{Counted, Kept, kept}
use xv6_riscv_zig.Files.Ends.{both, close_two, PipeFiles, bad, made, pipe_files-PipeFiles}

slot-set :
    (ofile : List (Option ℕ)) (fd : ℕ) (o n : Option ℕ)
    → get_elem? ofile fd ≡ some o
    → get_elem? (set ofile fd n) fd ≡ some n
slot-set ofile fd o n e = get_elem?-set_self ofile fd n (lt-length_of_some ofile fd o e)

slot_undone :
    (ofile : List (Option ℕ)) (fd0 k0 : ℕ)
    → get_elem? ofile fd0 ≡ some none
    → (j : ℕ) → count j (set (set ofile fd0 (some k0)) fd0 none) ≡ count j ofile
slot_undone ofile fd0 k0 e0 j = omega (
  arith,
  count-set ofile fd0 j none (some k0) e0,
  count-set (set ofile fd0 (some k0)) fd0 j (some k0) none (slot-set ofile fd0 none (some k0) e0),
)

slots_undone :
    (ofile : List (Option ℕ)) (fd0 fd1 k0 k1 : ℕ)
    → get_elem? ofile fd0 ≡ some none
    → get_elem? (set ofile fd0 (some k0)) fd1 ≡ some none
    → (j : ℕ)
    → count j (set (set (set (set ofile fd0 (some k0)) fd1 (some k1)) fd0 none) fd1 none)
      ≡ count j ofile
slots_undone ofile fd0 fd1 k0 k1 e0 e1 j = omega (
  arith,
  count-set ofile fd0 j none (some k0) e0,
  count-set one fd1 j none (some k1) e1,
  count-set two fd0 j (some k0) none at0,
  count-set (set two fd0 none) fd1 j (some k1) none at1,
)
  where
    one : List (Option ℕ)
    one = set ofile fd0 (some k0)

    two : List (Option ℕ)
    two = set one fd1 (some k1)

    held0 : get_elem? one fd0 ≡ some (some k0)
    held0 = slot-set ofile fd0 none (some k0) e0

    apart : fd1 ≢ fd0
    apart same = cc (ap (get_elem? one) same, e1, held0)

    at0 : get_elem? two fd0 ≡ some (some k0)
    at0 = get_elem?-set_ne one fd1 fd0 (some k1) apart ∙ held0

    at1 : get_elem? (set two fd0 none) fd1 ≡ some (some k1)
    at1 =
        get_elem?-set_ne two fd0 fd1 none (λ e. apart (sym e)) ∙ slot-set one fd1 none (some k1) e1

module _ (others : ℕ → ℕ) where
  pipe_fds-Kept :
      (copied : Bool) (k0 k1 : ℕ) (s : Files)
      → Counted (both others k0 k1) s
      → Kept others (pipe_fds copied k0 k1 s)
  unfolding pipe_fds
  pipe_fds-Kept copied k0 k1 s h = first (fdalloc k0 s.ofile) (fdalloc_lem k0 s.ofile)
    where
      -- Both files are closed, with a list of descriptors that counts as the old one does.
      undo :
          (ofile : List (Option ℕ))
          → ((j : ℕ) → count j ofile ≡ count j s.ofile)
          → Kept others (close_both k0 k1 (record s { ofile = ofile }) >>= λ s1. ok (s1, none))
      undo ofile same =
          let (t, done, h1) =
            close_two others k0 k1 (record s { ofile = ofile }) (λ j. omega (arith, h j, same j)) in
          rw done (kept t none h1)

      second :
          (fd0 : ℕ) (r : Option (ℕ × List (Option ℕ)))
          → get_elem? s.ofile fd0 ≡ some none
          → Slot k1 (set s.ofile fd0 (some k0)) r
          → Kept others (elim r [
            | none ↦
                close_both k0 k1 (record s { ofile = set (set s.ofile fd0 (some k0)) fd0 none })
                >>= λ s1. ok (s1, none)
            | some (fd1, ofile1) ↦
                if copied
                then ok (record s { ofile = ofile1 }, some 0)
                else (close_both k0 k1 (record s { ofile = set (set ofile1 fd0 none) fd1 none })
                    >>= λ s1. ok (s1, none))
          ])
      second fd0 none e0 (full a) =
          undo (set (set s.ofile fd0 (some k0)) fd0 none) (slot_undone s.ofile fd0 k0 e0)
      second fd0 (some (fd1, ofile1)) e0 (free _ e1) = elim (Bool-cases copied) [
        | inl fine ↦ rw fine (
            kept (record s { ofile = set (set s.ofile fd0 (some k0)) fd1 (some k1) }) (some 0)
              (λ j. omega (
                arith,
                h j,
                count-set s.ofile fd0 j none (some k0) e0,
                count-set (set s.ofile fd0 (some k0)) fd1 j none (some k1) e1,
              )))
        | inr failed ↦ rw failed (
            undo (set (set (set (set s.ofile fd0 (some k0)) fd1 (some k1)) fd0 none) fd1 none)
              (slots_undone s.ofile fd0 fd1 k0 k1 e0 e1))
      ]

      first :
          (r : Option (ℕ × List (Option ℕ)))
          → Slot k0 s.ofile r
          → Kept others (elim r [
            | none ↦ close_both k0 k1 s >>= λ s1. ok (s1, none)
            | some (fd0, ofile0) ↦ elim (fdalloc k1 ofile0) [
              | none ↦ close_both k0 k1 (record s { ofile = set ofile0 fd0 none }) >>= λ s1.
                  ok (s1, none)
              | some (fd1, ofile1) ↦
                  if copied
                  then ok (record s { ofile = ofile1 }, some 0)
                  else (close_both k0 k1 (record s { ofile = set (set ofile1 fd0 none) fd1 none })
                      >>= λ s1. ok (s1, none))
            ]
          ])
      first none (full a) = undo s.ofile (λ j. refl)
      first (some (fd0, ofile0)) (free _ e0) =
          second fd0 (fdalloc k1 (set s.ofile fd0 (some k0))) e0
            (fdalloc_lem k1 (set s.ofile fd0 (some k0)))

  pub sys_pipe-Kept :
      (page : ℕ) (copied : Bool) (s : Files)
      → Counted others s
      → Kept others (sys_pipe page copied s)
  unfolding sys_pipe
  sys_pipe-Kept page copied s h = ends (pipe_files page s) (pipe_files-PipeFiles others page s h)
    where
      ends :
          (r : Run (Files × Option (ℕ × ℕ)))
          → PipeFiles others s.ofile r
          → Kept others (
              r >>= λ (s1, ends). elim ends [
                | none ↦ ok (s1, none)
                | some (k0, k1) ↦ pipe_fds copied k0 k1 s1
              ])
      ends (ok (t, none)) (bad _ h1) = kept t none h1
      ends (ok (t, some (k0, k1))) (made _ _ _ h1) = pipe_fds-Kept copied k0 k1 t h1
      ends (panic m) p = elim p [ ]
