-- ===== src/Files/Slots.antt =====
-- The descriptors of a process, and how often they refer to a file.
use xv6_riscv_zig.Prelude.{
  ℕ, zero, suc, ◌+◌, ◌<◌, ◌≡◌, ◌≢◌, refl, ap, ◌∙◌, Bool-cases, Option, none, some, List, [], ◌∷◌,
  leb, get_elem?, set, get_or, arith, inl, inr,
}
use xv6_riscv_zig.Files.{argfd, fdalloc, nofile}
use xv6_riscv_zig.Files.Table.{hit}

-- How many descriptors refer to file `j`
abbrev pub count : ℕ → List (Option ℕ) → ℕ
count j [] = 0
count j (o ∷ ofile) = hit o j + count j ofile

pub count-set :
    (ofile : List (Option ℕ)) (fd j : ℕ) (o n : Option ℕ)
    → get_elem? ofile fd ≡ some o
    → count j (set ofile fd n) + hit o j ≡ count j ofile + hit n j
count-set [] fd j o n e = cc e
count-set (x ∷ ofile) zero j o n e =
    let same : x ≡ o = cc e in omega (arith, ap (λ y. hit y j) same)
count-set (x ∷ ofile) (suc fd) j o n e = omega (arith, count-set ofile fd j o n e)

pub count_pos :
    (ofile : List (Option ℕ)) (fd k : ℕ) → get_elem? ofile fd ≡ some (some k) → 0 < count k ofile
count_pos [] fd k e = cc e
count_pos (x ∷ ofile) zero k e =
    let same : x ≡ some k = cc e in omega (arith, ap (λ y. hit y k) same ∙ hit_self k)
  where
    hit_self : (k : ℕ) → hit (some k) k ≡ 1
    hit_self k = ground arith
count_pos (x ∷ ofile) (suc fd) k e = omega (arith, count_pos ofile fd k e)

get_or-some :
    (ofile : List (Option ℕ)) (fd k : ℕ)
    → get_or ofile fd none ≡ some k
    → get_elem? ofile fd ≡ some (some k)
get_or-some [] fd k e = cc e
get_or-some (x ∷ ofile) zero k e = ap some e
get_or-some (x ∷ ofile) (suc fd) k e = get_or-some ofile fd k e

pub argfd-some :
    (fd k : ℕ) (ofile : List (Option ℕ))
    → argfd fd ofile ≡ some k
    → get_elem? ofile fd ≡ some (some k)
unfolding argfd
argfd-some fd k ofile e = elim (Bool-cases (leb nofile fd)) [
  | inl out ↦ cc (rw out at e)
  | inr within ↦ get_or-some ofile fd k (rw within at e)
]

-- What `fdalloc` does
pub data Slot (k : ℕ) (ofile : List (Option ℕ)) : Option (ℕ × List (Option ℕ)) → Type 0 where
  full : ((fd : ℕ) → get_elem? ofile fd ≢ some none) → Slot k ofile none
  free : (fd : ℕ) → get_elem? ofile fd ≡ some none → Slot k ofile (some (fd, set ofile fd (some k)))

pub fdalloc_lem : (k : ℕ) (ofile : List (Option ℕ)) → Slot k ofile (fdalloc k ofile)
unfolding fdalloc
fdalloc_lem k [] = full (λ fd e. cc e)
fdalloc_lem k (none ∷ ofile) = free 0 refl
fdalloc_lem k (some j ∷ ofile) = later (fdalloc k ofile) (fdalloc_lem k ofile)
  where
    never :
        ((fd : ℕ) → get_elem? ofile fd ≢ some none)
        → (fd : ℕ) → get_elem? (some j ∷ ofile) fd ≢ some none
    never h zero = λ e. cc e
    never h (suc fd) = h fd

    later :
        (r : Option (ℕ × List (Option ℕ)))
        → Slot k ofile r
        → Slot k
            (some j ∷ ofile)
            (elim r [ none ↦ none | some (fd, ofile') ↦ some (suc fd, some j ∷ ofile') ])
    later none (full h) = full (never h)
    later (some (fd, ofile')) (free _ e) = free (suc fd) e
