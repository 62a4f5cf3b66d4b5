-- ===== src/Names.antt =====
-- kernel/fs.c: the elements of a path name, over a memory of bytes.
pub mod Texts
pub mod Elements
mod Tests
use xv6_riscv_zig.Prelude.{
  ℕ, zero, suc, ◌+◌, ◌-◌, not, ◌&&◌, leb, ◌==◌, if◌then◌else◌, update, Option, none, some,
}
use xv6_riscv_zig.Str.{memmove}

-- `DIRSIZ`
abbrev pub dirsiz : ℕ
dirsiz = 14

-- `'/'`
abbrev pub slash : ℕ
slash = 47

infixl 5 ◌>>=◌
abbrev pub ◌>>=◌ {ℓ κ} : {A : Type ℓ} {B : Type κ} → Option A → (A → Option B) → Option B
none >>= f = none
some a >>= f = f a

-- `while(*path == '/') path++;` (`none` where the fuel ends first)
pub skip_slashes : ℕ → (ℕ → ℕ) → ℕ → Option ℕ
skip_slashes zero f path = none
skip_slashes (suc fuel) f path =
    let rest = skip_slashes fuel f (path + 1) in if f path == slash then rest else some path

-- `while(*path != '/' && *path != 0) path++;`
pub scan_elem : ℕ → (ℕ → ℕ) → ℕ → Option ℕ
scan_elem zero f path = none
scan_elem (suc fuel) f path =
    let rest = scan_elem fuel f (path + 1) in
    if not (f path == slash) && not (f path == 0) then rest else some path

-- The element of `len` bytes at `s` is copied to `name`.
pub copy_elem : (ℕ → ℕ) → ℕ → ℕ → ℕ → ℕ → ℕ
copy_elem f s len name =
    if leb dirsiz len then memmove f name s dirsiz else update (memmove f name s len) (name + len) 0

-- `some (f, none)` is the null pointer.
pub skipelem : ℕ → (ℕ → ℕ) → ℕ → ℕ → Option ((ℕ → ℕ) × Option ℕ)
unfolding skip_slashes scan_elem copy_elem
skipelem fuel f path name = do
  s ← skip_slashes fuel f path
  let taken = do
    e ← scan_elem fuel f s
    let g = copy_elem f s (e - s) name
    q ← skip_slashes fuel g e
    some (g, some q)
  if f s == 0 then some (f, none) else taken
