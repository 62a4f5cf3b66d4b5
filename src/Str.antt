-- ===== src/Str.antt =====
-- kernel/string.c over a memory of bytes. Addresses are numbers, and no object reaches over the end
-- of the address space, so `s + n` does not wrap.
pub mod Move
pub mod Text
pub mod Compare
pub mod Pad
mod Tests
use xv6_riscv_zig.Prelude.{
  ℕ, zero, suc, ◌+◌, ◌-◌, ◌%◌, ◌<◌, ◌≡◌, Bool, true, false, ◌&&◌, not, ltb, leb, ◌==◌,
  if◌then◌else◌, update, ℤ, pos, sub_ℕ, Option, none, some,
}

-- `memset(dst, c, n)`: a `char` keeps the low byte of `c`.
pub memset : (ℕ → ℕ) → ℕ → ℕ → ℕ → ℕ → ℕ
memset f dst c zero = f
memset f dst c (suc n) = memset (update f dst (c % 256)) (dst + 1) c n

-- `while(n-- > 0) *d++ = *s++;`
unfoldable pub move_up : (ℕ → ℕ) → ℕ → ℕ → ℕ → ℕ → ℕ
move_up f d s zero = f
move_up f d s (suc n) = move_up (update f d (f s)) (d + 1) (s + 1) n

-- `while(n-- > 0) *--d = *--s;`, with `d` and `s` the addresses below which it ends
pub move_down : (ℕ → ℕ) → ℕ → ℕ → ℕ → ℕ → ℕ
move_down f d s zero = f
move_down f d s (suc n) = move_down (update f (d + n) (f (s + n))) d s n

pub memmove : (ℕ → ℕ) → ℕ → ℕ → ℕ → ℕ → ℕ
unfolding move_up move_down
memmove f dst src n =
    if n == 0
    then f
    else (if ltb src dst && ltb dst (src + n) then move_down f dst src n else move_up f dst src n)

pub memcpy : (ℕ → ℕ) → ℕ → ℕ → ℕ → ℕ → ℕ
unfolding memmove
memcpy f dst src n = memmove f dst src n

-- The loop of `safestrcpy`, which has `n - 1` bytes left to copy: the memory, and where `s` points
-- at its end
pub copy_text : (ℕ → ℕ) → ℕ → ℕ → ℕ → (ℕ → ℕ) × ℕ
copy_text f s t zero = (f, s)
copy_text f s t (suc n) =
    let g = update f s (f t) in
    let rest = copy_text g (s + 1) (t + 1) n in if f t == 0 then (g, s + 1) else rest

-- `n` stands for an `int`; a negative one does what 0 does.
pub safestrcpy : (ℕ → ℕ) → ℕ → ℕ → ℕ → ℕ → ℕ
unfolding copy_text
safestrcpy f s t zero = f
safestrcpy f s t (suc n) = let (g, e) = copy_text f s t n in update g e 0

-- `strlen` from index `n` on: the index of the NUL; `none` where it has not come to one within the
-- fuel.
unfoldable pub strlen : ℕ → (ℕ → ℕ) → ℕ → ℕ → Option ℕ
strlen zero f s n = none
strlen (suc fuel) f s n =
    let rest = strlen fuel f s (n + 1) in if f (s + n) == 0 then some n else rest

pub memcmp : (ℕ → ℕ) → ℕ → ℕ → ℕ → ℤ
memcmp f s1 s2 zero = pos 0
memcmp f s1 s2 (suc n) =
    let rest = memcmp f (s1 + 1) (s2 + 1) n in
    if not (f s1 == f s2) then sub_ℕ (f s1) (f s2) else rest

unfoldable pub strncmp : (ℕ → ℕ) → ℕ → ℕ → ℕ → ℤ
strncmp f p q zero = pos 0
strncmp f p q (suc n) =
    let rest = strncmp f (p + 1) (q + 1) n in
    if not (f p == 0) && f p == f q then rest else sub_ℕ (f p) (f q)

-- The second loop of `strncpy`
pub zero_fill : (ℕ → ℕ) → ℕ → ℕ → ℕ → ℕ
zero_fill f s zero = f
zero_fill f s (suc n) = zero_fill (update f s 0) (s + 1) n

-- `n` stands for an `int`; a negative one does what 0 does.
pub strncpy : (ℕ → ℕ) → ℕ → ℕ → ℕ → ℕ → ℕ
unfolding zero_fill
strncpy f s t zero = f
strncpy f s t (suc n) =
    let g = update f s (f t) in
    let rest = strncpy g (s + 1) (t + 1) n in
    let filled = zero_fill g (s + 1) n in if f t == 0 then filled else rest

-- `memmove` of user/ulib/ulib.c, which compares only the pointers
pub user_memmove : (ℕ → ℕ) → ℕ → ℕ → ℕ → ℕ → ℕ
unfolding move_up move_down
user_memmove f dst src n = if ltb dst src then move_up f dst src n else move_down f dst src n
