-- ===== src/Str/Move.antt =====
-- `memmove` against its description: overlapping objects are moved as by a copy.
use xv6_riscv_zig.Prelude.{
  ℕ, zero, suc, ◌+◌, ◌-◌, ◌≤◌, ◌<◌, ◌≡◌, ap, ◌∙◌, sym, ◌⊎◌, inl, inr, ◌&&◌, ltb, leb, ◌==◌, arith,
  if◌then◌else◌, update, update_self, update_ne, Bool-cases, ==_iff, leb→le, ◌≢◌,
}
use xv6_riscv_zig.Str.{move_up, move_down, memmove, user_memmove}

-- Where `n` bytes from `s` on are to end up at `d`, what the memory `f` holds at `q` afterwards
abbrev pub moved : (ℕ → ℕ) → ℕ → ℕ → ℕ → ℕ → ℕ
moved f d s n q = if leb d q && ltb q (d + n) then f (s + (q - d)) else f q

pub moved-in : (f : ℕ → ℕ) (d s n q : ℕ) → d ≤ q → q < d + n → moved f d s n q ≡ f (s + (q - d))
moved-in f d s n q h k = ground arith

pub moved-out : (f : ℕ → ℕ) (d s n q : ℕ) → (d ≤ q → d + n ≤ q) → moved f d s n q ≡ f q
moved-out f d s n q h = ground arith

pub within : (d n q : ℕ) → ((d ≤ q) × (q < d + n)) ⊎ (d ≤ q → d + n ≤ q)
within d n q = elim (Bool-cases (leb d q && ltb q (d + n))) [
  | inl here ↦ inl (ground arith, ground arith)
  | inr there ↦ inr (λ h. ground arith)
]

-- What is left to do after the first byte was moved
pub up-one :
    (f : ℕ → ℕ) (d s n q : ℕ)
    → (d ≤ s) ⊎ (s + suc n ≤ d)
    → moved (update f d (f s)) (d + 1) (s + 1) n q ≡ moved f d s (suc n) q
up-one f d s n q apart = elim (within (d + 1) n q) [
  | inl (le, lt) ↦
      moved-in (update f d (f s)) (d + 1) (s + 1) n q le lt
      ∙ update_ne f d (s + 1 + (q - (d + 1))) (f s) (λ e. elim apart [
        | inl up ↦ omega (arith, e, up)
        | inr down ↦ omega (arith, e, down, le, lt)
      ])
      ∙ ap f {x = s + 1 + (q - (d + 1))} {y = s + (q - d)} (omega (arith, le))
      ∙ sym (moved-in f d s (suc n) q (omega (arith, le)) (omega (arith, lt)))
  | inr out ↦ elim (Bool-cases (d == q)) [
    | inl e ↦
        let same : d ≡ q = (==_iff d q).0 e in
        moved-out (update f d (f s)) (d + 1) (s + 1) n q out
        ∙ ap (update f d (f s)) (sym same)
        ∙ update_self f d (f s)
        ∙ ap f {x = s} {y = s + (q - d)} (omega (arith, same))
        ∙ sym (moved-in f d s (suc n) q (omega (arith, same)) (omega (arith, same)))
    | inr other ↦
        let ne : d ≢ q = λ same. ground arith in
        moved-out (update f d (f s)) (d + 1) (s + 1) n q out
        ∙ update_ne f d q (f s) ne
        ∙ sym (moved-out f d s (suc n) q (λ h. omega (arith, h, out, ne)))
  ]
]

-- What is left to do after the last byte was moved
down-one :
    (f : ℕ → ℕ) (d s n q : ℕ)
    → s ≤ d
    → moved (update f (d + n) (f (s + n))) d s n q ≡ moved f d s (suc n) q
down-one f d s n q apart = elim (within d n q) [
  | inl (le, lt) ↦
      moved-in (update f (d + n) (f (s + n))) d s n q le lt
      ∙ update_ne f (d + n) (s + (q - d)) (f (s + n)) (λ e. omega (arith, e, apart, le, lt))
      ∙ sym (moved-in f d s (suc n) q le (omega (arith, lt)))
  | inr out ↦ elim (Bool-cases (d + n == q)) [
    | inl e ↦
        let same : d + n ≡ q = (==_iff (d + n) q).0 e in
        moved-out (update f (d + n) (f (s + n))) d s n q out
        ∙ ap (update f (d + n) (f (s + n))) (sym same)
        ∙ update_self f (d + n) (f (s + n))
        ∙ ap f {x = s + n} {y = s + (q - d)} (omega (arith, same))
        ∙ sym (moved-in f d s (suc n) q (omega (arith, same)) (omega (arith, same)))
    | inr other ↦
        let ne : d + n ≢ q = λ same. ground arith in
        moved-out (update f (d + n) (f (s + n))) d s n q out
        ∙ update_ne f (d + n) q (f (s + n)) ne
        ∙ sym (moved-out f d s (suc n) q (λ h. omega (arith, h, out, ne)))
  ]
]

pub move_up-moved :
    (f : ℕ → ℕ) (d s n q : ℕ) → (d ≤ s) ⊎ (s + n ≤ d) → move_up f d s n q ≡ moved f d s n q
unfolding move_up
move_up-moved f d s zero q apart = sym (moved-out f d s 0 q (λ h. omega (arith, h)))
move_up-moved f d s (suc n) q apart =
    move_up-moved (update f d (f s)) (d + 1) (s + 1) n q
      (elim apart [ inl up ↦ inl (omega (arith, up)) | inr down ↦ inr (omega (arith, down)) ])
    ∙ up-one f d s n q apart

move_down-moved : (f : ℕ → ℕ) (d s n q : ℕ) → s ≤ d → move_down f d s n q ≡ moved f d s n q
unfolding move_down
move_down-moved f d s zero q apart = sym (moved-out f d s 0 q (λ h. omega (arith, h)))
move_down-moved f d s (suc n) q apart =
    move_down-moved (update f (d + n) (f (s + n))) d s n q apart ∙ down-one f d s n q apart

-- `memmove` leaves at `dst` to `dst + n` what stood at `src` to `src + n` before the call, however
-- the two overlap, and changes no other byte.
pub memmove_lem :
    (f : ℕ → ℕ) (dst src n q : ℕ)
    → memmove f dst src n q ≡ (if leb dst q && ltb q (dst + n) then f (src + (q - dst)) else f q)
unfolding memmove
memmove_lem f dst src n q = elim (Bool-cases (n == 0)) [
  | inl nothing ↦
      let e : n ≡ 0 = (==_iff n 0).0 nothing in
      rw nothing (sym (moved-out f dst src n q (λ h. omega (arith, h, e))))
  | inr several ↦ elim (Bool-cases (ltb src dst && ltb dst (src + n))) [
    | inl down ↦ rw (several, down) (move_down-moved f dst src n q (ground arith))
    | inr up ↦
        rw (several, up)
          (move_up-moved f dst src n q (elim (within src n dst) [
            | inl (le, lt) ↦ inl (ground arith)
            | inr far ↦ elim (Bool-cases (leb src dst)) [
              | inl below ↦ inr (far (leb→le src dst below))
              | inr above ↦ inl (ground arith)
            ]
          ]))
  ]
]

-- So does the user library's `memmove`.
pub user_memmove_lem :
    (f : ℕ → ℕ) (dst src n q : ℕ)
    → user_memmove f dst src n q
      ≡ (if leb dst q && ltb q (dst + n) then f (src + (q - dst)) else f q)
unfolding user_memmove
user_memmove_lem f dst src n q = elim (Bool-cases (ltb dst src)) [
  | inl up ↦ rw up (move_up-moved f dst src n q (inl (ground arith)))
  | inr down ↦ rw down (move_down-moved f dst src n q (ground arith))
]
