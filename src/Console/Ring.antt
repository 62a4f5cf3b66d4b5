-- ===== src/Console/Ring.antt =====
-- The characters of the console's ring as lists.
use xv6_riscv_zig.Prelude.{
  ℕ, zero, suc, ◌+◌, ◌%◌, ◌^◌, ◌≤◌, ◌<◌, ◌≡◌, ◌≢◌, refl, ap, ap₂, ◌∙◌, sym, [], ◌∷◌, ◌++◌, arith,
  slice, slice-append, slice-same, update, update_self, update_ne,
}
use xv6_riscv_zig.Console.{Console, input_buf_size, sub32, next32}

-- The ring as a memory without an end
abbrev pub cell : (ℕ → ℕ) → ℕ → ℕ
cell d i = d (i % input_buf_size)

-- The counters are 32-bit numbers in the order `r`, `w`, `e`, at most `input_buf_size` apart.
pub record IsConsole (s : Console) : Type 0 where
  pub r_lt : s.r < 2 ^ 32
  pub w_lt : s.w < 2 ^ 32
  pub e_lt : s.e < 2 ^ 32
  pub order : sub32 s.w s.r ≤ sub32 s.e s.r
  pub fits : sub32 s.e s.r ≤ input_buf_size
  pub one_line : (j : ℕ) → j < sub32 s.e s.w → cell s.buf (s.w + j) ≢ 10

-- The counters wrap at a multiple of the ring's size.
pub slice-wrap : (d : ℕ → ℕ) (r k : ℕ) → slice (cell d) (r % 2 ^ 32) k ≡ slice (cell d) r k
slice-wrap d r zero = refl
slice-wrap d r (suc k) =
    ap₂ (λ b q. d b ∷ q) (omega arith)
      (sym (slice-wrap d (r % 2 ^ 32 + 1) k)
        ∙ ap (λ b. slice (cell d) b k) {x = (r % 2 ^ 32 + 1) % 2 ^ 32} {y = (r + 1) % 2 ^ 32}
            (omega arith)
        ∙ slice-wrap d (r + 1) k)

-- A free cell is none of those in use.
pub free_ne :
    (x e j : ℕ)
    → x < 2 ^ 32
    → e < 2 ^ 32
    → sub32 e x < input_buf_size
    → j < sub32 e x
    → e % input_buf_size ≢ (x + j) % input_buf_size
free_ne x e j hx he room lt = λ same. omega (arith, same, hx, he, room, lt)

-- A character that is stored changes none of those before it.
pub slice-stored :
    (d : ℕ → ℕ) (x e k v : ℕ)
    → x < 2 ^ 32
    → e < 2 ^ 32
    → sub32 e x < input_buf_size
    → k ≤ sub32 e x
    → slice (cell (update d (e % input_buf_size) v)) x k ≡ slice (cell d) x k
slice-stored d x e k v hx he room le =
    slice-same (cell (update d (e % input_buf_size) v)) (cell d) x x k (λ j lt.
      update_ne d (e % input_buf_size) ((x + j) % input_buf_size) v
        (free_ne x e j hx he room (omega (arith, lt, le))))

-- It is appended to those from `x` on.
pub slice-stored_one :
    (d : ℕ → ℕ) (x e v : ℕ)
    → x < 2 ^ 32
    → e < 2 ^ 32
    → sub32 e x < input_buf_size
    → slice (cell (update d (e % input_buf_size) v)) x (sub32 (next32 e) x)
      ≡ slice (cell d) x (sub32 e x) ++ (v ∷ [])
slice-stored_one d x e v hx he room =
    ap (slice (cell g) x) {x = sub32 (next32 e) x} {y = sub32 e x + 1} (omega (arith, hx, he, room))
    ∙ slice-append (cell g) x (sub32 e x) 1
    ∙ ap₂ (λ p q. p ++ q) (slice-stored d x e (sub32 e x) v hx he room (omega arith))
        (ap (λ q. q ∷ []) last)
  where
    g : ℕ → ℕ
    g = update d (e % input_buf_size) v

    last : cell g (x + sub32 e x) ≡ v
    last =
        ap g {x = (x + sub32 e x) % input_buf_size} {y = e % input_buf_size} (omega (arith, hx, he))
        ∙ update_self d (e % input_buf_size) v

-- What lies between two counters, by a third between them
pub slice-split :
    (d : ℕ → ℕ) (r w e : ℕ)
    → r < 2 ^ 32
    → w < 2 ^ 32
    → e < 2 ^ 32
    → sub32 w r ≤ sub32 e r
    → slice (cell d) r (sub32 e r) ≡ slice (cell d) r (sub32 w r) ++ slice (cell d) w (sub32 e w)
slice-split d r w e hr hw he order =
    ap (slice (cell d) r) {x = sub32 e r} {y = sub32 w r + sub32 e w}
      (omega (arith, hr, hw, he, order))
    ∙ slice-append (cell d) r (sub32 w r) (sub32 e w)
    ∙ ap (λ q. slice (cell d) r (sub32 w r) ++ q)
        (sym (slice-wrap d (r + sub32 w r) (sub32 e w))
          ∙ ap (λ b. slice (cell d) b (sub32 e w)) {x = (r + sub32 w r) % 2 ^ 32} {y = w}
              (omega (arith, hr, hw)))
