-- ===== src/Uart/Sending.antt =====
-- The characters that wait in the ring go to the device in their order.
use xv6_riscv_zig.Prelude.{
  ℕ, zero, suc, ◌+◌, ◌%◌, ◌^◌, ◌≤◌, ◌<◌, ◌≡◌, ◌≢◌, ◌⊎◌, refl, ap, ap₂, ◌∙◌, sym, Bool, false, List,
  [], ◌∷◌, ◌++◌, arith, length, length-slice, slice, slice-append, slice-same, update, update_self,
  update_ne, append_assoc, ◌==◌, ==_iff, Bool-cases, ne→==_false, inl, inr,
}
use xv6_riscv_zig.Uart.{
  Uart, uart_tx_buf_size, add64, sub64, send_char, start_loop, uartstart, Put, done, sleeps, spins,
  uartputc,
}

-- The ring as a memory without an end
abbrev pub cell : (ℕ → ℕ) → ℕ → ℕ
cell d i = d (i % uart_tx_buf_size)

-- The characters that wait
abbrev pub waiting : Uart → List ℕ
waiting s = slice (cell s.uart_tx_buf) s.uart_tx_r (sub64 s.uart_tx_w s.uart_tx_r)

-- The counters are 64-bit numbers at most `uart_tx_buf_size` apart.
pub record IsUart (s : Uart) : Type 0 where
  pub w_lt : s.uart_tx_w < 2 ^ 64
  pub r_lt : s.uart_tx_r < 2 ^ 64
  pub fits : sub64 s.uart_tx_w s.uart_tx_r ≤ uart_tx_buf_size

-- The counters wrap at a multiple of the ring's size.
slice-wrap : (d : ℕ → ℕ) (r k : ℕ) → slice (cell d) (r % 2 ^ 64) k ≡ slice (cell d) r k
slice-wrap d r zero = refl
slice-wrap d r (suc k) =
    ap₂ (λ b q. d b ∷ q) (omega arith)
      (sym (slice-wrap d (r % 2 ^ 64 + 1) k)
        ∙ ap (λ b. slice (cell d) b k) {x = (r % 2 ^ 64 + 1) % 2 ^ 64} {y = (r + 1) % 2 ^ 64}
            (omega arith)
        ∙ slice-wrap d (r + 1) k)

-- All characters go on in their order, and the loop ends with none left or with the device busy.
pub record Passed (idle : ℕ → Bool) (s t : Uart) : Type 0 where
  pub is_uart : IsUart t
  pub order : t.thr ++ waiting t ≡ s.thr ++ waiting s
  pub stops : (waiting t ≡ []) ⊎ (idle (length (waiting t)) ≡ false)

waiting-first :
    (s : Uart)
    → IsUart s
    → s.uart_tx_w ≢ s.uart_tx_r
    → waiting s ≡ cell s.uart_tx_buf s.uart_tx_r ∷ waiting (send_char s)
unfolding send_char
waiting-first s ok ne =
    ap (slice (cell s.uart_tx_buf) s.uart_tx_r) {x = sub64 s.uart_tx_w s.uart_tx_r}
      {y = suc (sub64 s.uart_tx_w (add64 s.uart_tx_r 1))} (omega (arith, ok.r_lt, ok.w_lt, ne))
    ∙ ap (λ l. cell s.uart_tx_buf s.uart_tx_r ∷ l)
        (sym (slice-wrap s.uart_tx_buf (s.uart_tx_r + 1) (sub64 s.uart_tx_w (add64 s.uart_tx_r 1))))

send_char-IsUart : (s : Uart) → IsUart s → s.uart_tx_w ≢ s.uart_tx_r → IsUart (send_char s)
unfolding send_char
send_char-IsUart s ok ne = record {
  w_lt = ok.w_lt;
  r_lt = omega arith;
  fits = omega (arith, ok.r_lt, ok.w_lt, ok.fits, ne);
}

send_char-order :
    (s : Uart)
    → IsUart s
    → s.uart_tx_w ≢ s.uart_tx_r
    → (send_char s).thr ++ waiting (send_char s) ≡ s.thr ++ waiting s
unfolding send_char
send_char-order s ok ne =
    append_assoc s.thr (cell s.uart_tx_buf s.uart_tx_r ∷ []) (waiting (send_char s))
    ∙ ap (λ l. s.thr ++ l) (sym (waiting-first s ok ne))

pub start_loop-Passed :
    (idle : ℕ → Bool) (k : ℕ) (s : Uart)
    → IsUart s
    → sub64 s.uart_tx_w s.uart_tx_r ≡ k
    → Passed idle s (start_loop idle k s)
unfolding start_loop send_char
start_loop-Passed idle zero s ok len = record {
  is_uart = ok;
  order = refl;
  stops = inl (ap (slice (cell s.uart_tx_buf) s.uart_tx_r) len);
}
start_loop-Passed idle (suc k) s ok len = elim (Bool-cases (idle (suc k))) [
  | inl ready ↦
      rw (more, ready)
        (goes (start_loop-Passed idle k (send_char s) (send_char-IsUart s ok ne) less))
  | inr busy ↦
      rw (more, busy) (record { is_uart = ok; order = refl; stops = inr (ap idle size ∙ busy) })
]
  where
    ne : s.uart_tx_w ≢ s.uart_tx_r
    ne same = omega (arith, same, ok.r_lt, len)

    more : (s.uart_tx_w == s.uart_tx_r) ≡ false
    more = ne→==_false s.uart_tx_w s.uart_tx_r ne

    size : length (waiting s) ≡ suc k
    size = length-slice (cell s.uart_tx_buf) s.uart_tx_r (sub64 s.uart_tx_w s.uart_tx_r) ∙ len

    less : sub64 (send_char s).uart_tx_w (send_char s).uart_tx_r ≡ k
    less = omega (arith, len, ok.r_lt, ok.w_lt)

    goes : {t : Uart} → Passed idle (send_char s) t → Passed idle s t
    goes p = record {
      is_uart = p.is_uart;
      order = p.order ∙ send_char-order s ok ne;
      stops = p.stops;
    }

-- The state between the two halves of `uartputc`
put : ℕ → Uart → Uart
put c s = record s {
  uart_tx_buf = update s.uart_tx_buf (s.uart_tx_w % uart_tx_buf_size) (c % 256);
  uart_tx_w = add64 s.uart_tx_w 1;
}

put-IsUart :
    (c : ℕ) (s : Uart)
    → IsUart s
    → s.uart_tx_w ≢ add64 s.uart_tx_r uart_tx_buf_size
    → IsUart (put c s)
unfolding put
put-IsUart c s ok room = record {
  w_lt = omega arith;
  r_lt = ok.r_lt;
  fits = omega (arith, ok.r_lt, ok.w_lt, ok.fits, room);
}

waiting-put :
    (c : ℕ) (s : Uart)
    → IsUart s
    → s.uart_tx_w ≢ add64 s.uart_tx_r uart_tx_buf_size
    → c < 256
    → waiting (put c s) ≡ waiting s ++ (c ∷ [])
unfolding put
waiting-put c s ok room small =
    ap (slice (cell d) s.uart_tx_r) {x = sub64 (add64 s.uart_tx_w 1) s.uart_tx_r} {y = len + 1}
      (omega (arith, ok.r_lt, ok.w_lt, ok.fits, room))
    ∙ slice-append (cell d) s.uart_tx_r len 1
    ∙ ap₂ (λ p q. p ++ (q ∷ []))
        (slice-same (cell d) (cell s.uart_tx_buf) s.uart_tx_r s.uart_tx_r len (λ j lt.
          update_ne s.uart_tx_buf (s.uart_tx_w % uart_tx_buf_size)
            ((s.uart_tx_r + j) % uart_tx_buf_size) (c % 256)
            (λ same. omega (arith, same, ok.r_lt, ok.w_lt, ok.fits, room, lt))))
        last
  where
    d : ℕ → ℕ
    d = update s.uart_tx_buf (s.uart_tx_w % uart_tx_buf_size) (c % 256)

    len : ℕ
    len = sub64 s.uart_tx_w s.uart_tx_r

    last : cell d (s.uart_tx_r + len) ≡ c
    last =
        ap d {x = (s.uart_tx_r + len) % uart_tx_buf_size} {y = s.uart_tx_w % uart_tx_buf_size}
          (omega (arith, ok.r_lt, ok.w_lt))
        ∙ update_self s.uart_tx_buf (s.uart_tx_w % uart_tx_buf_size) (c % 256)
        ∙ omega (arith, small)

-- How a run of `uartputc` ends: all characters, `c` behind them, are sent or wait in their order,
-- and none waits unless the device is busy; or the ring is full and nothing has changed.
abbrev pub PutsAs : (ℕ → Bool) → ℕ → Uart → Put → Type 0
PutsAs idle c s (done t) =
    IsUart t
    × (t.thr ++ waiting t ≡ s.thr ++ (waiting s ++ (c ∷ [])))
    × ((waiting t ≡ []) ⊎ (idle (length (waiting t)) ≡ false))
PutsAs idle c s (sleeps t) = (t ≡ s) × (length (waiting s) ≡ uart_tx_buf_size)
PutsAs idle c s spins = ⊥

-- In a well-formed transmit ring, and where the kernel has not panicked, `uartputc` of a byte puts it
-- behind all characters sent or waiting, whose order is kept, and returns with none waiting unless
-- the device is busy; where 32 characters wait it sleeps, with nothing changed.
pub uartputc-PutsAs :
    (idle : ℕ → Bool) (c : ℕ) (s : Uart)
    → IsUart s
    → c < 256
    → PutsAs idle c s (uartputc false idle c s)
unfolding uartputc uartstart put
uartputc-PutsAs idle c s ok small =
    elim (Bool-cases (s.uart_tx_w == add64 s.uart_tx_r uart_tx_buf_size)) [
      | inl full ↦
          let at : s.uart_tx_w ≡ add64 s.uart_tx_r uart_tx_buf_size =
            (==_iff s.uart_tx_w (add64 s.uart_tx_r uart_tx_buf_size)).0 full in
          rw full (
            refl,
            length-slice (cell s.uart_tx_buf) s.uart_tx_r (sub64 s.uart_tx_w s.uart_tx_r)
                ∙ omega (arith, at, ok.r_lt),
          )
      | inr room ↦
          let ne : s.uart_tx_w ≢ add64 s.uart_tx_r uart_tx_buf_size =
            λ same. cc ((==_iff s.uart_tx_w (add64 s.uart_tx_r uart_tx_buf_size)).1 same, room) in
          let p =
            start_loop-Passed idle (sub64 (put c s).uart_tx_w s.uart_tx_r) (put c s)
              (put-IsUart c s ok ne) refl in
          rw room (p.is_uart, p.order ∙ ap (λ l. s.thr ++ l) (waiting-put c s ok ne small), p.stops)
    ]
