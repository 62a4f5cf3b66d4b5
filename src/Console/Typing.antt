-- ===== src/Console/Typing.antt =====
-- What `consoleintr` does to the lines typed, against a description on lists.
use xv6_riscv_zig.Prelude.{
  ℕ, zero, suc, ◌+◌, ◌-◌, ◌%◌, ◌<◌, ◌≡◌, ◌≢◌, refl, ap, ap₂, ◌∙◌, sym, [], arith, length, take,
  slice, length-slice, take-slice, Bool-cases, ==_iff, ne→==_false, ◌==◌, ◌&&◌, ◌||◌, not, ltb,
  if◌then◌else◌, inl, inr, false,
}
use xv6_riscv_zig.Console.{
  Console, input_buf_size, sub32, consputc, rub_out, kill_line, consoleintr, ctrl_h, ctrl_p, ctrl_u,
}
use xv6_riscv_zig.Console.Ring.{cell, IsConsole}
use xv6_riscv_zig.Console.View.{view, press}
use xv6_riscv_zig.Console.Storing.{store_char-IsConsole}

rub_out-IsConsole : (s : Console) → IsConsole s → s.e ≢ s.w → IsConsole (rub_out s)
unfolding rub_out consputc
rub_out-IsConsole s ok ne = record {
  r_lt = ok.r_lt;
  w_lt = ok.w_lt;
  e_lt = omega arith;
  order = omega (arith, ok.r_lt, ok.w_lt, ok.e_lt, ok.order, ok.fits, ne);
  fits = omega (arith, ok.r_lt, ok.w_lt, ok.e_lt, ok.order, ok.fits, ne);
  one_line = λ j lt. ok.one_line j (omega (arith, ok.w_lt, ok.e_lt, ne, lt));
}

rub_out-line :
    (s : Console)
    → IsConsole s
    → s.e ≢ s.w
    → (view (rub_out s)).line ≡ take (length (view s).line - 1) (view s).line
unfolding rub_out consputc
rub_out-line s ok ne =
    ap (slice (cell s.buf) s.w) {x = sub32 (sub32 s.e 1) s.w} {y = sub32 s.e s.w - 1}
      (omega (arith, ok.w_lt, ok.e_lt, ne))
    ∙ sym (take-slice (cell s.buf) s.w (sub32 s.e s.w - 1) (sub32 s.e s.w) (omega arith))
    ∙ ap (λ k. take (k - 1) (view s).line) (sym (length-slice (cell s.buf) s.w (sub32 s.e s.w)))

-- The loop of control-U ends with the line erased and nothing else changed.
record Erased (s t : Console) : Type 0 where
  buf : t.buf ≡ s.buf
  r : t.r ≡ s.r
  w : t.w ≡ s.w
  e : t.e ≡ s.w

kill_line-Erased :
    (k : ℕ) (s : Console) → IsConsole s → sub32 s.e s.w ≡ k → Erased s (kill_line k s)
unfolding kill_line rub_out consputc
kill_line-Erased zero s ok len = record {
  buf = refl;
  r = refl;
  w = refl;
  e = omega (arith, ok.w_lt, ok.e_lt, len);
}
kill_line-Erased (suc k) s ok len =
    rw (more, text)
      (let ih =
          kill_line-Erased k (rub_out s) (rub_out-IsConsole s ok ne)
            (omega (arith, ok.w_lt, ok.e_lt, len)) in
        record { buf = ih.buf; r = ih.r; w = ih.w; e = ih.e })
  where
    ne : s.e ≢ s.w
    ne same = omega (arith, ok.w_lt, same, len)

    more : (s.e == s.w) ≡ false
    more = ground arith

    other : s.buf (sub32 s.e 1 % input_buf_size) ≢ 10
    other same = ok.one_line k (omega (arith, len)) (
        ap s.buf {x = (s.w + k) % input_buf_size} {y = sub32 s.e 1 % input_buf_size}
          (omega (arith, ok.w_lt, ok.e_lt, len))
        ∙ same)

    text : (s.buf (sub32 s.e 1 % input_buf_size) == 10) ≡ false
    text = ne→==_false (s.buf (sub32 s.e 1 % input_buf_size)) 10 other

Erased-view :
    (s : Console)
    → IsConsole s
    → (t : Console) → Erased s t
    → IsConsole t × (view t ≡ record { ready = (view s).ready; line = [] })
Erased-view s ok t d = (
  record {
    r_lt = omega (arith, d.r, ok.r_lt);
    w_lt = omega (arith, d.w, ok.w_lt);
    e_lt = omega (arith, d.e, ok.w_lt);
    order = omega (arith, d.r, d.w, d.e);
    fits = omega (arith, d.r, d.e, ok.order, ok.fits);
    one_line = λ j lt. absurd (omega (arith, d.w, d.e, lt));
  },
  λ i. record { ready = same i; line = none_left i },
)
  where
    same : (view t).ready ≡ (view s).ready
    same = λ i. slice (cell (d.buf i)) (d.r i) (sub32 (d.w i) (d.r i))

    none_left : (view t).line ≡ []
    none_left =
        ap (slice (cell t.buf) t.w) {x = sub32 t.e t.w} {y = 0} (omega (arith, d.w, d.e, ok.w_lt))

-- In a well-formed console, each key that the UART delivers (`c` below 256) leaves the console
-- well-formed and changes the text typed as `press` describes: control-U erases the line that is
-- edited and no more, control-H and delete its last character, and a character is appended while
-- fewer than 128 wait, which completes the line with a newline, control-D, or the 128th.
pub consoleintr-press :
    (c : ℕ) (s : Console)
    → IsConsole s
    → c < 256
    → IsConsole (consoleintr c s) × (view (consoleintr c s) ≡ press c (view s))
unfolding consoleintr rub_out consputc
consoleintr-press c s ok small = elim (Bool-cases (c == ctrl_p)) [
  | inl p ↦ rw p (
    record {
      r_lt = ok.r_lt;
      w_lt = ok.w_lt;
      e_lt = ok.e_lt;
      order = ok.order;
      fits = ok.fits;
      one_line = ok.one_line;
    },
    refl,
  )
  | inr not_p ↦ elim (Bool-cases (c == ctrl_u)) [
    | inl u ↦
        rw (not_p, u)
          (Erased-view s ok (kill_line (sub32 s.e s.w) s)
            (kill_line-Erased (sub32 s.e s.w) s ok refl))
    | inr not_u ↦ elim (Bool-cases (c == ctrl_h || c == 127)) [
      | inl h ↦ elim (Bool-cases (s.e == s.w)) [
        | inl empty ↦
            rw (not_p, not_u, h, empty)
              (
                ok,
                λ i. record {
                  ready = (view s).ready;
                  line = empty_line ((==_iff s.e s.w).0 empty) i;
                },
              )
        | inr ne ↦
            rw (not_p, not_u, h, ne)
              (rub_out-IsConsole s ok (==_false→ne ne), rubbed (==_false→ne ne))
      ]
      | inr not_h ↦
          rw (not_p, not_u, not_h, lengths)
            (elim (Bool-cases (not (c == 0) && ltb (sub32 s.e s.r) input_buf_size)) [
              | inl go ↦ rw go (
                  store_char-IsConsole (if c == 13 then 10 else c) s ok (ground arith)
                    (ground arith))
              | inr stop ↦ rw stop (ok, refl)
            ])
    ]
  ]
]
  where
    lengths : length (view s).ready + length (view s).line ≡ sub32 s.e s.r
    lengths =
        ap₂ (λ a b. a + b) (length-slice (cell s.buf) s.r (sub32 s.w s.r))
          (length-slice (cell s.buf) s.w (sub32 s.e s.w))
        ∙ omega (arith, ok.r_lt, ok.w_lt, ok.e_lt, ok.order)

    no_line : s.e ≡ s.w → (view s).line ≡ []
    no_line same =
        ap (slice (cell s.buf) s.w) {x = sub32 s.e s.w} {y = 0} (omega (arith, same, ok.w_lt))

    empty_line : s.e ≡ s.w → (view s).line ≡ take (length (view s).line - 1) (view s).line
    empty_line same = no_line same ∙ sym (ap (λ l. take (length l - 1) l) (no_line same))

    ==_false→ne : (s.e == s.w) ≡ false → s.e ≢ s.w
    ==_false→ne h same = cc ((==_iff s.e s.w).1 same, h)

    rubbed :
        s.e ≢ s.w
        → view (rub_out s)
          ≡ record { ready = (view s).ready; line = take (length (view s).line - 1) (view s).line }
    rubbed ne = λ i. record { ready = (view s).ready; line = rub_out-line s ok ne i }
