-- ===== src/Console/Storing.antt =====
-- What storing a character does to the text typed.
use xv6_riscv_zig.Prelude.{
  ℕ, ◌+◌, ◌%◌, ◌^◌, ◌<◌, ◌≡◌, ◌≢◌, ap, ap₂, ◌∙◌, sym, [], ◌∷◌, ◌++◌, arith, length, slice,
  length-slice, update, update_ne, update_self, append_assoc, Bool-cases, ==_iff, ◌==◌, ◌||◌, inl,
  inr, false,
}
use xv6_riscv_zig.Console.{
  Console, input_buf_size, sub32, next32, consputc, store_char, ctrl_d, backspace,
}
use xv6_riscv_zig.Console.Ring.{
  cell, IsConsole, free_ne, slice-stored, slice-stored_one, slice-split,
}
use xv6_riscv_zig.Console.View.{view, append_char}

near : (s : Console) → IsConsole s → sub32 s.e s.r < input_buf_size → sub32 s.e s.w < input_buf_size
near s ok room = omega (arith, ok.r_lt, ok.w_lt, ok.e_lt, ok.order, room)

below_last :
    (w e j : ℕ)
    → w < 2 ^ 32
    → e < 2 ^ 32
    → sub32 e w < input_buf_size
    → j < sub32 (next32 e) w
    → (j == sub32 e w) ≡ false
    → j < sub32 e w
below_last w e j hw he room lt other = omega (arith, hw, he, room, lt, apart)
  where
    apart : j ≢ sub32 e w
    apart same = cc ((==_iff j (sub32 e w)).1 same, other)

-- A character that is no newline leaves the line without one.
stored-one_line :
    (s : Console) (v j : ℕ)
    → IsConsole s
    → sub32 s.e s.r < input_buf_size
    → v ≢ 10
    → j < sub32 (next32 s.e) s.w
    → cell (update s.buf (s.e % input_buf_size) v) (s.w + j) ≢ 10
stored-one_line s v j ok room ne lt = elim (Bool-cases (j == sub32 s.e s.w)) [
  | inl last ↦
      let at : j ≡ sub32 s.e s.w = (==_iff j (sub32 s.e s.w)).0 last in
      λ same. ne (
        sym (update_self s.buf (s.e % input_buf_size) v)
        ∙ ap (update s.buf (s.e % input_buf_size) v) {x = s.e % input_buf_size}
            {y = (s.w + j) % input_buf_size} (omega (arith, at, ok.w_lt, ok.e_lt))
        ∙ same)
  | inr before ↦
      let below : j < sub32 s.e s.w =
        below_last s.w s.e j ok.w_lt ok.e_lt (near s ok room) lt before in
      λ same. ok.one_line j below (
        sym (
          update_ne s.buf (s.e % input_buf_size) ((s.w + j) % input_buf_size) v
            (free_ne s.w s.e j ok.w_lt ok.e_lt (near s ok room) below))
        ∙ same)
]

pub store_char-IsConsole :
    (c : ℕ) (s : Console)
    → IsConsole s
    → c < 256
    → sub32 s.e s.r < input_buf_size
    → IsConsole (store_char c s) × (view (store_char c s) ≡ append_char c (view s))
unfolding store_char consputc
store_char-IsConsole c s ok small room =
    rw (plain, full)
      (elim (Bool-cases (c == 10 || c == ctrl_d || sub32 (next32 s.e) s.r == input_buf_size)) [
        | inl done ↦ rw done (
          record {
            r_lt = ok.r_lt;
            w_lt = omega arith;
            e_lt = omega arith;
            order = omega arith;
            fits = omega (arith, ok.r_lt, ok.e_lt, room);
            one_line = λ j lt. omega (arith, lt);
          },
          λ i. record { ready = all i; line = none_left i },
        )
        | inr more ↦ rw more (
          record {
            r_lt = ok.r_lt;
            w_lt = ok.w_lt;
            e_lt = omega arith;
            order = omega (arith, ok.r_lt, ok.w_lt, ok.e_lt, room, ok.order);
            fits = omega (arith, ok.r_lt, ok.e_lt, room);
            one_line = λ j lt. stored-one_line s (c % 256) j ok room (not_newline more) lt;
          },
          λ i. record { ready = kept i; line = longer i },
        )
      ])
  where
    g : ℕ → ℕ
    g = update s.buf (s.e % input_buf_size) (c % 256)

    none_left : slice (cell g) (next32 s.e) (sub32 (next32 s.e) (next32 s.e)) ≡ []
    none_left =
        ap (slice (cell g) (next32 s.e)) {x = sub32 (next32 s.e) (next32 s.e)} {y = 0} (omega arith)

    kept : slice (cell g) s.r (sub32 s.w s.r) ≡ (view s).ready
    kept = slice-stored s.buf s.r s.e (sub32 s.w s.r) (c % 256) ok.r_lt ok.e_lt room ok.order

    longer : slice (cell g) s.w (sub32 (next32 s.e) s.w) ≡ (view s).line ++ (c ∷ [])
    longer =
        slice-stored_one s.buf s.w s.e (c % 256) ok.w_lt ok.e_lt (near s ok room)
        ∙ ap (λ q. (view s).line ++ (q ∷ [])) {x = c % 256} {y = c} (omega (arith, small))

    not_newline :
        c == 10 || c == ctrl_d || sub32 (next32 s.e) s.r == input_buf_size ≡ false → c % 256 ≢ 10
    not_newline more same = ground arith

    plain : (c == backspace) ≡ false
    plain = ground arith

    all :
        slice (cell g) s.r (sub32 (next32 s.e) s.r) ≡ (view s).ready ++ ((view s).line ++ (c ∷ []))
    all =
        slice-stored_one s.buf s.r s.e (c % 256) ok.r_lt ok.e_lt room
        ∙ ap₂ (λ p q. p ++ (q ∷ []))
            (slice-split s.buf s.r s.w s.e ok.r_lt ok.w_lt ok.e_lt ok.order) (omega (arith, small))
        ∙ append_assoc (view s).ready (view s).line (c ∷ [])

    full : length ((view s).ready ++ ((view s).line ++ (c ∷ []))) ≡ sub32 (next32 s.e) s.r
    full = sym (ap length all) ∙ length-slice (cell g) s.r (sub32 (next32 s.e) s.r)
