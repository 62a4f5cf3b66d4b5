-- ===== src/Console/View.antt =====
-- The text typed at a console as lists, and what keys are meant to do to it.
use xv6_riscv_zig.Prelude.{
  ℕ, ◌+◌, ◌-◌, List, [], ◌∷◌, ◌++◌, length, take, slice, ◌==◌, ◌&&◌, ◌||◌, not, ltb, if◌then◌else◌,
}
use xv6_riscv_zig.Console.{Console, input_buf_size, sub32, ctrl_d, ctrl_h, ctrl_p, ctrl_u}
use xv6_riscv_zig.Console.Ring.{cell}

-- What was typed and not read yet: the lines that are complete, and the one that is still edited
pub record Typed : Type 0 where
  pub ready : List ℕ
  pub line : List ℕ

abbrev pub view : Console → Typed
view s = record {
  ready = slice (cell s.buf) s.r (sub32 s.w s.r);
  line = slice (cell s.buf) s.w (sub32 s.e s.w);
}

-- A character is appended to the line, which is complete with a newline, an end of file, or when no
-- more characters fit.
abbrev pub append_char : ℕ → Typed → Typed
append_char c t =
    let line = t.line ++ (c ∷ []) in
    if c == 10 || c == ctrl_d || length (t.ready ++ line) == input_buf_size
    then record { ready = t.ready ++ line; line = [] }
    else record { ready = t.ready; line = line }

-- A key as the user sees it: control-P changes nothing, control-U erases the line, control-H and
-- delete erase its last character, and any other key appends a character while one fits.
abbrev pub press : ℕ → Typed → Typed
press c t =
    if c == ctrl_p
    then t
    else (if c == ctrl_u
        then record t { line = [] }
        else (if c == ctrl_h || c == 127
            then record t { line = take (length t.line - 1) t.line }
            else (if not (c == 0) && ltb (length t.ready + length t.line) input_buf_size
                then append_char (if c == 13 then 10 else c) t
                else t)))
