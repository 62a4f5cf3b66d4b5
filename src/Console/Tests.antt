-- ===== src/Console/Tests.antt =====
-- Keys typed at a console, and what a process reads.
use xv6_riscv_zig.Prelude.{
  ℕ, zero, suc, ◌<◌, ◌≢◌, ◌+◌, ◌≡◌, refl, true, false, [], ◌∷◌, update, arith,
}
use xv6_riscv_zig.Console.{Console, consputc, rub_out, store_char, consoleintr, Reader, consoleread}
use xv6_riscv_zig.Console.Ring.{cell, IsConsole}
use xv6_riscv_zig.Console.View.{view, press}
use xv6_riscv_zig.Console.Typing.{consoleintr-press}
use xv6_riscv_zig.Console.Reading.{consoleread-EndsAs}
use xv6_riscv_zig.Console.Delivery.{EndsAs, deliver}

-- `cons` as the kernel starts
abbrev fresh : Console
fresh = record { buf = λ q. 0; r = 0; w = 0; e = 0; events = [] }

-- The counters are about to wrap, and `a` was typed.
abbrev late : Console
late = record { buf = update (λ q. 0) 127 97; r = 4294967295; w = 4294967295; e = 0; events = [] }

late_line : (j : ℕ) → j < 1 → cell late.buf (late.w + j) ≢ 10
late_line zero lt e = absurd (omega (arith, e))
late_line (suc j) lt e = absurd (omega (arith, lt))

late-IsConsole : IsConsole late
late-IsConsole = record {
  r_lt = omega arith;
  w_lt = omega arith;
  e_lt = omega arith;
  order = omega arith;
  fits = omega arith;
  one_line = late_line;
}

-- `a`, `b`, delete, `c` and return leave a complete line.
typed :
    view (consoleintr 13 (consoleintr 99 (consoleintr 127 (consoleintr 98 (consoleintr 97 fresh)))))
    ≡ record { ready = 97 ∷ 99 ∷ 10 ∷ []; line = [] }
unfolding consoleintr store_char rub_out consputc
typed = refl

consoleintr-press_example :
    IsConsole (consoleintr 13 late) × (view (consoleintr 13 late) ≡ press 13 (view late))
consoleintr-press_example = consoleintr-press 13 late late-IsConsole (omega arith)

-- `a` and a newline wait, and a counter wraps as they are read.
abbrev line_late : Console
line_late = record {
  buf = update (update (λ q. 0) 127 97) 0 10;
  r = 4294967295;
  w = 1;
  e = 1;
  events = [];
}

line_late-IsConsole : IsConsole line_late
line_late-IsConsole = record {
  r_lt = omega arith;
  w_lt = omega arith;
  e_lt = omega arith;
  order = omega arith;
  fits = omega arith;
  one_line = λ j lt. absurd (omega (arith, lt));
}

abbrev user : Reader
user = record { byte = λ q. 0; present = λ q. true }

consoleread-EndsAs_example :
    EndsAs line_late user false 40 0 9
      (deliver true 9 (view line_late).ready)
      (consoleread false 40 9 line_late user)
consoleread-EndsAs_example =
    consoleread-EndsAs false 40 9 line_late user line_late-IsConsole (λ q. refl)
