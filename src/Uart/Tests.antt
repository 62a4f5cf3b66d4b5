-- ===== src/Uart/Tests.antt =====
-- A character is put into a ring whose counters are about to wrap.
use xv6_riscv_zig.Prelude.{ℕ, ◌≡◌, refl, Bool, false, List, [], ◌∷◌, update, ltb, arith}
use xv6_riscv_zig.Uart.{Uart, send_char, start_loop, uartstart, uartputc, uartintr}
use xv6_riscv_zig.Uart.Sending.{IsUart, Passed, PutsAs, uartputc-PutsAs}
use xv6_riscv_zig.Uart.Input.{press_all, AreBytes, uartintr-press_all}
use xv6_riscv_zig.Console.{Console}
use xv6_riscv_zig.Console.Ring.{IsConsole}
use xv6_riscv_zig.Console.View.{view}

-- Two characters wait.
abbrev late : Uart
late = record {
  uart_tx_buf = update (update (λ q. 0) 30 97) 31 98;
  uart_tx_w = 0;
  uart_tx_r = 18446744073709551614;
  thr = [];
  wakeups = 0;
}

late-IsUart : IsUart late
late-IsUart = record { w_lt = omega arith; r_lt = omega arith; fits = omega arith }

-- The device is idle while more than one character waits.
abbrev while_two : ℕ → Bool
while_two k = ltb 1 k

sends_one : (uartstart while_two late).thr ≡ 97 ∷ []
unfolding uartstart start_loop send_char
sends_one = refl

uartputc-PutsAs_example : PutsAs while_two 99 late (uartputc false while_two 99 late)
uartputc-PutsAs_example = uartputc-PutsAs while_two 99 late late-IsUart (omega arith)

-- The console as the kernel starts
abbrev fresh : Console
fresh = record { buf = λ q. 0; r = 0; w = 0; e = 0; events = [] }

fresh-IsConsole : IsConsole fresh
fresh-IsConsole = record {
  r_lt = omega arith;
  w_lt = omega arith;
  e_lt = omega arith;
  order = omega arith;
  fits = omega arith;
  one_line = λ j lt. absurd (omega (arith, lt));
}

-- `a`, delete and return
abbrev keys : List ℕ
keys = 97 ∷ 127 ∷ 13 ∷ []

keys-AreBytes : AreBytes keys
keys-AreBytes = (omega arith, (omega arith, (omega arith, tt)))

uartintr-press_all_example :
    IsConsole (uartintr keys while_two fresh late).0
    × (view (uartintr keys while_two fresh late).0 ≡ press_all keys (view fresh))
    × Passed while_two late (uartintr keys while_two fresh late).1
uartintr-press_all_example =
    uartintr-press_all keys while_two fresh late fresh-IsConsole keys-AreBytes late-IsUart
