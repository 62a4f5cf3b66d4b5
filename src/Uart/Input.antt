-- ===== src/Uart/Input.antt =====
-- What an interrupt of the UART does to the console and to the transmit ring.
use xv6_riscv_zig.Prelude.{ℕ, ◌<◌, ◌≡◌, refl, ap, ◌∙◌, Bool, List, [], ◌∷◌}
use xv6_riscv_zig.Console.{Console, consoleintr}
use xv6_riscv_zig.Console.Ring.{IsConsole}
use xv6_riscv_zig.Console.View.{Typed, view, press}
use xv6_riscv_zig.Console.Typing.{consoleintr-press}
use xv6_riscv_zig.Uart.{Uart, input_loop, uartstart, uartintr, sub64}
use xv6_riscv_zig.Uart.Sending.{IsUart, Passed, start_loop-Passed}

-- The keys are pressed one after the other.
abbrev pub press_all : List ℕ → Typed → Typed
press_all [] t = t
press_all (c ∷ keys) t = press_all keys (press c t)

abbrev pub AreBytes : List ℕ → Type 0
AreBytes [] = Unit
AreBytes (c ∷ keys) = (c < 256) × AreBytes keys

input_loop-press_all :
    (keys : List ℕ) (cons : Console)
    → IsConsole cons
    → AreBytes keys
    → IsConsole (input_loop keys cons) × (view (input_loop keys cons) ≡ press_all keys (view cons))
unfolding input_loop
input_loop-press_all [] cons ok bytes = (ok, refl)
input_loop-press_all (c ∷ keys) cons ok (small, bytes) =
    let (one, seen) = consoleintr-press c cons ok small in
    let (all, same) = input_loop-press_all keys (consoleintr c cons) one bytes in
    (all, same ∙ ap (press_all keys) seen)

-- In a well-formed console and transmit ring, an interrupt of the UART presses the keys that wait in
-- the device one after the other, in their order, and passes characters from the ring to the device,
-- in their order, until none waits or the device is busy. Both stay well-formed.
pub uartintr-press_all :
    (keys : List ℕ) (idle : ℕ → Bool) (cons : Console) (s : Uart)
    → IsConsole cons
    → AreBytes keys
    → IsUart s
    → IsConsole (uartintr keys idle cons s).0
      × (view (uartintr keys idle cons s).0 ≡ press_all keys (view cons))
      × Passed idle s (uartintr keys idle cons s).1
unfolding uartintr uartstart
uartintr-press_all keys idle cons s ok bytes valid =
    let (all, same) = input_loop-press_all keys cons ok bytes in
    (all, same, start_loop-Passed idle (sub64 s.uart_tx_w s.uart_tx_r) s valid refl)
