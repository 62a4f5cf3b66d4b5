-- ===== src/Uart.antt =====
-- kernel/uart.c: characters that wait in a ring until the device can send them. Each call holds
-- `uart_tx_lock`, `uartputc` up to where it sleeps.
pub mod Sending
pub mod Input
mod Tests
use xv6_riscv_zig.Prelude.{
  ℕ, zero, suc, ◌+◌, ◌-◌, ◌%◌, ◌^◌, Bool, true, false, not, List, [], ◌∷◌, ◌++◌, ◌==◌,
  if◌then◌else◌, update,
}
use xv6_riscv_zig.Console.{Console, consoleintr}

abbrev pub uart_tx_buf_size : ℕ
uart_tx_buf_size = 32

-- The transmit ring, with the characters that `uartstart` wrote to the device's register THR so far
-- and the number of calls of `wakeup`
pub record Uart : Type 0 where
  pub uart_tx_buf : ℕ → ℕ
  pub uart_tx_w : ℕ
  pub uart_tx_r : ℕ
  pub thr : List ℕ
  pub wakeups : ℕ

-- `x + k` and `x - y` on `uint64`
abbrev pub add64 : ℕ → ℕ → ℕ
add64 x k = (x + k) % 2 ^ 64

abbrev pub sub64 : ℕ → ℕ → ℕ
sub64 x y = (x + (2 ^ 64 - y)) % 2 ^ 64

-- The end of a round of `uartstart`
pub send_char : Uart → Uart
send_char s = record s {
  uart_tx_r = add64 s.uart_tx_r 1;
  thr = s.thr ++ (s.uart_tx_buf (s.uart_tx_r % uart_tx_buf_size) ∷ []);
  wakeups = s.wakeups + 1;
}

-- The loop of `uartstart`, in at most `k` rounds. `idle k` is what the device's register LSR says
-- in the round that has `k` characters left.
pub start_loop : (ℕ → Bool) → ℕ → Uart → Uart
unfolding send_char
start_loop idle zero s = s
start_loop idle (suc k) s =
    let rest = start_loop idle k (send_char s) in
    if s.uart_tx_w == s.uart_tx_r then s else (if not (idle (suc k)) then s else rest)

-- Each round takes one of the characters that wait, so that this many rounds are enough.
pub uartstart : (ℕ → Bool) → Uart → Uart
unfolding start_loop
uartstart idle s = start_loop idle (sub64 s.uart_tx_w s.uart_tx_r) s

-- The end of a run of `uartputc`: it returns, it sleeps to try again when it wakes, or it spins for
-- ever behind a panic.
pub data Put : Type 0 where
  done : Uart → Put
  sleeps : Uart → Put
  spins : Put

pub uartputc : Bool → (ℕ → Bool) → ℕ → Uart → Put
unfolding uartstart
uartputc panicked idle c s =
    if panicked
    then spins
    else (if s.uart_tx_w == add64 s.uart_tx_r uart_tx_buf_size
        then sleeps s
        else done (
            uartstart idle (record s {
              uart_tx_buf = update s.uart_tx_buf (s.uart_tx_w % uart_tx_buf_size) (c % 256);
              uart_tx_w = add64 s.uart_tx_w 1;
            })))

-- The loop of `uartintr`, which reads `keys` from the device until `uartgetc` returns -1
pub input_loop : List ℕ → Console → Console
input_loop [] cons = cons
input_loop (c ∷ keys) cons = input_loop keys (consoleintr c cons)

pub uartintr : List ℕ → (ℕ → Bool) → Console → Uart → Console × Uart
unfolding input_loop uartstart
uartintr keys idle cons s = (input_loop keys cons, uartstart idle s)
