-- ===== src/Console.antt =====
-- kernel/console.c: lines that are typed and edited in a ring, and read by a process. The calls
-- hold the console's lock, `consoleread` up to where it sleeps.
pub mod Ring
pub mod View
pub mod Storing
pub mod Typing
pub mod Delivery
pub mod Reading
mod Tests
use xv6_riscv_zig.Prelude.{
  ℕ, zero, suc, ◌+◌, ◌-◌, ◌%◌, ◌^◌, Bool, true, false, ◌&&◌, ◌||◌, not, List, [], ◌∷◌, ltb, leb,
  ◌==◌, if◌then◌else◌, update,
}

abbrev pub input_buf_size : ℕ
input_buf_size = 128

-- `BACKSPACE`
abbrev pub backspace : ℕ
backspace = 256

-- `C('D')`, `C('H')`, `C('P')` and `C('U')`
abbrev pub ctrl_d : ℕ
ctrl_d = 4

abbrev pub ctrl_h : ℕ
ctrl_h = 8

abbrev pub ctrl_p : ℕ
ctrl_p = 16

abbrev pub ctrl_u : ℕ
ctrl_u = 21

-- What the console does to the outside: a character goes to the UART, the process list is printed,
-- the readers are woken.
pub data Event : Type 0 where
  sent : ℕ → Event
  dumped : Event
  woke : Event

-- `cons`, with what it did so far, the last event first. Entries of `buf` from `input_buf_size` on
-- do not exist.
pub record Console : Type 0 where
  pub buf : ℕ → ℕ
  pub r : ℕ
  pub w : ℕ
  pub e : ℕ
  pub events : List Event

-- `x - y` and `x + 1` on `uint`
abbrev pub sub32 : ℕ → ℕ → ℕ
sub32 x y = (x + (2 ^ 32 - y)) % 2 ^ 32

abbrev pub next32 : ℕ → ℕ
next32 x = (x + 1) % 2 ^ 32

pub consputc : ℕ → Console → Console
consputc c s =
    if c == backspace
    then record s { events = sent 8 ∷ sent 32 ∷ sent 8 ∷ s.events }
    else record s { events = sent c ∷ s.events }

-- The body of `case C('H')`, and of the loop of `case C('U')`
pub rub_out : Console → Console
unfolding consputc
rub_out s = consputc backspace (record s { e = sub32 s.e 1 })

-- The loop of `case C('U')`, in at most `k` rounds
pub kill_line : ℕ → Console → Console
unfolding rub_out
kill_line zero s = s
kill_line (suc k) s =
    let rest = kill_line k (rub_out s) in
    if not (s.e == s.w) && not (s.buf (sub32 s.e 1 % input_buf_size) == 10) then rest else s

-- The `default` case behind its test: a character is echoed and stored.
pub store_char : ℕ → Console → Console
unfolding consputc
store_char c s =
    let s1 = consputc c s in
    let s2 = record s1 { buf = update s1.buf (s1.e % input_buf_size) (c % 256); e = next32 s1.e } in
    if c == 10 || c == ctrl_d || sub32 s2.e s2.r == input_buf_size
    then record s2 { w = s2.e; events = woke ∷ s2.events }
    else s2

-- Each round of the loop of `case C('U')` takes one from `cons.e - cons.w`, so that this many
-- rounds are enough.
pub consoleintr : ℕ → Console → Console
unfolding kill_line rub_out store_char
consoleintr c s =
    if c == ctrl_p
    then record s { events = dumped ∷ s.events }
    else (if c == ctrl_u
        then kill_line (sub32 s.e s.w) s
        else (if c == ctrl_h || c == 127
            then (if s.e == s.w then s else rub_out s)
            else (if not (c == 0) && ltb (sub32 s.e s.r) input_buf_size
                then store_char (if c == 13 then 10 else c) s
                else s)))

-- The reader's memory, as `either_copyout` sees it: its bytes, and which of them can be written
pub record Reader : Type 0 where
  pub byte : ℕ → ℕ
  pub present : ℕ → Bool

-- The end of a run of `consoleread`: it returns a number of bytes, it returns -1, or it sleeps with
-- the rest of `dst` and `n`, to run on when it wakes.
pub data ReadEnd : Type 0 where
  returned : Console → Reader → ℕ → ReadEnd
  refused : Console → Reader → ReadEnd
  sleeps : Console → Reader → ℕ → ℕ → ReadEnd

-- The loop of `consoleread`. `dead` is what `killed(myproc())` returns.
pub line_loop : Bool → ℕ → ℕ → ℕ → Console → Reader → ReadEnd
line_loop dead target dst zero s u = returned s u target
line_loop dead target dst (suc n) s u =
    let c = s.buf (s.r % input_buf_size) in
    let s1 = record s { r = next32 s.r } in
    let u1 = record u { byte = update u.byte dst c } in
    let rest = line_loop dead target (dst + 1) n s1 u1 in
    if s.r == s.w
    then (if dead then refused s u else sleeps s u dst (suc n))
    else (if c == ctrl_d
        then (if ltb (suc n) target
            then returned (record s1 { r = sub32 s1.r 1 }) u (target - suc n)
            else returned s1 u (target - suc n))
        else (if not (u.present dst)
            then returned s1 u (target - suc n)
            else (if c == 10 then returned s1 u1 (target - n) else rest)))

-- (A negative `n` reads nothing, as 0 does.)
pub consoleread : Bool → ℕ → ℕ → Console → Reader → ReadEnd
unfolding line_loop
consoleread dead dst n s u = line_loop dead n dst n s u
