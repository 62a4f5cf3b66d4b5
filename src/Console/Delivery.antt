-- ===== src/Console/Delivery.antt =====
-- What a read of the console is meant to deliver, on lists.
use xv6_riscv_zig.Prelude.{
  ℕ, zero, suc, ◌+◌, ◌≡◌, Bool, true, false, List, [], ◌∷◌, length, update, ◌==◌, if◌then◌else◌,
}
use xv6_riscv_zig.Console.{Console, Reader, ReadEnd, returned, refused, sleeps, ctrl_d}
use xv6_riscv_zig.Console.Ring.{IsConsole}
use xv6_riscv_zig.Console.View.{view}

-- What a read delivers, what it leaves, and whether it returns or waits for more
pub record Delivery : Type 0 where
  pub bytes : List ℕ
  pub rest : List ℕ
  pub complete : Bool

abbrev pub deliver_one : ℕ → Delivery → Delivery
deliver_one c d = record d { bytes = c ∷ d.bytes }

-- A read of `n` bytes of the text `l`. It ends behind a newline or at a control-D, which is taken by
-- a read that delivers nothing else (`first`) and is left to the next one otherwise.
abbrev pub deliver : Bool → ℕ → List ℕ → Delivery
deliver first zero l = record { bytes = []; rest = l; complete = true }
deliver first (suc n) [] = record { bytes = []; rest = []; complete = false }
deliver first (suc n) (c ∷ l) =
    if c == ctrl_d
    then record { bytes = []; rest = if first then l else c ∷ l; complete = true }
    else (if c == 10
        then record { bytes = c ∷ []; rest = l; complete = true }
        else deliver_one c (deliver false n l))

-- `l` was stored from `dst` on.
abbrev pub stored : (ℕ → ℕ) → ℕ → List ℕ → ℕ → ℕ
stored f dst [] = f
stored f dst (c ∷ l) = stored (update f dst c) (dst + 1) l

-- The console and the reader after `d` was delivered to `dst`
pub record After (s : Console) (u : Reader) (dst : ℕ) (d : Delivery) (s' : Console) (u' : Reader)
    : Type 0 where
  pub is_console : IsConsole s'
  pub ready : (view s').ready ≡ d.rest
  pub line : (view s').line ≡ (view s).line
  pub byte : u'.byte ≡ stored u.byte dst d.bytes

-- How a read of `n` more bytes ends, where `got` were read before
abbrev pub EndsAs : Console → Reader → Bool → ℕ → ℕ → ℕ → Delivery → ReadEnd → Type 0
EndsAs s u dead dst got n d (returned s' u' k) =
    (d.complete ≡ true) × After s u dst d s' u' × (k ≡ got + length d.bytes)
EndsAs s u dead dst got n d (refused s' u') =
    (d.complete ≡ false) × After s u dst d s' u' × (dead ≡ true)
EndsAs s u dead dst got n d (sleeps s' u' dst' n') =
    (d.complete ≡ false)
    × After s u dst d s' u'
    × (dead ≡ false)
    × (dst' ≡ dst + length d.bytes)
    × (n' + length d.bytes ≡ n)
