-- ===== src/Log/Calls.antt =====
-- The calls of `log_write` that a function of src/kernel/fs.c makes, on the log.
use xv6_riscv_zig.Prelude.{
  ℕ, ◌+◌, ◌≤◌, ◌<◌, ◌≡◌, refl, ap, ◌∙◌, Bool, false, ◌||◌, List, [], ◌∷◌, ◌==◌, length, arith, Run,
  ok, ◌>>=◌,
}
use xv6_riscv_zig.Log.{Log, logsize, log_write}
use xv6_riscv_zig.Log.Crash.{logged}
use xv6_riscv_zig.Log.Absorb.{log_write-logged}
use xv6_riscv_zig.Log.Space.{log_write-adds, log_write_succeeds}

-- Calls of `log_write`, the last one first
unfoldable pub log_calls : List ℕ → Log → Run Log
unfolding log_write
log_calls [] l = ok l
log_calls (b ∷ bs) l = do l' ← log_calls bs l; log_write b l'

-- Is the block one of the list?
abbrev pub called : ℕ → List ℕ → Bool
called c [] = false
called c (b ∷ bs) = (b == c) || called c bs

or_assoc : (a b c : Bool) → (a || (b || c)) ≡ ((a || b) || c)
or_assoc a b c = ground arith

-- Inside a transaction, and with room for as many blocks as there are calls, calls of `log_write` do
-- not panic. Behind them a block is logged exactly where it was before or is the block of a call, and
-- there are at most as many logged blocks more as calls.
pub log_calls_fit :
    (bs : List ℕ) (l : Log)
    → 0 < l.outstanding
    → l.n + length bs ≤ logsize
    → l.n + length bs < l.size
    → (t : Log) × (log_calls bs l ≡ ok t)
      × (t.n ≤ l.n + length bs)
      × (t.size ≡ l.size)
      × (t.outstanding ≡ l.outstanding)
      × ((c : ℕ) → logged t.block t.n 0 c ≡ (called c bs || logged l.block l.n 0 c))
unfolding log_calls
log_calls_fit [] l running room fits = (l, refl, omega arith, refl, refl, λ c. refl)
log_calls_fit (b ∷ bs) l running room fits =
    let (t, ran, few, size, outstanding, set) =
      log_calls_fit bs l running (omega (arith, room)) (omega (arith, fits)) in
    let (u, wrote) =
      log_write_succeeds b t (omega (arith, few, room)) (omega (arith, few, fits, size))
        (omega (arith, running, outstanding)) in
    let (adds, same_size, same_count, _) = log_write-adds b t u wrote in
    (
      u,
      rw (ran, log_calls) wrote,
      omega (arith, adds, few),
      same_size ∙ size,
      same_count ∙ outstanding,
      λ c.
          (log_write-logged b t u wrote).0 c
          ∙ ap (λ x. b == c || x) (set c)
          ∙ or_assoc (b == c) (called c bs) (logged l.block l.n 0 c),
    )
