-- ===== src/Locks/Nesting.antt =====
-- `push_off` and `pop_off` are matched.
use xv6_riscv_zig.Prelude.{
  ◌<◌, ◌≡◌, refl, Bool, false, ◌==◌, arith, Run, ok, ◌>>=◌, Bool-cases, inl, inr, ◌⊎◌,
}
use xv6_riscv_zig.Locks.{Cpu, push_off, pop_off}

-- A run of matched calls: nothing, or a matched pair round a matched run, with one behind.
pub data Matched : Type 0 where
  done : Matched
  round : (inner behind : Matched) → Matched

-- The calls of the run, one after the other
pub run : Matched → Cpu → Run Cpu
run done c = ok c
run (round inner behind) c = do c1 ← run inner (push_off c); c2 ← pop_off c1; run behind c2

pop_off-push_off : (c : Cpu) → c.intr ≡ false → 0 < c.noff → pop_off (push_off c) ≡ ok c
unfolding push_off pop_off
pop_off-push_off c off pos = ground arith

pop_off-push_off_outer :
    (c : Cpu) → c.noff ≡ 0 → pop_off (push_off c) ≡ ok (record c { intena = c.intr })
unfolding push_off pop_off
pop_off-push_off_outer c zero_off = ground arith

-- A run that starts inside a pair leaves all as it was.
run_inside : (m : Matched) (c : Cpu) → c.intr ≡ false → 0 < c.noff → run m c ≡ ok c
unfolding run
run_inside done c off pos = refl
run_inside (round inner behind) c off pos =
    rw (run_inside inner (push_off c) (unfold push_off in refl) (unfold push_off in omega arith))
      (rw (pop_off-push_off c off pos) (run_inside behind c off pos))

run_outside :
    (m : Matched) (c : Cpu) → c.noff ≡ 0 → (e : Bool) × (run m c ≡ ok (record c { intena = e }))
unfolding run
run_outside done c zero_off = (c.intena, refl)
run_outside (round inner behind) c zero_off =
    let (e, rest) = run_outside behind (record c { intena = c.intr }) zero_off in
    (
      e,
      rw (run_inside inner (push_off c) (unfold push_off in refl) (unfold push_off in omega arith))
          (rw (pop_off-push_off_outer c zero_off) rest),
    )

-- Where interrupts are off, or no `push_off` is open, any matched calls of `push_off` and `pop_off`
-- end without a panic, with interrupts and `noff` as they were before. (`noff` does not overflow.)
pub run_matched :
    (m : Matched) (c : Cpu)
    → (c.intr ≡ false) ⊎ (c.noff ≡ 0)
    → (c' : Cpu) × (run m c ≡ ok c') × (c'.intr ≡ c.intr) × (c'.noff ≡ c.noff)
run_matched m c start = elim (Bool-cases (c.noff == 0)) [
  | inl z ↦ let (e, h) = run_outside m c (ground arith) in (record c { intena = e }, h, refl, refl)
  | inr nz ↦ elim start [
    | inl off ↦ (c, run_inside m c off (ground arith), refl, refl)
    | inr z ↦ absurd (ground arith)
  ]
]
