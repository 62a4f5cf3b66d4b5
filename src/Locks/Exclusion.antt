-- ===== src/Locks/Exclusion.antt =====
-- Any number of harts that acquire and release one spin lock, in any interleaving of the atomic
-- parts of their calls.
use xv6_riscv_zig.Prelude.{
  ℕ, ◌≡◌, refl, ap, Bool, true, false, Option, none, some, update, arith, ok, not, Bool-cases, inl,
  inr, if◌then◌else◌, ==_iff,
}
use xv6_riscv_zig.Locks.{
  Cpu, Spinlock, initlock, holding, is_cpu, acquire_check, swap_locked, note_cpu, release_check,
  release_locked, push_off,
}

-- Where a hart stands: it is not in a call and does not hold the lock; it swaps `locked` in a loop;
-- it has swapped a 0 out; it holds the lock; it has cleared the holder.
pub data Stage : Type 0 where
  outside spinning swapped inside leaving : Stage

abbrev pub is_held : Stage → Bool
is_held outside = false
is_held spinning = false
is_held swapped = true
is_held inside = true
is_held leaving = true

pub record System : Type 0 where
  pub lock : Spinlock
  pub stage : ℕ → Stage

-- One atomic step of hart `i`
pub data Step (s t : System) : Type 0 where
  enters :
      (i : ℕ) (c c' : Cpu)
      → s.stage i ≡ outside
      → acquire_check i c s.lock ≡ ok c'
      → t ≡ record s { stage = update s.stage i spinning }
      → Step s t
  swaps :
      (i : ℕ)
      → s.stage i ≡ spinning
      → t ≡ record s {
        lock = (swap_locked s.lock).0;
        stage = update s.stage i (if (swap_locked s.lock).1 then spinning else swapped);
      }
      → Step s t
  notes :
      (i : ℕ)
      → s.stage i ≡ swapped
      → t ≡ record s { lock = note_cpu i s.lock; stage = update s.stage i inside }
      → Step s t
  leaves :
      (i : ℕ) (lk : Spinlock)
      → s.stage i ≡ inside
      → release_check i s.lock ≡ ok lk
      → t ≡ record s { lock = lk; stage = update s.stage i leaving }
      → Step s t
  frees :
      (i : ℕ)
      → s.stage i ≡ leaving
      → t ≡ record s { lock = release_locked s.lock; stage = update s.stage i outside }
      → Step s t

pub data Reach (s : System) : System → Type 0 where
  start : Reach s s
  next : {t u : System} → Reach s t → Step t u → Reach s u

abbrev pub idle : System
idle = record { lock = initlock; stage = λ i. outside }

record IsExclusive (s : System) : Type 0 where
  unheld : s.lock.locked ≡ false → (i : ℕ) → is_held (s.stage i) ≡ false
  alone : (i j : ℕ) → is_held (s.stage i) ≡ true → is_held (s.stage j) ≡ true → i ≡ j
  noted : (i : ℕ) → s.stage i ≡ inside → s.lock.cpu ≡ some i
  holder : (i : ℕ) → s.lock.cpu ≡ some i → s.stage i ≡ inside

idle-IsExclusive : IsExclusive idle
unfolding initlock
idle-IsExclusive = record {
  unheld = λ e i. refl;
  alone = λ i j e f. cc e;
  noted = λ i e. cc e;
  holder = λ i e. cc e;
}

enters-IsExclusive :
    (s : System) (i : ℕ)
    → IsExclusive s
    → s.stage i ≡ outside
    → IsExclusive (record s { stage = update s.stage i spinning })
enters-IsExclusive s i inv at = record {
  unheld = λ e j. ground (arith, inv.unheld e j);
  alone = λ j k e f. ground (arith, inv.alone j k);
  noted = λ j e. ground (arith, inv.noted j);
  holder = λ j e. ground (arith, inv.holder j e);
}

swaps-IsExclusive :
    (s : System) (i : ℕ)
    → IsExclusive s
    → s.stage i ≡ spinning
    → IsExclusive (record s {
      lock = (swap_locked s.lock).0;
      stage = update s.stage i (if (swap_locked s.lock).1 then spinning else swapped);
    })
unfolding swap_locked
swaps-IsExclusive s i inv at = record {
  unheld = λ e j. cc e;
  alone = λ j k e f. elim (Bool-cases s.lock.locked) [
    | inl taken ↦ ground (arith, inv.alone j k)
    | inr free ↦ ground (arith, inv.unheld free j, inv.unheld free k)
  ];
  noted = λ j e. ground (arith, inv.noted j);
  holder = λ j e. ground (arith, inv.holder j e);
}

notes-IsExclusive :
    (s : System) (i : ℕ)
    → IsExclusive s
    → s.stage i ≡ swapped
    → IsExclusive (record s { lock = note_cpu i s.lock; stage = update s.stage i inside })
unfolding note_cpu
notes-IsExclusive s i inv at = record {
  unheld = λ e j. ground (arith, inv.unheld e i, inv.unheld e j);
  alone = λ j k e f. ground (arith, inv.alone j k, inv.alone i k, inv.alone j i);
  noted = λ j e. ground (arith, inv.noted j, inv.alone i j);
  holder = λ j e. ground (arith, inv.holder j);
}

leaves-IsExclusive :
    (s : System) (i : ℕ)
    → IsExclusive s
    → s.stage i ≡ inside
    → IsExclusive
        (record s { lock = record (s.lock) { cpu = none }; stage = update s.stage i leaving })
leaves-IsExclusive s i inv at = record {
  unheld = λ e j. ground (arith, inv.unheld e i, inv.unheld e j);
  alone = λ j k e f. ground (arith, inv.alone j k, inv.alone i k, inv.alone j i);
  noted = λ j e. ground (arith, inv.noted j, inv.alone i j);
  holder = λ j e. cc e;
}

frees-IsExclusive :
    (s : System) (i : ℕ)
    → IsExclusive s
    → s.stage i ≡ leaving
    → IsExclusive (record s { lock = release_locked s.lock; stage = update s.stage i outside })
unfolding release_locked
frees-IsExclusive s i inv at = record {
  unheld = λ e j. ground (arith, inv.alone i j);
  alone = λ j k e f. ground (arith, inv.alone j k);
  noted = λ j e. ground (arith, inv.noted j, inv.alone i j);
  holder = λ j e. ground (arith, inv.holder j);
}

release_check-ok :
    (i : ℕ) (lk lk' : Spinlock) → release_check i lk ≡ ok lk' → lk' ≡ record lk { cpu = none }
unfolding release_check
release_check-ok i lk lk' e = elim (Bool-cases (not (holding i lk))) [
  | inl bad ↦ cc (rw bad at e)
  | inr good ↦ cc (rw good at e)
]

Step-IsExclusive : {s t : System} → Step s t → IsExclusive s → IsExclusive t
Step-IsExclusive {s} (enters i c c' at e p) inv = rw p (enters-IsExclusive s i inv at)
Step-IsExclusive {s} (swaps i at p) inv = rw p (swaps-IsExclusive s i inv at)
Step-IsExclusive {s} (notes i at p) inv = rw p (notes-IsExclusive s i inv at)
Step-IsExclusive {s} (leaves i lk at e p) inv =
    rw (p, release_check-ok i s.lock lk e) (leaves-IsExclusive s i inv at)
Step-IsExclusive {s} (frees i at p) inv = rw p (frees-IsExclusive s i inv at)

Reach-IsExclusive : {s t : System} → IsExclusive s → Reach s t → IsExclusive t
Reach-IsExclusive inv start = inv
Reach-IsExclusive inv (next r st) = Step-IsExclusive st (Reach-IsExclusive inv r)

is_cpu-some : (o : Option ℕ) (i : ℕ) → is_cpu o i ≡ true → o ≡ some i
is_cpu-some none i e = cc e
is_cpu-some (some j) i e = ap some ((==_iff j i).0 e)

acquire_check-outside :
    (i : ℕ) (c : Cpu) (s : System)
    → IsExclusive s
    → s.stage i ≡ outside
    → acquire_check i c s.lock ≡ ok (push_off c)
unfolding acquire_check holding
acquire_check-outside i c s inv at = elim (Bool-cases (is_cpu s.lock.cpu i)) [
  | inl mine ↦ absurd (apart at (inv.holder i (is_cpu-some s.lock.cpu i mine)))
  | inr other ↦ ground arith
]
  where
    apart : s.stage i ≡ outside → s.stage i ≡ inside → ⊥
    apart e f = cc (e, f)

release_check-inside :
    (i : ℕ) (s : System)
    → IsExclusive s
    → s.stage i ≡ inside
    → release_check i s.lock ≡ ok (record (s.lock) { cpu = none })
unfolding release_check holding
release_check-inside i s inv at = elim (Bool-cases s.lock.locked) [
  | inl taken ↦ ground (arith, inv.noted i at)
  | inr free ↦ absurd (ground (arith, inv.unheld free i))
]

-- In every state that an unused lock and any steps of any harts lead to, at most one hart is between
-- its `acquire` and its `release`, and no call panics: not the check of `acquire` by a hart that is
-- outside, nor the check of `release` by one that is inside.
pub mutual_exclusion :
    {s : System} (i j : ℕ) (c : Cpu)
    → Reach idle s
    → (s.stage i ≡ inside → s.stage j ≡ inside → i ≡ j)
      × (s.stage i ≡ outside → acquire_check i c s.lock ≡ ok (push_off c))
      × (s.stage i ≡ inside → release_check i s.lock ≡ ok (record (s.lock) { cpu = none }))
mutual_exclusion {s} i j c r =
    let inv = Reach-IsExclusive idle-IsExclusive r in
    (
      λ e f. inv.alone i j (rw e) (rw f),
      acquire_check-outside i c s inv,
      release_check-inside i s inv,
    )
