-- ===== src/Log/Space.antt =====
-- The space of the log is enough for the calls under way.
use xv6_riscv_zig.Prelude.{
  ℕ, suc, ◌+◌, ◌-◌, ◌<◌, ◌≤◌, ◌≡◌, ap, ◌∙◌, ◌⊎◌, inl, inr, sym, Bool, true, false, some, List, ◌∷◌,
  ◌++◌, arith, length, length-append, ok, ltb, leb, dec32, ◌*◌,
}
use xv6_riscv_zig.Log.{
  Log, maxopblocks, logsize, begin_op, end_op_start, end_op_finish, log_write, record_block, commit,
}
use xv6_riscv_zig.Log.Busy.{
  Busy, Step, Reach, reserve, HasSpace, reserve-le, reserve-append, reserve-cons, commit-Keeps,
  enter, write, leave, committed, here, next,
}

-- A `log_write` that does not panic adds at most one block.
pub log_write-adds :
    (b : ℕ) (s t : Log)
    → log_write b s ≡ ok t
    → (t.n ≤ s.n + 1)
      × (t.size ≡ s.size)
      × (t.outstanding ≡ s.outstanding)
      × (t.committing ≡ s.committing)
unfolding log_write record_block
log_write-adds b s t e = ground arith

begin_op-some :
    (s t : Log)
    → begin_op s ≡ some t
    → (t.n + t.outstanding * 10 ≤ logsize)
      × (t.n ≡ s.n)
      × (t.size ≡ s.size)
      × (t.outstanding ≡ s.outstanding + 1)
      × (t.committing ≡ false)
unfolding begin_op
begin_op-some s t e = ground arith

end_op_start-ok :
    (s t : Log) (last : Bool)
    → end_op_start s ≡ ok (t, last)
    → (s.committing ≡ false)
      × (t.n ≡ s.n)
      × (t.size ≡ s.size)
      × (t.outstanding ≡ dec32 s.outstanding)
      × (t.committing ≡ true → t.outstanding ≡ 0)
unfolding end_op_start
end_op_start-ok s t last e = ground arith

finish_lem :
    (s t : Log)
    → t ≡ end_op_finish s
    → (t.n ≡ s.n) × (t.outstanding ≡ s.outstanding) × (t.size ≡ s.size) × (t.committing ≡ false)
unfolding end_op_finish
finish_lem s t e = ground arith

length-middle : (xs ys : List ℕ) (u : ℕ) → length (xs ++ u ∷ ys) ≡ length xs + length ys + 1
length-middle xs ys u = omega (arith, length-append xs (u ∷ ys))

reserve-middle :
    (xs ys : List ℕ) (u : ℕ) → reserve (xs ++ u ∷ ys) ≡ reserve xs + reserve ys + (10 - u)
reserve-middle xs ys u = omega (arith, reserve-append xs (u ∷ ys), reserve-cons u ys)

length-leave :
    (xs ys : List ℕ) (u : ℕ) (s t : Busy)
    → s.used ≡ xs ++ u ∷ ys
    → t.used ≡ xs ++ ys
    → length s.used ≡ length t.used + 1
length-leave xs ys u s t e f =
    omega (arith, ap length e, ap length f, length-middle xs ys u, length-append xs ys)

-- Every step keeps the reservation.
pub Step-HasSpace : {s t : Busy} → Step s t → HasSpace s → HasSpace t
Step-HasSpace {s} {t} (enter e used) h =
    let f = begin_op-some s.log t.log e in
    record {
      counted = omega (arith, f.3, h.counted, ap length used);
      few = omega (arith, f.0, f.3);
      space =
          omega
            (arith, f.0, f.3, h.counted, ap reserve used, reserve-cons 0 s.used, reserve-le s.used);
      alone = λ c. cc (f.4);
      room = omega (arith, f.2, h.room);
    }
Step-HasSpace {s} {t} (write xs ys u b small before e after) h =
    let f = log_write-adds b s.log t.log e in
    record {
      counted = omega (
        arith,
        f.2,
        h.counted,
        ap length before,
        ap length after,
        length-middle xs ys u,
        length-middle xs ys (suc u),
      );
      few = omega (arith, f.2, h.few);
      space = omega (
        arith,
        f.0,
        h.space,
        ap reserve before,
        ap reserve after,
        reserve-middle xs ys u,
        reserve-middle xs ys (suc u),
      );
      alone = λ c. f.2 ∙ h.alone (sym f.3 ∙ c);
      room = omega (arith, f.1, h.room);
    }
Step-HasSpace {s} {t} (leave xs ys u last before e after) h =
    let f = end_op_start-ok s.log t.log last e in
    let size = length-leave xs ys u s t before after in
    record {
      counted = omega (arith, f.3, h.counted, h.few, size);
      few = omega (arith, f.3, h.few, h.counted, size);
      space = omega (
        arith,
        f.1,
        h.space,
        ap reserve before,
        ap reserve after,
        reserve-middle xs ys u,
        reserve-append xs ys,
      );
      alone = f.4;
      room = omega (arith, f.2, h.room);
    }
Step-HasSpace {s} {t} (committed c e used) h =
    let k = commit-Keeps s.log in
    let f = finish_lem (commit s.log) t.log e in
    record {
      counted = omega (arith, f.1, k.0.outstanding, h.counted, ap length used);
      few = omega (arith, f.1, k.0.outstanding, h.few);
      space = omega (arith, f.0, k.1, ap reserve used, h.space);
      alone = λ c'. cc (f.3);
      room = omega (arith, f.2, k.0.size, h.room);
    }

-- At the start, with no operation running.
pub Reach-HasSpace : {s t : Busy} → HasSpace s → Reach s t → HasSpace t
Reach-HasSpace h here = h
Reach-HasSpace h (next r st) = Step-HasSpace st (Reach-HasSpace h r)

pub log_write_succeeds :
    (b : ℕ) (s : Log)
    → s.n < logsize
    → s.n + 1 < s.size
    → 0 < s.outstanding
    → (t : Log) × (log_write b s ≡ ok t)
unfolding log_write
log_write_succeeds b s few room running =
    let one : leb logsize s.n ≡ false = ground arith in
    let two : leb (s.size - 1) s.n ≡ false = ground arith in
    let three : ltb s.outstanding 1 ≡ false = ground arith in
    (record_block b s, rw (one, two, three))

-- Let the log have at least `logsize` blocks on the disk. While a process is in an operation that has
-- called `log_write` less than `maxopblocks` - 1 times, or less than `maxopblocks` times where the log
-- has more blocks, its next call does not panic, whatever the other processes did: `begin_op` has
-- reserved the space.
pub log_write_fits :
    {s t : Busy}
    → HasSpace s
    → Reach s t
    → (xs ys : List ℕ) (u b : ℕ) → t.used ≡ xs ++ u ∷ ys
    → (u + 1 < maxopblocks) ⊎ ((u < maxopblocks) × (logsize < t.log.size))
    → (l : Log) × (log_write b t.log ≡ ok l) × (t.log.n < logsize)
log_write_fits {s} {t} h r xs ys u b e small =
    let k = Reach-HasSpace h r in
    let kept = reserve-middle xs ys u in
    let running : 0 < t.log.outstanding =
      omega (arith, k.counted, ap length e, length-middle xs ys u) in
    let full : t.log.n < logsize = elim small [
      | inl early ↦ omega (arith, k.space, ap reserve e, kept, early)
      | inr (more, large) ↦ omega (arith, k.space, ap reserve e, kept, more)
    ] in
    let room : t.log.n + 1 < t.log.size = elim small [
      | inl early ↦ omega (arith, k.space, ap reserve e, kept, early, k.room)
      | inr (more, large) ↦ omega (arith, full, large)
    ] in
    let (l, q) = log_write_succeeds b t.log full room running in (l, q, full)
