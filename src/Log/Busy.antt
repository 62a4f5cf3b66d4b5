-- ===== src/Log/Busy.antt =====
-- The log with the calls that are under way, and the space that these have reserved.
use xv6_riscv_zig.Prelude.{
  ℕ, zero, suc, ◌+◌, ◌-◌, ◌<◌, ◌≤◌, ◌≡◌, refl, ◌∙◌, Bool, true, false, some, List, [], ◌∷◌, ◌++◌,
  arith, length, ok, ltb, Bool-cases, inl, inr, ◌*◌,
}
use xv6_riscv_zig.Log.{
  Log, maxopblocks, logsize, begin_op, end_op_start, end_op_finish, log_write, commit, install_one,
  install_loop, install_trans, write_log_one, write_log_loop, write_log, write_head,
}

-- The log, and for each operation between `begin_op` and `end_op` the calls of `log_write` that it
-- has made
pub record Busy : Type 0 where
  pub log : Log
  pub used : List ℕ

-- One step of one of the processes that use the log. A commit runs without the lock, so others
-- may come in between.
pub data Step (s t : Busy) : Type 0 where
  enter : begin_op s.log ≡ some t.log → t.used ≡ 0 ∷ s.used → Step s t
  write :
      (xs ys : List ℕ) (u b : ℕ)
      → u < maxopblocks
      → s.used ≡ xs ++ u ∷ ys
      → log_write b s.log ≡ ok t.log
      → t.used ≡ xs ++ suc u ∷ ys
      → Step s t
  leave :
      (xs ys : List ℕ) (u : ℕ) (last : Bool)
      → s.used ≡ xs ++ u ∷ ys
      → end_op_start s.log ≡ ok (t.log, last)
      → t.used ≡ xs ++ ys
      → Step s t
  committed :
      s.log.committing ≡ true → t.log ≡ end_op_finish (commit s.log) → t.used ≡ s.used → Step s t

pub data Reach (s : Busy) : Busy → Type 0 where
  here : Reach s s
  next : {t u : Busy} → Reach s t → Step t u → Reach s u

-- The writes that the running operations may still make
unfoldable pub reserve : List ℕ → ℕ
reserve [] = 0
reserve (u ∷ us) = (maxopblocks - u) + reserve us

pub record HasSpace (s : Busy) : Type 0 where
  pub counted : s.log.outstanding ≡ length s.used
  pub few : s.log.outstanding ≤ 3
  pub space : s.log.n + reserve s.used ≤ logsize
  pub alone : s.log.committing ≡ true → s.log.outstanding ≡ 0
  pub room : logsize ≤ s.log.size

pub reserve-le : (us : List ℕ) → reserve us ≤ length us * 10
unfolding reserve
reserve-le [] = omega arith
reserve-le (u ∷ us) = omega (arith, reserve-le us)

pub reserve-append : (xs ys : List ℕ) → reserve (xs ++ ys) ≡ reserve xs + reserve ys
unfolding reserve
reserve-append [] ys = omega arith
reserve-append (x ∷ xs) ys = omega (arith, reserve-append xs ys)

pub reserve-cons : (u : ℕ) (us : List ℕ) → reserve (u ∷ us) ≡ (10 - u) + reserve us
unfolding reserve
reserve-cons u us = refl

-- A commit leaves the fields that the reservation is about, and empties the log.
pub record Keeps (s t : Log) : Type 0 where
  pub size : t.size ≡ s.size
  pub outstanding : t.outstanding ≡ s.outstanding

Keeps-trans : {s t u : Log} → Keeps s t → Keeps t u → Keeps s u
Keeps-trans a b = record { size = b.size ∙ a.size; outstanding = b.outstanding ∙ a.outstanding }

write_log_loop-Keeps : (k i : ℕ) (s : Log) → Keeps s (write_log_loop k i s)
unfolding write_log_loop write_log_one
write_log_loop-Keeps zero i s = record { size = refl; outstanding = refl }
write_log_loop-Keeps (suc k) i s =
    Keeps-trans {t = write_log_one i s} (record { size = refl; outstanding = refl })
      (write_log_loop-Keeps k (i + 1) (write_log_one i s))

install_loop-Keeps : (k i : ℕ) (s : Log) → Keeps s (install_loop false k i s)
unfolding install_loop install_one
install_loop-Keeps zero i s = record { size = refl; outstanding = refl }
install_loop-Keeps (suc k) i s =
    Keeps-trans {t = install_one false i s} (record { size = refl; outstanding = refl })
      (install_loop-Keeps k (i + 1) (install_one false i s))

write_log-Keeps : (s : Log) → Keeps s (write_log s)
unfolding write_log
write_log-Keeps s = write_log_loop-Keeps s.n 0 s

write_head-Keeps : (s : Log) → Keeps s (write_head s) × ((write_head s).n ≡ s.n)
unfolding write_head
write_head-Keeps s = (record { size = refl; outstanding = refl }, refl)

install_trans-Keeps : (s : Log) → Keeps s (install_trans false s)
unfolding install_trans
install_trans-Keeps s = install_loop-Keeps s.n 0 s

pub commit-Keeps : (s : Log) → Keeps s (commit s) × ((commit s).n ≡ 0)
unfolding commit
commit-Keeps s = elim (Bool-cases (ltb 0 s.n)) [
  | inl pos ↦ rw pos (
    Keeps-trans (write_log-Keeps s) (
        Keeps-trans (write_head-Keeps (write_log s)).0 (
          Keeps-trans (install_trans-Keeps headed) (
            Keeps-trans {t = emptied} (record { size = refl; outstanding = refl })
              (write_head-Keeps emptied).0))),
    (write_head-Keeps emptied).1,
  )
  | inr e ↦ rw e (record { size = refl; outstanding = refl }, ground arith)
]
  where
    headed : Log
    headed = write_head (write_log s)

    emptied : Log
    emptied = record (install_trans false headed) { n = 0 }
