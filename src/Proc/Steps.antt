-- ===== src/Proc/Steps.antt =====
-- Every step of the process table, and the invariant that no step breaks.
use xv6_riscv_zig.Prelude.{
  ℕ, zero, suc, ◌+◌, ◌^◌, ◌<◌, ◌≡◌, refl, ap, sym, ◌∙◌, ◌≢◌, inl, inr, Bool, true, false, ◌&&◌, not,
  Option, some, List, [], ◌∷◌, arith, get_elem?, set, replicate, ◌==◌, subst, Bool-cases,
  Option-cases, ok,
}
use xv6_riscv_zig.Proc.{
  Chan, Proc, Table, no_proc, procinit, wakeup, kill, find_unused, allocproc, copy_proc, fork, exit,
  Scan, exited, none_yet, scan, wait, reap, finish_wait, pick, sched, yield_proc, sleep_on, slept,
  setkilled, nproc,
}
use xv6_riscv_zig.Proc.Pids.{
  pids, HasPids, HasPids-same, HasPids-suc, freeproc-HasPids, init_proc-HasPids, pids-kill,
  pids-exit, pids-wakeup, pids-set_same,
}

-- What a process does to its own entry, or the scheduler to it
pub data Moves (p q : Proc) : Type 0 where
  picked : q ≡ pick p → Moves p q
  yielded : yield_proc p ≡ ok q → Moves p q
  fell_asleep : (chan : Chan) → sleep_on chan p ≡ ok q → Moves p q
  woke_up : q ≡ slept p → Moves p q
  marked : q ≡ setkilled p → Moves p q

-- One step of the table
pub data Step (s t : Table) : Type 0 where
  forks :
      (me : ℕ) (p : Proc) (page table : ℕ) (copied : Bool)
      → t ≡ (fork me p page table copied s).0
      → Step s t
  allocates : (page table : ℕ) → t ≡ (allocproc page table s).0 → Step s t
  exits :
      (me initproc status : ℕ) (qs : List Proc)
      → exit me initproc status s.procs ≡ ok qs
      → t ≡ record s { procs = qs }
      → Step s t
  waits : (me addr : ℕ) (killed copied : Bool) → t ≡ (wait me addr killed copied s).0 → Step s t
  kills :
      (pid : ℕ) (qs : List Proc)
      → kill pid s.procs ≡ some qs
      → t ≡ record s { procs = qs }
      → Step s t
  wakes : (chan : Chan) (me : Option ℕ) → t ≡ record s { procs = wakeup chan me s.procs } → Step s t
  moves :
      (i : ℕ) (p q : Proc)
      → get_elem? s.procs i ≡ some p
      → Moves p q
      → t ≡ record s { procs = set s.procs i q }
      → Step s t

pub data Reach (s : Table) : Table → Type 0 where
  here : Reach s s
  next : {t u : Table} → Reach s t → Step t u → Reach s u

unfoldable pub steps : {s t : Table} → Reach s t → ℕ
steps here = 0
steps (next r st) = suc (steps r)

pid-Moves : {p q : Proc} → Moves p q → q.pid ≡ p.pid
unfolding pick sched yield_proc sleep_on slept setkilled
pid-Moves (picked e) = ground arith
pid-Moves (yielded e) = ground arith
pid-Moves (fell_asleep chan e) = ground arith
pid-Moves (woke_up e) = ground arith
pid-Moves (marked e) = ground arith

allocproc-HasPids :
    {m : ℕ} (page table : ℕ) (t : Table)
    → m + 2 < 2 ^ 32
    → HasPids m t
    → HasPids (suc m) (allocproc page table t).0
unfolding allocproc
allocproc-HasPids page table t small h = elim (Option-cases (find_unused t.procs)) [
  | inl e ↦ rw (e, allocproc) (HasPids-suc h)
  | inr (i, e) ↦ elim (Option-cases (get_elem? t.procs i)) [
    | inl e' ↦ rw (e, allocproc, e') (HasPids-suc h)
    | inr (p, e') ↦ rw (e, allocproc, e') (init_proc-HasPids page table i p t small h)
  ]
]

fork-HasPids :
    {m : ℕ} (me : ℕ) (p : Proc) (page table : ℕ) (copied : Bool) (t : Table)
    → m + 2 < 2 ^ 32
    → HasPids m t
    → HasPids (suc m) (fork me p page table copied t).0
unfolding fork copy_proc
fork-HasPids me p page table copied t small h = elim (Option-cases (allocproc page table t).1) [
  | inl e ↦ rw (e, fork) (allocproc-HasPids page table t small h)
  | inr (i, e) ↦ elim (Option-cases (get_elem? (allocproc page table t).0.procs i)) [
    | inl e' ↦ rw (e, fork, e') (allocproc-HasPids page table t small h)
    | inr (np, e') ↦ elim (Bool-cases copied) [
      | inl c ↦
          rw (e, fork, e', c)
            (HasPids-same refl (pids-set_same (allocproc page table t).0.procs i np _ e' refl)
              (allocproc-HasPids page table t small h))
      | inr c ↦
          rw (e, fork, e', c) (freeproc-HasPids i np _ (allocproc-HasPids page table t small h))
    ]
  ]
]

reap-HasPids :
    {m : ℕ} (i addr : ℕ) (copied : Bool) (t : Table)
    → HasPids m t
    → HasPids m (reap i addr copied t).0
unfolding reap
reap-HasPids i addr copied t h = elim (Option-cases (get_elem? t.procs i)) [
  | inl e ↦ rw (e, reap) h
  | inr (p, e) ↦ elim (Bool-cases (not (addr == 0) && not copied)) [
    | inl c ↦ rw (e, reap, c) h
    | inr c ↦ rw (e, reap, c) (freeproc-HasPids i p t h)
  ]
]

finish_wait-HasPids :
    {m : ℕ} (addr : ℕ) (killed copied : Bool) (t : Table) (found : Scan)
    → HasPids m t
    → HasPids m (finish_wait addr killed copied t found).0
unfolding finish_wait
finish_wait-HasPids addr killed copied t (exited i) h = reap-HasPids i addr copied t h
finish_wait-HasPids addr killed copied t (none_yet true) h = elim (Bool-cases killed) [
  | inl c ↦ rw c h
  | inr c ↦ rw c h
]
finish_wait-HasPids addr killed copied t (none_yet false) h = h

-- Every step keeps pids apart.
pub Step-HasPids :
    {m : ℕ} {s t : Table} → Step s t → m + 2 < 2 ^ 32 → HasPids m s → HasPids (suc m) t
unfolding wait
Step-HasPids {m} {s} (forks me p page table copied e) small h =
    subst (HasPids (suc m)) (sym e) (fork-HasPids me p page table copied s small h)
Step-HasPids {m} {s} (allocates page table e) small h =
    subst (HasPids (suc m)) (sym e) (allocproc-HasPids page table s small h)
Step-HasPids {m} {s} (exits me initproc status qs q e) small h =
    subst (HasPids (suc m)) (sym e)
      (HasPids-same refl (pids-exit me initproc status s.procs qs q) (HasPids-suc h))
Step-HasPids {m} {s} (waits me addr killed copied e) small h =
    subst (HasPids (suc m)) (sym e)
      (HasPids-suc (finish_wait-HasPids addr killed copied s (scan me 0 false s.procs) h))
Step-HasPids {m} {s} (kills pid qs q e) small h =
    subst (HasPids (suc m)) (sym e) (HasPids-same refl (pids-kill pid s.procs qs q) (HasPids-suc h))
Step-HasPids {m} {s} (wakes chan me e) small h =
    subst (HasPids (suc m)) (sym e)
      (HasPids-same refl (pids-wakeup chan me s.procs) (HasPids-suc h))
Step-HasPids {m} {s} (moves i p q g mv e) small h =
    subst (HasPids (suc m)) (sym e)
      (HasPids-same refl (pids-set_same s.procs i p q g (pid-Moves mv)) (HasPids-suc h))

pids-none : (n i a : ℕ) → get_elem? (pids (replicate n no_proc)) i ≡ some a → a ≡ 0
pids-none zero i a e = cc e
pids-none (suc n) zero a e = cc e
pids-none (suc n) (suc i) a e = pids-none n i a e

procinit-HasPids : HasPids 0 procinit
unfolding procinit
procinit-HasPids = record {
  fresh = record {
    below = λ i a e. omega (arith, pids-none nproc i a e);
    distinct = λ i j a ne p q. absurd (ne (pids-none nproc i a p));
  };
  started = omega arith;
  few = omega arith;
}

Reach-HasPids : {t : Table} (r : Reach procinit t) → steps r + 2 < 2 ^ 32 → HasPids (steps r) t
unfolding steps
Reach-HasPids here small = procinit-HasPids
Reach-HasPids (next r st) small =
    Step-HasPids st (omega (arith, small)) (Reach-HasPids r (omega (arith, small)))

get_elem?-pids :
    (ps : List Proc) (i : ℕ) (p : Proc)
    → get_elem? ps i ≡ some p
    → get_elem? (pids ps) i ≡ some p.pid
get_elem?-pids [] i p e = cc e
get_elem?-pids (q ∷ ps) zero p e = ground arith
get_elem?-pids (q ∷ ps) (suc i) p e = get_elem?-pids ps i p e

-- In every table that `procinit` and less than 2^31 - 2 steps lead to, so that `nextpid` does not
-- overflow, a pid other than 0 belongs to one entry alone, and is positive as an `int` and smaller
-- than the next one to be given out.
pub pids_unique :
    {t : Table} (i j : ℕ) (p q : Proc)
    → (r : Reach procinit t) → steps r + 2 < 2 ^ 31
    → get_elem? t.procs i ≡ some p
    → get_elem? t.procs j ≡ some q
    → p.pid ≢ 0
    → p.pid ≡ q.pid
    → (i ≡ j) × (p.pid < t.nextpid) × (t.nextpid < 2 ^ 31)
pids_unique {t} i j p q r small e g ne same =
    let h = Reach-HasPids r (omega (arith, small)) in
    let f = h.fresh in
    let at_i = get_elem?-pids t.procs i p e in
    (
      f.distinct i j p.pid ne at_i (get_elem?-pids t.procs j q g ∙ ap some (sym same)),
      f.below i p.pid at_i,
      omega (arith, h.few, small),
    )
