-- ===== src/Proc/Pids.antt =====
-- Process identifiers are never shared: an invariant of every step of the table.
use xv6_riscv_zig.Prelude.{
  ℕ, zero, suc, ◌+◌, ◌^◌, ◌<◌, ◌≤◌, ◌≡◌, refl, ap, sym, ◌∙◌, ◌≢◌, Option, some, List, [], ◌∷◌,
  arith, get_elem?, set, length, ◌==◌, map, inl, inr, subst, subst₂, Bool-cases, Option-cases,
  get_elem?-set_cases, ap₂, ok,
}
use xv6_riscv_zig.Proc.{
  Chan, Proc, Table, modify, wake, wakeup_from, wakeup, kill_one, kill, free_entry, freeproc, add32,
  init_proc, reparent_one, reparent_loop, reparent, close_all, end_proc, is_proc, process, exit,
  exit_table, parent_chan, parent_of,
}

abbrev pub pids : List Proc → List ℕ
pids ps = map (λ (p : Proc). p.pid) ps

-- Every pid is below `next`, and no two entries have one pid but 0.
pub record IsFresh (next : ℕ) (xs : List ℕ) : Type 0 where
  pub below : (i a : ℕ) → get_elem? xs i ≡ some a → a < next
  pub distinct : (i j a : ℕ) → a ≢ 0 → get_elem? xs i ≡ some a → get_elem? xs j ≡ some a → i ≡ j

pids-set : (ps : List Proc) (i : ℕ) (p : Proc) → pids (set ps i p) ≡ set (pids ps) i p.pid
pids-set [] i p = refl
pids-set (q ∷ ps) zero p = refl
pids-set (q ∷ ps) (suc i) p = ap (λ r. q.pid ∷ r) (pids-set ps i p)

-- To give entry `i` a pid that is 0 or new keeps pids apart.
pub IsFresh-set :
    (next next' i v : ℕ) (xs : List ℕ)
    → next ≤ next'
    → v < next'
    → (v ≢ 0 → next ≤ v)
    → IsFresh next xs
    → IsFresh next' (set xs i v)
IsFresh-set next next' i v xs le lt new f = record {
  below = λ j a e. elim (get_elem?-set_cases xs i j v a e) [
    | inl h ↦ omega (arith, h.1)
    | inr h ↦ omega (arith, f.below j a h.1)
  ];
  distinct = λ j k a ne p q. elim (get_elem?-set_cases xs i j v a p) [
    | inl h ↦ elim (get_elem?-set_cases xs i k v a q) [
      | inl g ↦ omega (arith, h.0, g.0)
      | inr g ↦ absurd (omega (arith, h.1, f.below k a g.1, new (λ z. ne (h.1 ∙ z))))
    ]
    | inr h ↦ elim (get_elem?-set_cases xs i k v a q) [
      | inl g ↦ absurd (omega (arith, g.1, f.below j a h.1, new (λ z. ne (g.1 ∙ z))))
      | inr g ↦ f.distinct j k a ne h.1 g.1
    ]
  ];
}

pid-wake : (chan : Chan) (me : Option ℕ) (i : ℕ) (p : Proc) → (wake chan me i p).pid ≡ p.pid
unfolding wake
pid-wake chan me i p = ground arith

pid-end_proc : (status : ℕ) (p : Proc) → (end_proc status p).pid ≡ p.pid
unfolding end_proc
pid-end_proc status p = refl

pid-close_all : (p : Proc) → (close_all p).pid ≡ p.pid
unfolding close_all
pid-close_all p = refl

-- The steps that change no pid
pids-wakeup_from :
    (chan : Chan) (me : Option ℕ) (i : ℕ) (ps : List Proc)
    → pids (wakeup_from chan me i ps) ≡ pids ps
unfolding wakeup_from
pids-wakeup_from chan me i [] = refl
pids-wakeup_from chan me i (p ∷ ps) =
    ap₂ ◌∷◌ (pid-wake chan me i p) (pids-wakeup_from chan me (i + 1) ps)

pub pids-wakeup :
    (chan : Chan) (me : Option ℕ) (ps : List Proc) → pids (wakeup chan me ps) ≡ pids ps
unfolding wakeup
pids-wakeup chan me ps = pids-wakeup_from chan me 0 ps

pub pids-modify :
    (ps : List Proc) (i : ℕ) (f : Proc → Proc)
    → ((p : Proc) → (f p).pid ≡ p.pid)
    → pids (modify ps i f) ≡ pids ps
unfolding modify
pids-modify [] i f h = refl
pids-modify (p ∷ ps) zero f h = ap (λ a. a ∷ pids ps) (h p)
pids-modify (p ∷ ps) (suc i) f h = ap (λ r. p.pid ∷ r) (pids-modify ps i f h)

pub pids-set_same :
    (ps : List Proc) (i : ℕ) (p q : Proc)
    → get_elem? ps i ≡ some p
    → q.pid ≡ p.pid
    → pids (set ps i q) ≡ pids ps
pids-set_same [] i p q e h = refl
pids-set_same (r ∷ ps) zero p q e h = ap (λ a. a ∷ pids ps) (ground arith)
pids-set_same (r ∷ ps) (suc i) p q e h = ap (λ a. r.pid ∷ a) (pids-set_same ps i p q e h)

pub pids-kill : (pid : ℕ) (ps qs : List Proc) → kill pid ps ≡ some qs → pids qs ≡ pids ps
unfolding kill kill_one
pids-kill pid [] qs e = cc e
pids-kill pid (p ∷ ps) qs e = elim (Option-cases (kill pid ps)) [
  | inl none_found ↦ ground arith
  | inr (rs, found) ↦ ground (arith, pids-kill pid ps rs found)
]

pids-reparent_one :
    (me initproc i : ℕ) (ps : List Proc) → pids (reparent_one me initproc i ps) ≡ pids ps
unfolding reparent_one
pids-reparent_one me initproc i ps = elim (Option-cases (get_elem? ps i)) [
  | inl e ↦ rw (e, reparent_one)
  | inr (p, e) ↦ elim (Bool-cases (is_proc p.parent me)) [
    | inl child ↦
        rw (e, reparent_one, child)
          (pids-wakeup (process initproc) (some me) (set ps i (record p { parent = some initproc }))
            ∙ pids-set_same ps i p (record p { parent = some initproc }) e refl)
    | inr other ↦ rw (e, reparent_one, other)
  ]
]

pids-reparent_loop :
    (me initproc k i : ℕ) (ps : List Proc) → pids (reparent_loop me initproc k i ps) ≡ pids ps
unfolding reparent_loop
pids-reparent_loop me initproc zero i ps = refl
pids-reparent_loop me initproc (suc k) i ps =
    pids-reparent_loop me initproc k (i + 1) (reparent_one me initproc i ps)
    ∙ pids-reparent_one me initproc i ps

pids-reparent : (me initproc : ℕ) (ps : List Proc) → pids (reparent me initproc ps) ≡ pids ps
unfolding reparent
pids-reparent me initproc ps = pids-reparent_loop me initproc (length ps) 0 ps

pub pids-exit :
    (me initproc status : ℕ) (ps qs : List Proc)
    → exit me initproc status ps ≡ ok qs
    → pids qs ≡ pids ps
unfolding exit exit_table
pids-exit me initproc status ps qs e =
    let is_table : qs ≡ exit_table me initproc status ps = ground arith in
    ap pids is_table
    ∙ pids-modify (wakeup (parent_chan (parent_of (get_elem? ps1 me))) (some me) ps1) me
        (end_proc status) (pid-end_proc status)
    ∙ pids-wakeup (parent_chan (parent_of (get_elem? ps1 me))) (some me) ps1
    ∙ pids-reparent me initproc (modify ps me close_all)
    ∙ pids-modify ps me close_all pid-close_all
  where
    ps1 : List Proc
    ps1 = reparent me initproc (modify ps me close_all)

-- The invariant of the table behind `m` steps
pub record HasPids (m : ℕ) (t : Table) : Type 0 where
  pub fresh : IsFresh t.nextpid (pids t.procs)
  pub started : 0 < t.nextpid
  pub few : t.nextpid ≤ m + 1

-- A step that changes no pid
pub HasPids-same :
    {m : ℕ} {s t : Table}
    → t.nextpid ≡ s.nextpid
    → pids t.procs ≡ pids s.procs
    → HasPids m s
    → HasPids m t
HasPids-same {m} {s} n e h = record {
  fresh = subst₂ IsFresh (sym n) (sym e) h.fresh;
  started = omega (arith, h.started, n);
  few = omega (arith, h.few, n);
}

pub HasPids-suc : {m : ℕ} {t : Table} → HasPids m t → HasPids (suc m) t
HasPids-suc h = record { fresh = h.fresh; started = h.started; few = omega (arith, h.few) }

pub freeproc-HasPids :
    {m : ℕ} (i : ℕ) (p : Proc) (t : Table) → HasPids m t → HasPids m (freeproc i p t)
unfolding freeproc free_entry
freeproc-HasPids i p t h = record {
  fresh = subst (IsFresh t.nextpid) (sym (pids-set t.procs i (free_entry p))) (
      IsFresh-set t.nextpid t.nextpid i 0 (pids t.procs) (omega arith) h.started
        (λ z. absurd (z refl)) h.fresh);
  started = h.started;
  few = h.few;
}

-- `t` with the next pid given to entry `i`
given-HasPids :
    {m : ℕ} (i : ℕ) (p : Proc) (t u : Table)
    → m + 2 < 2 ^ 32
    → p.pid ≡ t.nextpid
    → u.nextpid ≡ add32 t.nextpid 1
    → u.procs ≡ set t.procs i p
    → HasPids m t
    → HasPids (suc m) u
given-HasPids i p t u small e n q h =
    let next : u.nextpid ≡ t.nextpid + 1 = omega (arith, n, h.few, small) in
    record {
      fresh = subst₂ IsFresh (sym next) (sym (ap pids q ∙ pids-set t.procs i p)) (
          IsFresh-set t.nextpid (t.nextpid + 1) i p.pid (pids t.procs) (omega arith)
            (omega (arith, e)) (λ z. omega (arith, e)) h.fresh);
      started = omega (arith, next);
      few = omega (arith, next, h.few);
    }

pub later-HasPids :
    {m : ℕ} (t : Table)
    → m + 2 < 2 ^ 32
    → HasPids m t
    → HasPids (suc m) (record t { nextpid = add32 t.nextpid 1 })
later-HasPids t small h =
    let next : add32 t.nextpid 1 ≡ t.nextpid + 1 = omega (arith, h.few, small) in
    record {
      fresh = record {
        below = λ i a e. omega (arith, h.fresh.below i a e, next);
        distinct = h.fresh.distinct;
      };
      started = omega (arith, next);
      few = omega (arith, next, h.few);
    }

pub init_proc-HasPids :
    {m : ℕ} (page table i : ℕ) (p : Proc) (t : Table)
    → m + 2 < 2 ^ 32
    → HasPids m t
    → HasPids (suc m) (init_proc page table i p t).0
unfolding init_proc
init_proc-HasPids page table i p t small h = elim (Bool-cases (page == 0)) [
  | inl e ↦ rw (e, init_proc) (freeproc-HasPids i _ _ (later-HasPids t small h))
  | inr e ↦ elim (Bool-cases (table == 0)) [
    | inl e' ↦ rw (e, init_proc, e') (freeproc-HasPids i _ _ (later-HasPids t small h))
    | inr e' ↦ rw (e, init_proc, e') (given-HasPids i _ t _ small refl refl refl h)
  ]
]
