-- ===== src/Proc/Wake.antt =====
-- Whom `wakeup` and `kill` wake.
use mathlib.Core.Option
use xv6_riscv_zig.Prelude.{
  ℕ, zero, suc, ◌+◌, ◌<◌, ◌≡◌, refl, ap, ◌∙◌, ◌≢◌, true, ◌&&◌, not, Option, none, some, List, [],
  ◌∷◌, arith, get_elem?, subst, Bool-cases, inl, inr, ==_iff, ◌==◌, if◌then◌else◌,
}
use xv6_riscv_zig.Proc.{
  runnable, Chan, Proc, is_sleeping, same_chan, is_proc, wake, wakeup_from, wakeup, kill_one, kill,
}

wakeup_from-get :
    (chan : Chan) (me : Option ℕ) (i j : ℕ) (ps : List Proc)
    → get_elem? (wakeup_from chan me i ps) j ≡ Option.map (wake chan me (i + j)) (get_elem? ps j)
unfolding wakeup_from
wakeup_from-get chan me i j [] = refl
wakeup_from-get chan me i zero (p ∷ ps) = ap (λ k. some (wake chan me k p)) (omega arith)
wakeup_from-get chan me i (suc j) (p ∷ ps) =
    wakeup_from-get chan me (i + 1) j ps
    ∙ ap (λ k. Option.map (wake chan me k) (get_elem? ps j)) (omega arith)

-- `wakeup` makes exactly the processes other than the caller that sleep on the channel runnable,
-- and changes nothing else of the table.
pub wakeup_lem :
    (chan : Chan) (me : Option ℕ) (j : ℕ) (ps : List Proc) (p : Proc)
    → get_elem? ps j ≡ some p
    → get_elem? (wakeup chan me ps) j
      ≡ some (
          if not (is_proc me j) && (is_sleeping p.state && same_chan p.chan chan)
          then record p { state = runnable }
          else p)
unfolding wakeup wake
wakeup_lem chan me j ps p e =
    wakeup_from-get chan me 0 j ps
    ∙ ap (Option.map (wake chan me (0 + j))) e
    ∙ ap (λ k. some (wake chan me k p)) (omega arith)

-- Where no entry of the table has the pid, `kill` fails. Otherwise it marks the first that has it
-- as killed, wakes it if it sleeps, and changes no other entry.
pub data Killed (pid : ℕ) (ps : List Proc) : Option (List Proc) → Type 0 where
  missing : ((j : ℕ) (p : Proc) → get_elem? ps j ≡ some p → p.pid ≢ pid) → Killed pid ps none
  hit :
      {qs : List Proc} (i : ℕ) (p : Proc)
      → get_elem? ps i ≡ some p
      → p.pid ≡ pid
      → ((j : ℕ) (q : Proc) → j < i → get_elem? ps j ≡ some q → q.pid ≢ pid)
      → get_elem? qs i
        ≡ some
            (record p { killed = true; state = if is_sleeping p.state then runnable else p.state })
      → ((j : ℕ) → j ≢ i → get_elem? qs j ≡ get_elem? ps j)
      → Killed pid ps (some qs)

first_only :
    (p : Proc) (ps : List Proc) (j : ℕ)
    → j ≢ 0
    → get_elem? (kill_one p ∷ ps) j ≡ get_elem? (p ∷ ps) j
first_only p ps zero ne = absurd (ne refl)
first_only p ps (suc j) ne = refl

kill_one_lem :
    (p : Proc)
    → kill_one p
      ≡ record p { killed = true; state = if is_sleeping p.state then runnable else p.state }
unfolding kill_one
kill_one_lem p = ground arith

head_some : {p q : Proc} → some p ≡ some q → p ≡ q
head_some e = cc e

-- An entry of a longer table is its first, or one of the rest.
before_suc :
    (ps : List Proc) (P : Proc → Type 0) (p : Proc) (i : ℕ)
    → P p
    → ((j : ℕ) (q : Proc) → j < i → get_elem? ps j ≡ some q → P q)
    → (j : ℕ) (q : Proc) → j < suc i
    → get_elem? (p ∷ ps) j ≡ some q
    → P q
before_suc ps P p i here rest zero q h e = subst P (head_some e) here
before_suc ps P p i here rest (suc j) q h e = rest j q (omega arith) e

others_suc :
    (ps qs : List Proc) (p : Proc) (i : ℕ)
    → ((j : ℕ) → j ≢ i → get_elem? qs j ≡ get_elem? ps j)
    → (j : ℕ) → j ≢ suc i
    → get_elem? (p ∷ qs) j ≡ get_elem? (p ∷ ps) j
others_suc ps qs p i rest zero ne = refl
others_suc ps qs p i rest (suc j) ne = rest j (λ e. ne (ap suc e))

Killed-later :
    {pid : ℕ} {ps : List Proc} (p : Proc) (r : Option (List Proc))
    → p.pid ≢ pid
    → Killed pid ps r
    → Killed pid (p ∷ ps) (Option.map (λ qs. p ∷ qs) r)
Killed-later {pid} {ps} p none ne (missing h) =
    missing (λ j q e. before_suc ps (λ r. r.pid ≢ pid) p j ne (λ k r lt. h k r) j q (omega arith) e)
Killed-later {pid} {ps} p (some qs) ne (hit i q e same before here others) =
    hit (suc i) q e same (before_suc ps (λ r. r.pid ≢ pid) p i ne before) here
      (others_suc ps qs p i others)

-- `kill` fails exactly where no entry of the table has the pid. Otherwise it marks the first entry
-- that has it as killed, makes it runnable if it sleeps, and changes no other entry.
pub kill_lem : (pid : ℕ) (ps : List Proc) → Killed pid ps (kill pid ps)
unfolding kill
kill_lem pid [] = missing (λ j p e. cc e)
kill_lem pid (p ∷ ps) = elim (Bool-cases (p.pid == pid)) [
  | inl e ↦ rw e (
      hit 0 p refl ((==_iff p.pid pid).0 e) (λ j q h. absurd (omega arith))
        (ap some (kill_one_lem p)) (first_only p ps))
  | inr e ↦ rw e (Killed-later p (kill pid ps) (ground arith) (kill_lem pid ps))
]
