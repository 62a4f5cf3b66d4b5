-- ===== src/Log/Absorb.antt =====
-- Which blocks `log_write` makes part of the transaction.
use xv6_riscv_zig.Prelude.{
  ℕ, zero, suc, ◌+◌, ◌<◌, ◌≤◌, ◌≡◌, refl, ap, ◌∙◌, true, false, ◌||◌, ◌==◌, arith, ok, update,
  update_ne, Bool-cases, inl, inr, ==_iff, ==_self, subst,
}
use xv6_riscv_zig.Log.{Log, find_block, record_block, log_write}
use xv6_riscv_zig.Log.Crash.{logged}

-- The loop stops inside its range exactly where it has found the block.
find_block-found :
    (block : ℕ → ℕ) (b k i : ℕ)
    → (i ≤ find_block block b k i)
      × (find_block block b k i ≤ i + k)
      × (find_block block b k i < i + k → block (find_block block b k i) ≡ b)
unfolding find_block
find_block-found block b zero i = (omega arith, omega arith, λ h. absurd (omega arith))
find_block-found block b (suc k) i = ground (arith, find_block-found block b k (i + 1))

logged_congr :
    (f g : ℕ → ℕ) (k i c : ℕ)
    → ((j : ℕ) → i ≤ j → j < i + k → f j ≡ g j)
    → logged f k i c ≡ logged g k i c
unfolding logged
logged_congr f g zero i c h = refl
logged_congr f g (suc k) i c h =
    let here = h i (omega arith) (omega arith) in
    let rest = logged_congr f g k (i + 1) c (λ j p q. h j (omega arith) (omega arith)) in
    λ t. here t == c || rest t

logged-at : (f : ℕ → ℕ) (k i j : ℕ) → i ≤ j → j < i + k → logged f k i (f j) ≡ true
unfolding logged
logged-at f zero i j p q = absurd (omega arith)
logged-at f (suc k) i j p q = ground (arith, logged-at f k (i + 1) j, ap f {x = i} {y = j})

logged-last : (f : ℕ → ℕ) (k i c : ℕ) → logged f (suc k) i c ≡ (f (i + k) == c || logged f k i c)
unfolding logged
logged-last f zero i c = ap (λ a. f a == c || false) (omega arith)
logged-last f (suc k) i c =
    let same : f (i + 1 + k) ≡ f (i + suc k) = ap f (omega arith) in
    ap (λ r. f i == c || r) (logged-last f k (i + 1) c) ∙ ground arith

log_write-ok : (b : ℕ) (s t : Log) → log_write b s ≡ ok t → t ≡ record_block b s
unfolding log_write
log_write-ok b s t e = ground arith

find_block-absent :
    (block : ℕ → ℕ) (b k i : ℕ) → find_block block b k i ≡ i + k → logged block k i b ≡ false
unfolding find_block logged
find_block-absent block b zero i e = refl
find_block-absent block b (suc k) i e = ground (arith, find_block-absent block b k (i + 1))

update_at : (f : ℕ → ℕ) (n b : ℕ) → update f n b (0 + n) ≡ b
update_at f n b = ground arith

module _ (b : ℕ) (s : Log) where
  abbrev place : ℕ
  place = find_block s.block b s.n 0

  new_block :
      (place == s.n) ≡ true
      → ((record_block b s).block ≡ update s.block place b) × ((record_block b s).n ≡ suc s.n)
  unfolding record_block
  new_block e = rw e (refl, omega arith)

  old_block :
      (place == s.n) ≡ false
      → ((record_block b s).block ≡ update s.block place b) × ((record_block b s).n ≡ s.n)
  unfolding record_block
  old_block e = rw e (refl, refl)

  logged-new :
      (c : ℕ)
      → place ≡ s.n
      → logged (update s.block place b) (suc s.n) 0 c ≡ (b == c || logged s.block s.n 0 c)
  logged-new c e =
      let f : ℕ → ℕ = update s.block place b in
      let last : f (0 + s.n) ≡ b = rw e (update_at s.block s.n b) in
      logged-last f s.n 0 c
      ∙ (λ t. last t == c || logged f s.n 0 c)
      ∙ ap (λ r. b == c || r)
          (logged_congr f s.block s.n 0 c (λ j p q. update_ne s.block place j b (omega arith)))

  logged-old :
      (c : ℕ)
      → place < s.n
      → logged (update s.block place b) s.n 0 c ≡ (b == c || logged s.block s.n 0 c)
  logged-old c h =
      let found = find_block-found s.block b s.n 0 in
      let here : s.block place ≡ b = found.2 (omega arith) in
      let present : logged s.block s.n 0 b ≡ true =
        subst (λ a. logged s.block s.n 0 a ≡ true) here
          (logged-at s.block s.n 0 place (omega arith) (omega arith)) in
      logged_congr (update s.block place b) s.block s.n 0 c
        (λ j p q. ground (arith, here, ap s.block {x = place} {y = j}))
      ∙ absorbed c present
    where
      absorbed :
          (c : ℕ)
          → logged s.block s.n 0 b ≡ true
          → logged s.block s.n 0 c ≡ (b == c || logged s.block s.n 0 c)
      absorbed c e = elim (Bool-cases (b == c)) [
        | inl q ↦ rw (← (==_iff b c).0 q, e, ==_self b)
        | inr q ↦ rw q
      ]

-- A `log_write` of block `b` that does not panic adds `b`, and only `b`, to the logged blocks;
-- where `b` was logged already, the number of logged blocks stays as it was.
pub log_write-logged :
    (b : ℕ) (s t : Log)
    → log_write b s ≡ ok t
    → ((c : ℕ) → logged t.block t.n 0 c ≡ (b == c || logged s.block s.n 0 c))
      × (logged s.block s.n 0 b ≡ true → t.n ≡ s.n)
log_write-logged b s t e = rw (log_write-ok b s t e) (elim (Bool-cases (place b s == s.n)) [
  | inl q ↦ (
    λ c.
        (λ i. logged ((new_block b s q).0 i) ((new_block b s q).1 i) 0 c)
        ∙ logged-new b s c (ground arith),
    λ l. cc (find_block-absent s.block b s.n 0 (whole q), l),
  )
  | inr q ↦ (
    λ c.
        (λ i. logged ((old_block b s q).0 i) ((old_block b s q).1 i) 0 c)
        ∙ logged-old b s c (below q),
    λ l. (old_block b s q).1,
  )
])
  where
    whole : (place b s == s.n) ≡ true → find_block s.block b s.n 0 ≡ 0 + s.n
    whole q = ground (arith, q)

    below : (place b s == s.n) ≡ false → place b s < s.n
    below q = ground (arith, find_block-found s.block b s.n 0)
