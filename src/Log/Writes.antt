-- ===== src/Log/Writes.antt =====
-- Sequences of block writes: what they leave on a disk, and which of them matter.
use xv6_riscv_zig.Prelude.{
  ℕ, zero, suc, ◌+◌, ◌-◌, ◌<◌, ◌≤◌, ◌≡◌, refl, sym, ap, ◌∙◌, ◌≢◌, List, [], ◌∷◌, ◌++◌, arith, take,
  length, ◌==◌, Bool-cases, inl, inr, ==_iff, update_self, update, update_self, update_ne,
}
use xv6_riscv_zig.Log.{Block}

abbrev pub Disk : Type 0
Disk = ℕ → Block

-- Block numbers and what is written to them, first to last.
abbrev pub Writes : Type 0
Writes = List (ℕ × Block)

unfoldable pub write_all : Writes → Disk → Disk
write_all [] d = d
write_all ((b, v) ∷ ws) d = write_all ws (update d b v)

-- The writes of a loop of `k` rounds from `i` on
unfoldable pub entries : (ℕ → ℕ) → (ℕ → Block) → ℕ → ℕ → Writes
entries key val zero i = []
entries key val (suc k) i = (key i, val i) ∷ entries key val k (i + 1)

pub write_all-append :
    (ws vs : Writes) (d : Disk) → write_all (ws ++ vs) d ≡ write_all vs (write_all ws d)
unfolding write_all
write_all-append [] vs d = refl
write_all-append ((b, v) ∷ ws) vs d = write_all-append ws vs (update d b v)

pub take-append {ℓ} :
    {A : Type ℓ} (k : ℕ) (xs ys : List A) → take k (xs ++ ys) ≡ take k xs ++ take (k - length xs) ys
take-append zero xs ys = rw (zero_sub (length xs))
  where
    zero_sub : (n : ℕ) → 0 - n ≡ 0
    zero_sub n = omega arith
take-append (suc k) [] ys = rw (sub_zero k)
  where
    sub_zero : (k : ℕ) → suc k - 0 ≡ suc k
    sub_zero k = omega arith
take-append (suc k) (x ∷ xs) ys = rw (suc_sub k (length xs)) (ap (λ r. x ∷ r) (take-append k xs ys))
  where
    suc_sub : (k n : ℕ) → suc k - suc n ≡ k - n
    suc_sub k n = omega arith

pub length-entries : (key : ℕ → ℕ) (val : ℕ → Block) (k i : ℕ) → length (entries key val k i) ≡ k
unfolding entries
length-entries key val zero i = refl
length-entries key val (suc k) i = ap suc (length-entries key val k (i + 1))

-- Only the keys and values at the indices of the loop matter.
pub entries_congr :
    (key key' : ℕ → ℕ) (f g : ℕ → Block) (k i : ℕ)
    → ((j : ℕ) → i ≤ j → j < i + k → (key j ≡ key' j) × (f j ≡ g j))
    → entries key f k i ≡ entries key' g k i
unfolding entries
entries_congr key key' f g zero i h = refl
entries_congr key key' f g (suc k) i h =
    let here = h i (omega arith) (omega arith) in
    let rest = entries_congr key key' f g k (i + 1) (λ j p q. h j (omega arith) (omega arith)) in
    λ t. (here.0 t, here.1 t) ∷ rest t

-- `Avoids b ws`: no write of `ws` is to block `b`.
abbrev pub Avoids : ℕ → Writes → Type 0
Avoids b [] = Unit
Avoids b ((c, v) ∷ ws) = (c ≢ b) × Avoids b ws

pub write_all-Avoids : (ws : Writes) (d : Disk) (b : ℕ) → Avoids b ws → write_all ws d b ≡ d b
unfolding write_all
write_all-Avoids [] d b h = refl
write_all-Avoids ((c, v) ∷ ws) d b h =
    write_all-Avoids ws (update d c v) b h.1 ∙ update_ne d c b v h.0

pub take-Avoids : (k : ℕ) (ws : Writes) (b : ℕ) → Avoids b ws → Avoids b (take k ws)
take-Avoids zero ws b h = tt
take-Avoids (suc k) [] b h = tt
take-Avoids (suc k) ((c, v) ∷ ws) b h = (h.0, take-Avoids k ws b h.1)

pub append-Avoids : (ws vs : Writes) (b : ℕ) → Avoids b ws → Avoids b vs → Avoids b (ws ++ vs)
append-Avoids [] vs b h g = g
append-Avoids (w ∷ ws) vs b h g = (h.0, append-Avoids ws vs b h.1 g)

pub entries-Avoids :
    (key : ℕ → ℕ) (val : ℕ → Block) (b k i : ℕ)
    → ((j : ℕ) → i ≤ j → j < i + k → key j ≢ b)
    → Avoids b (entries key val k i)
unfolding entries
entries-Avoids key val b zero i h = tt
entries-Avoids key val b (suc k) i h = (
  h i (omega arith) (omega arith),
  entries-Avoids key val b k (i + 1) (λ j p q. h j (omega arith) (omega arith)),
)

-- What a block holds after the writes depends on what it held before in that block only.
pub write_all_congr :
    (ws : Writes) (d e : Disk) (b : ℕ) → d b ≡ e b → write_all ws d b ≡ write_all ws e b
unfolding write_all
write_all_congr [] d e b h = h
write_all_congr ((c, v) ∷ ws) d e b h =
    write_all_congr ws (update d c v) (update e c v) b (ground (arith, h))

-- To begin the writes, stop anywhere, and make them all again gives what they give at once.
pub write_all_again :
    (k : ℕ) (ws : Writes) (d e : Disk) (b : ℕ)
    → d b ≡ e b
    → write_all ws (write_all (take k ws) d) b ≡ write_all ws e b
unfolding write_all
write_all_again zero ws d e b h = write_all_congr ws d e b h
write_all_again (suc k) [] d e b h = h
write_all_again (suc k) ((c, v) ∷ ws) d e b h = elim (Bool-cases (c == b)) [
  | inl e' ↦ write_all_congr ws (update y c v) (update e c v) b (ground arith)
  | inr ne ↦
      write_all_congr ws (update y c v) y b (ground arith)
      ∙ write_all_again k ws (update d c v) (update e c v) b (ground arith)
]
  where
    y : Disk
    y = write_all (take k ws) (update d c v)

-- A loop over distinct blocks leaves each of its values.
pub write_all-entries :
    (key : ℕ → ℕ) (val : ℕ → Block) (k i j : ℕ) (d : Disk)
    → ((a b : ℕ) → a < b → b < i + k → key a ≢ key b)
    → i ≤ j
    → j < i + k
    → write_all (entries key val k i) d (key j) ≡ val j
unfolding write_all entries
write_all-entries key val zero i j d inj p q = absurd (omega arith)
write_all-entries key val (suc k) i j d inj p q = elim (Bool-cases (i == j)) [
  | inl e ↦ rw (← (==_iff i j).0 e) (
      write_all-Avoids (entries key val k (i + 1)) (update d (key i) (val i)) (key i) (
        entries-Avoids key val (key i) k (i + 1)
          (λ a r t e'. inj i a (omega arith) (omega arith) (sym e')))
      ∙ update_self d (key i) (val i))
  | inr ne ↦
      write_all-entries key val k (i + 1) j (update d (key i) (val i))
        (λ a b r t. inj a b r (omega arith)) (ground arith) (omega arith)
]

pub write_all_last : (d : Disk) (b : ℕ) (v : Block) → write_all ((b, v) ∷ []) d b ≡ v
unfolding write_all
write_all_last d b v = update_self d b v

pub take-append_of_le {ℓ} :
    {A : Type ℓ} (k : ℕ) (xs ys : List A) → k ≤ length xs → take k (xs ++ ys) ≡ take k xs
take-append_of_le zero xs ys h = refl
take-append_of_le (suc k) [] ys h = absurd (omega arith)
take-append_of_le (suc k) (x ∷ xs) ys h = ap (λ r. x ∷ r) (take-append_of_le k xs ys (omega arith))
