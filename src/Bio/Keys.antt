-- ===== src/Bio/Keys.antt =====
-- At most one buffer caches a block: an invariant of every step of the buffer cache. (The buffers
-- start out for block 0 of device 0, which no one reads.)
use xv6_riscv_zig.Prelude.{
  ℕ, ◌≡◌, ◌≢◌, false, some, List, [], ◌∷◌, ◌==◌, arith, Bool-cases, inl, inr,
}
use xv6_riscv_zig.Bio.{Buf, is_block, recycled, buf_at, unlink}
use xv6_riscv_zig.Bio.Edits.{Edit, here, there, Absent, Recycled}

abbrev pub Distinct : List Buf → Type 0
Distinct [] = Unit
Distinct (b ∷ bs) = (b.dev ≢ 0 → Absent b.dev b.blockno bs) × Distinct bs

pub Absent-Edit :
    (P : Buf → Buf → List Buf → Type 0) (dev blockno : ℕ)
    → ((b c : Buf) (behind : List Buf)
        → P b c behind
        → is_block dev blockno b ≡ false
        → is_block dev blockno c ≡ false)
    → {bs cs : List Buf} → Edit P bs cs
    → Absent dev blockno bs
    → Absent dev blockno cs
Absent-Edit P dev blockno h (here {b} {c} {bs} p) (a, as') = (h b c bs p a, as')
Absent-Edit P dev blockno h (there edit) (a, as') = (a, Absent-Edit P dev blockno h edit as')

pub Distinct-Edit :
    (P : Buf → Buf → List Buf → Type 0)
    → ((b c : Buf) (behind : List Buf) → P b c behind → (c.dev ≡ b.dev) × (c.blockno ≡ b.blockno))
    → {bs cs : List Buf} → Edit P bs cs
    → Distinct bs
    → Distinct cs
Distinct-Edit P h (here {b} {c} {bs} p) (a, d) =
    let (e, f) = h b c bs p in (λ ne. rw (e, f) (a (rw (← e) ne)), d)
Distinct-Edit P h (there {b} edit) (a, d) = (
  λ ne.
      Absent-Edit P b.dev b.blockno (λ x y behind p q. let (e, f) = h x y behind p in rw (e, f) q)
        edit (a ne),
  Distinct-Edit P h edit d,
)

pub Distinct-Recycled :
    (dev blockno i : ℕ)
    → {bs cs : List Buf} → Edit (Recycled dev blockno i) bs cs
    → Absent dev blockno bs
    → Distinct bs
    → Distinct cs
unfolding recycled
Distinct-Recycled dev blockno i (here {b} {c} {bs} (free, all, same, e)) (a, as') (k, d) =
    rw e (λ ne. as', d)
Distinct-Recycled dev blockno i (there {b} edit) (a, as') (k, d) = (
  λ ne.
      Absent-Edit (Recycled dev blockno i) b.dev b.blockno
        (λ x y behind (free, all, same, e) q. rw e (ground arith)) edit (k ne),
  Distinct-Recycled dev blockno i edit as' d,
)

pub Absent-unlink :
    (dev blockno i : ℕ) (bs : List Buf) → Absent dev blockno bs → Absent dev blockno (unlink i bs)
unfolding unlink
Absent-unlink dev blockno i [] a = tt
Absent-unlink dev blockno i (b ∷ bs) (a, as') = elim (Bool-cases (b.id == i)) [
  | inl hit ↦ rw hit as'
  | inr miss ↦ rw miss (a, Absent-unlink dev blockno i bs as')
]

pub Distinct-unlink : (i : ℕ) (bs : List Buf) → Distinct bs → Distinct (unlink i bs)
unfolding unlink
Distinct-unlink i [] d = tt
Distinct-unlink i (b ∷ bs) (a, d) = elim (Bool-cases (b.id == i)) [
  | inl hit ↦ rw hit d
  | inr miss ↦ rw miss (λ ne. Absent-unlink b.dev b.blockno i bs (a ne), Distinct-unlink i bs d)
]

pub Absent-buf_at :
    (dev blockno i : ℕ) (b : Buf) (bs : List Buf)
    → Absent dev blockno bs
    → buf_at bs i ≡ some b
    → is_block dev blockno b ≡ false
Absent-buf_at dev blockno i b [] a e = cc e
Absent-buf_at dev blockno i b (c ∷ bs) (a, as') e = elim (Bool-cases (c.id == i)) [
  | inl hit ↦ let same : c ≡ b = cc (rw hit at e) in rw (← same) a
  | inr miss ↦ Absent-buf_at dev blockno i b bs as' (rw miss at e)
]

-- No other buffer caches what the buffer with index `i` does.
pub unlink-Absent :
    (i : ℕ) (b : Buf) (bs : List Buf)
    → Distinct bs
    → buf_at bs i ≡ some b
    → b.dev ≢ 0
    → Absent b.dev b.blockno (unlink i bs)
unfolding unlink
unlink-Absent i b [] d e ne = tt
unlink-Absent i b (c ∷ bs) (a, d) e ne = elim (Bool-cases (c.id == i)) [
  | inl hit ↦ let same : c ≡ b = cc (rw hit at e) in rw hit (rw (← same) (a (rw same ne)))
  | inr miss ↦
      let later : buf_at bs i ≡ some b = rw miss at e in
      rw miss (other later, unlink-Absent i b bs d later ne)
]
  where
    other : buf_at bs i ≡ some b → is_block b.dev b.blockno c ≡ false
    other later = elim (Bool-cases (c.dev == 0)) [
      | inl z ↦ ground arith
      | inr nz ↦
          let apart : is_block c.dev c.blockno b ≡ false =
            Absent-buf_at c.dev c.blockno i b bs (a (λ z. ground arith)) later in
          ground arith
    ]
