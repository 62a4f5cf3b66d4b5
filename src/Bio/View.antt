-- ===== src/Bio/View.antt =====
-- What the buffers and the disk together hold: reading a block through the cache does not change
-- it, also where another block's buffer is recycled for it.
use xv6_riscv_zig.Prelude.{
  ℕ, ◌≡◌, refl, sym, ap, ◌∙◌, ◌≢◌, Bool, true, false, ◌&&◌, some, List, [], ◌∷◌, ◌==◌, arith,
  if◌then◌else◌, ==_iff, Bool-cases, inl, inr,
}
use xv6_riscv_zig.Bio.{Buf, Block, is_block, recycled, buf_at}
use xv6_riscv_zig.Bio.Edits.{Edit, here, there, Absent, Recycled}
use xv6_riscv_zig.Bio.Keys.{Distinct, Absent-buf_at}

-- What a reader of the buffer will see
abbrev pub seen : (ℕ → ℕ → Block) → Buf → Block
seen disk b = if b.valid then b.content else disk b.dev b.blockno

abbrev pub view : List Buf → (ℕ → ℕ → Block) → ℕ → ℕ → Block
view [] disk dev blockno = disk dev blockno
view (b ∷ bs) disk dev blockno =
    if is_block dev blockno b then seen disk b else view bs disk dev blockno

-- A buffer without references holds what is on the disk.
abbrev pub Clean : (ℕ → ℕ → Block) → List Buf → Type 0
Clean disk [] = Unit
Clean disk (b ∷ bs) =
    (b.refcnt ≡ 0 → b.valid ≡ true → b.content ≡ disk b.dev b.blockno) × Clean disk bs

abbrev pub NoId : ℕ → List Buf → Type 0
NoId i [] = Unit
NoId i (b ∷ bs) = ((b.id == i) ≡ false) × NoId i bs

-- The buffers have distinct indices.
abbrev pub HasIds : List Buf → Type 0
HasIds [] = Unit
HasIds (b ∷ bs) = NoId b.id bs × HasIds bs

module _ (disk : ℕ → ℕ → Block) where
  pub view-Absent :
      (dev blockno : ℕ) (bs : List Buf)
      → Absent dev blockno bs
      → view bs disk dev blockno ≡ disk dev blockno
  view-Absent dev blockno [] a = refl
  view-Absent dev blockno (b ∷ bs) (a, as') = rw a (view-Absent dev blockno bs as')

  -- A buffer may be replaced by one for the same block that shows the same.
  pub view-Edit :
      (P : Buf → Buf → List Buf → Type 0) (dev blockno : ℕ)
      → ((b c : Buf) (behind : List Buf)
          → P b c behind
          → (c.dev ≡ b.dev) × (c.blockno ≡ b.blockno) × (seen disk c ≡ seen disk b))
      → {bs cs : List Buf} → Edit P bs cs
      → view cs disk dev blockno ≡ view bs disk dev blockno
  view-Edit P dev blockno h (here {b} {c} {bs} p) =
      let (e, f, g) = h b c bs p in
      λ i. if (e i == dev && f i == blockno) then g i else view bs disk dev blockno
  view-Edit P dev blockno h (there {b} edit) =
      ap (λ v. if is_block dev blockno b then seen disk b else v) (view-Edit P dev blockno h edit)

  clean_if : (v : Bool) (x y : Block) → (v ≡ true → x ≡ y) → (if v then x else y) ≡ y
  clean_if true x y h = h refl
  clean_if false x y h = refl

  pub view-Recycled :
      (dev blockno i d k : ℕ)
      → d ≢ 0
      → {bs cs : List Buf} → Edit (Recycled dev blockno i) bs cs
      → Absent dev blockno bs
      → Distinct bs
      → Clean disk bs
      → view cs disk d k ≡ view bs disk d k
  unfolding recycled
  view-Recycled dev blockno i d k nz (here {b} {c} {bs} (free, all, eq, e)) (a, as') (ap', ds)
        (cl, cls) =
      rw e (elim (Bool-cases (dev == d && blockno == k)) [
        | inl new ↦
            let p : dev ≡ d = (==_iff dev d).0 (ground arith) in
            let q : blockno ≡ k = (==_iff blockno k).0 (ground arith) in
            let off : is_block d k b ≡ false = rw (← p, ← q) a in
            let none_behind : Absent d k bs = rw (← p, ← q) as' in
            rw (new, off) ((λ i. disk (p i) (q i)) ∙ sym (view-Absent d k bs none_behind))
        | inr old ↦ elim (Bool-cases (is_block d k b)) [
          | inl was ↦
              let p : b.dev ≡ d = (==_iff b.dev d).0 (ground arith) in
              let q : b.blockno ≡ k = (==_iff b.blockno k).0 (ground arith) in
              let none_behind : Absent d k bs = rw (← p, ← q) (ap' (rw p nz)) in
              rw (old, was)
                (view-Absent d k bs none_behind
                  ∙ (λ i. disk (sym p i) (sym q i))
                  ∙ sym (clean_if b.valid b.content (disk b.dev b.blockno) (cl free)))
          | inr not_it ↦ rw (old, not_it)
        ]
      ])
  view-Recycled dev blockno i d k nz (there {b} edit) (a, as') (ap', ds) (cl, cls) =
      ap (λ v. if is_block d k b then seen disk b else v)
        (view-Recycled dev blockno i d k nz edit as' ds cls)

  -- The buffer that caches a block shows what the cache shows of it.
  pub view-buf_at :
      (dev blockno i : ℕ) (b : Buf) (bs : List Buf)
      → dev ≢ 0
      → Distinct bs
      → buf_at bs i ≡ some b
      → is_block dev blockno b ≡ true
      → view bs disk dev blockno ≡ seen disk b
  view-buf_at dev blockno i b [] nz d e is = cc e
  view-buf_at dev blockno i b (c ∷ bs) nz (a, d) e is = elim (Bool-cases (c.id == i)) [
    | inl hit ↦ let same : c ≡ b = cc (rw hit at e) in rw (same, is)
    | inr miss ↦
        let later : buf_at bs i ≡ some b = rw miss at e in
        elim (Bool-cases (is_block dev blockno c)) [
          | inr off ↦ rw off (view-buf_at dev blockno i b bs nz d later is)
          | inl on ↦
              let p : c.dev ≡ dev = (==_iff c.dev dev).0 (ground arith) in
              let q : c.blockno ≡ blockno = (==_iff c.blockno blockno).0 (ground arith) in
              let off : is_block c.dev c.blockno b ≡ false =
                Absent-buf_at c.dev c.blockno i b bs (a (rw p nz)) later in
              let bad : is_block dev blockno b ≡ false = rw (← p, ← q) off in cc (is, bad)
        ]
  ]

  NoId-Edit :
      (P : Buf → Buf → List Buf → Type 0) (i : ℕ)
      → ((b c : Buf) (behind : List Buf) → P b c behind → c.id ≡ b.id)
      → {bs cs : List Buf} → Edit P bs cs
      → NoId i bs
      → NoId i cs
  NoId-Edit P i h (here {b} {c} {bs} p) (n, ns) = (rw (h b c bs p) n, ns)
  NoId-Edit P i h (there edit) (n, ns) = (n, NoId-Edit P i h edit ns)

Edit-NoId :
    (P : Buf → Buf → List Buf → Type 0) (dev blockno i m : ℕ)
    → ((b c : Buf) (behind : List Buf)
        → P b c behind
        → (b.id ≡ i) × (c.id ≡ i) × (is_block dev blockno c ≡ true))
    → {bs cs : List Buf} → Edit P bs cs
    → NoId m bs
    → (m == i) ≡ false
Edit-NoId P dev blockno i m h (here {b} {c} {bs} p) (n, ns) =
    let (e, f, is) = h b c bs p in ground arith
Edit-NoId P dev blockno i m h (there edit) (n, ns) = Edit-NoId P dev blockno i m h edit ns

-- The buffer that `bget` returns is the block's.
pub Edit-buf_at :
    (P : Buf → Buf → List Buf → Type 0) (dev blockno i : ℕ)
    → ((b c : Buf) (behind : List Buf)
        → P b c behind
        → (b.id ≡ i) × (c.id ≡ i) × (is_block dev blockno c ≡ true))
    → {bs cs : List Buf} → Edit P bs cs
    → HasIds bs
    → (c : Buf) × (buf_at cs i ≡ some c) × (is_block dev blockno c ≡ true)
Edit-buf_at P dev blockno i h (here {b} {c} {bs} p) (n, ids) =
    let (e, f, is) = h b c bs p in (c, rw ((==_iff c.id i).1 f), is)
Edit-buf_at P dev blockno i h (there {b} {bs} {cs} edit) (n, ids) =
    let (c, at, is) = Edit-buf_at P dev blockno i h edit ids in
    (c, rw (Edit-NoId P dev blockno i b.id h edit n) at, is)
