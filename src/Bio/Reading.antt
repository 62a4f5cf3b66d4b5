-- ===== src/Bio/Reading.antt =====
-- `bread` returns what the buffers and the disk together hold, and keeps it.
use xv6_riscv_zig.Prelude.{
  ℕ, ◌≡◌, refl, sym, ap, ◌∙◌, ◌≢◌, true, ◌&&◌, some, List, [], ◌∷◌, ◌==◌, arith, Bool-cases, subst₂,
  Run, ok, panic, inl, inr,
}
use xv6_riscv_zig.Bio.{
  Buf, Cache, Block, is_block, bget, recycled, buf_at, set_buf, bread_locked, fill,
}
use xv6_riscv_zig.Bio.Edits.{
  Edit, Cached, Recycled, Replaced, Got, cached, replaced, bget_lem, set_buf-Edit,
}
use xv6_riscv_zig.Bio.Keys.{Distinct}
use xv6_riscv_zig.Bio.Steps.{bget-Distinct, bread_locked-some, fill_key}
use xv6_riscv_zig.Bio.View.{
  seen, view, Clean, HasIds, view-Edit, view-Recycled, view-buf_at, Edit-buf_at,
}

-- What `bget` keeps, beside the distinct blocks: what the cache shows of each block, and an index
-- that leads to the block's buffer.
record Serves (dev blockno i : ℕ) (disk : ℕ → ℕ → Block) (bs cs : List Buf) : Type 0 where
  same_view : (d k : ℕ) → d ≢ 0 → view cs disk d k ≡ view bs disk d k
  buf : Buf
  at : buf_at cs i ≡ some buf
  is : is_block dev blockno buf ≡ true

bget-Serves :
    (dev blockno i : ℕ) (disk : ℕ → ℕ → Block) (bs cs : List Buf)
    → Distinct bs
    → Clean disk bs
    → HasIds bs
    → bget dev blockno bs ≡ ok (i, cs)
    → Serves dev blockno i disk bs cs
unfolding recycled
bget-Serves dev blockno i disk bs cs ds cl ids e =
    go (bget dev blockno bs) (bget_lem dev blockno bs) e
  where
    serves :
        (P : Buf → Buf → List Buf → Type 0) (j : ℕ) (es : List Buf)
        → ((b c : Buf) (behind : List Buf)
            → P b c behind
            → (b.id ≡ j) × (c.id ≡ j) × (is_block dev blockno c ≡ true))
        → Edit P bs es
        → ((d k : ℕ) → d ≢ 0 → view es disk d k ≡ view bs disk d k)
        → ◌≡◌ {A = Run (ℕ × List Buf)} (ok (j, es)) (ok (i, cs))
        → Serves dev blockno i disk bs cs
    serves P j es h edit same f =
        let p : j ≡ i = cc f in
        let q : es ≡ cs = cc f in
        let (c, at, is) = Edit-buf_at P dev blockno j h edit ids in
        subst₂ (λ i cs. Serves dev blockno i disk bs cs) p q
          (record { same_view = same; buf = c; at = at; is = is })

    go :
        (r : Run (ℕ × List Buf))
        → Got dev blockno bs r
        → r ≡ ok (i, cs)
        → Serves dev blockno i disk bs cs
    go (ok (j, es)) (cached _ _ edit) f =
        serves (Cached dev blockno j) j es (λ b c behind (hit, eq, p). (eq, rw p eq, rw p hit)) edit
          (λ d k nz.
            view-Edit disk (Cached dev blockno j) d k
              (λ b c behind (hit, eq, p). rw p (refl, refl, refl)) edit)
          f
    go (ok (j, es)) (replaced _ _ a edit) f =
        serves (Recycled dev blockno j) j es
          (λ b c behind (free, all, eq, p). (eq, rw p eq, rw p (ground arith))) edit
          (λ d k nz. view-Recycled disk dev blockno j d k nz edit a ds cl) f
    go (panic m) g f = cc f

fill-seen : (s : Cache) (b : Buf) → seen s.disk (fill s b) ≡ seen s.disk b
unfolding fill
fill-seen s b = elim (Bool-cases b.valid) [ inl v ↦ ground arith | inr v ↦ ground arith ]

fill_read : (s : Cache) (b : Buf) → ((fill s b).content ≡ seen s.disk b) × ((fill s b).valid ≡ true)
unfolding fill
fill_read s b = (ground arith, ground arith)

fill-id : (s : Cache) (b : Buf) → (fill s b).id ≡ b.id
unfolding fill
fill-id s b = ground arith

buf_at-id : (i : ℕ) (b : Buf) (bs : List Buf) → buf_at bs i ≡ some b → (b.id == i) ≡ true
buf_at-id i b [] e = cc e
buf_at-id i b (c ∷ bs) e = elim (Bool-cases (c.id == i)) [
  | inl hit ↦ let same : c ≡ b = cc (rw hit at e) in rw (← same) hit
  | inr miss ↦ buf_at-id i b bs (rw miss at e)
]

buf_at-set_buf :
    (i : ℕ) (b c : Buf) (bs : List Buf)
    → buf_at bs i ≡ some b
    → (c.id == i) ≡ true
    → buf_at (set_buf i c bs) i ≡ some c
buf_at-set_buf i b c [] e f = cc e
buf_at-set_buf i b c (d ∷ bs) e f = elim (Bool-cases (d.id == i)) [
  | inl hit ↦ rw (hit, f)
  | inr miss ↦ rw (miss, miss) (buf_at-set_buf i b c bs (rw miss at e) f)
]

-- The buffer with index `i` holds what the cache showed of the block, and the cache shows of every
-- block what it did.
pub record HasRead (dev blockno i : ℕ) (s t : Cache) : Type 0 where
  pub buf : Buf
  pub at : buf_at t.bufs i ≡ some buf
  pub is : is_block dev blockno buf ≡ true
  pub valid : buf.valid ≡ true
  pub read : buf.content ≡ view s.bufs s.disk dev blockno
  pub kept : (d k : ℕ) → d ≢ 0 → view t.bufs t.disk d k ≡ view s.bufs s.disk d k

-- Let the buffers be for distinct blocks and have distinct indices, and let each one without
-- references hold what is on the disk. Where `bread` of a block of a device other than 0 finds or
-- recycles a buffer and gets its lock, the buffer is the block's, is valid, and holds what buffers
-- and disk together held of the block before; and what they hold of every block is as it was.
pub bread-view :
    (me dev blockno i : ℕ) (s t : Cache) (cs : List Buf)
    → dev ≢ 0
    → Distinct s.bufs
    → Clean s.disk s.bufs
    → HasIds s.bufs
    → bget dev blockno s.bufs ≡ ok (i, cs)
    → bread_locked me i (record s { bufs = cs }) ≡ some t
    → HasRead dev blockno i s t
bread-view me dev blockno i s t cs nz ds cl ids e f =
    let served = bget-Serves dev blockno i s.disk s.bufs cs ds cl ids e in
    let s' : Cache = record s { bufs = cs } in
    let (b, lk, at, same) = bread_locked-some me i s' t f in
    let b' : Buf = record b { lock = lk } in
    let the_one : served.buf ≡ b = cc (served.at, at) in
    let is : is_block dev blockno b ≡ true = rw (← the_one) served.is in
    let (p, q) = fill_key s' b' in
    let (read, valid) = fill_read s' b' in
    let ds' = bget-Distinct dev blockno i s.bufs cs ds e in
    record {
      buf = fill s' b';
      at =
          ap (λ u. buf_at u.bufs i) same
          ∙ buf_at-set_buf i b (fill s' b') cs at
              (ap (λ k. k == i) (fill-id s' b') ∙ buf_at-id i b cs at);
      is = (λ x. p x == dev && q x == blockno) ∙ is;
      valid = valid;
      read =
          read
          ∙ sym (view-buf_at s.disk dev blockno i b cs nz ds' at is)
          ∙ served.same_view dev blockno nz;
      kept = λ d k nz'.
          (λ x. view (same x).bufs (same x).disk d k)
          ∙ view-Edit s.disk (Replaced b (fill s' b')) d k
              (λ y z behind (l, r). rw (l, r) (p, q, fill-seen s' b'))
              (set_buf-Edit i b (fill s' b') cs at)
          ∙ served.same_view d k nz';
    }
