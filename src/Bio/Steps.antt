-- ===== src/Bio/Steps.antt =====
-- Every step of the buffer cache keeps its buffers for distinct blocks.
use xv6_riscv_zig.Prelude.{
  ℕ, zero, suc, ◌≡◌, refl, ap, ◌≢◌, true, false, some, List, [], ◌∷◌, ◌==◌, arith, not, dec32,
  Bool-cases, ok, Run, Option-cases, inc32, inl, inr, get_elem?, panic,
}
use xv6_riscv_zig.Locks.{Sleeplock, holdingsleep, releasesleep, acquiresleep}
use xv6_riscv_zig.Bio.{
  Buf, Cache, Block, is_block, bget, buf_at, set_buf, put_back, brelse, bread_locked, fill, bwrite,
  bpin, bunpin, binit, init_bufs, nbuf,
}
use xv6_riscv_zig.Bio.Edits.{
  Absent, Cached, Replaced, Got, cached, replaced, bget_lem, set_buf-Edit,
}
use xv6_riscv_zig.Bio.Keys.{
  Distinct, Distinct-Edit, Distinct-Recycled, Distinct-unlink, unlink-Absent,
}

pub bget-Distinct :
    (dev blockno i : ℕ) (bs cs : List Buf)
    → Distinct bs
    → bget dev blockno bs ≡ ok (i, cs)
    → Distinct cs
bget-Distinct dev blockno i bs cs d e = go (bget dev blockno bs) (bget_lem dev blockno bs) e
  where
    go : (r : Run (ℕ × List Buf)) → Got dev blockno bs r → r ≡ ok (i, cs) → Distinct cs
    go (ok (j, ds)) (cached _ _ edit) f =
        let same : ds ≡ cs = cc f in
        rw (← same) (
          Distinct-Edit (Cached dev blockno j) (λ b c behind (hit, eq, p). rw p (refl, refl)) edit
            d)
    go (ok (j, ds)) (replaced _ _ a edit) f =
        let same : ds ≡ cs = cc f in rw (← same) (Distinct-Recycled dev blockno j edit a d)
    go (panic m) g f = cc f

pub set_buf-Distinct :
    (i : ℕ) (b c : Buf) (bs : List Buf)
    → buf_at bs i ≡ some b
    → c.dev ≡ b.dev
    → c.blockno ≡ b.blockno
    → Distinct bs
    → Distinct (set_buf i c bs)
set_buf-Distinct i b c bs e dev blockno =
    Distinct-Edit (Replaced b c) (λ x y behind (p, q). rw (p, q) (dev, blockno))
      (set_buf-Edit i b c bs e)

pub put_back-Distinct :
    (b : Buf) (lk : Sleeplock) (bs : List Buf)
    → buf_at bs b.id ≡ some b
    → Distinct bs
    → Distinct (put_back (record b { lock = lk }) bs)
unfolding put_back
put_back-Distinct b lk bs e d = elim (Bool-cases (dec32 b.refcnt == 0)) [
  | inl last ↦ rw last (λ ne. unlink-Absent b.id b bs d e ne, Distinct-unlink b.id bs d)
  | inr more ↦
      rw more
        (set_buf-Distinct b.id b (record b { lock = lk; refcnt = dec32 b.refcnt }) bs e refl refl d)
]

-- One step of the cache. The holder of a buffer's lock may change its contents.
pub data Step (s t : Cache) : Type 0 where
  gets :
      (dev blockno i : ℕ) (cs : List Buf)
      → dev ≢ 0
      → bget dev blockno s.bufs ≡ ok (i, cs)
      → t ≡ record s { bufs = cs }
      → Step s t
  locks : (me i : ℕ) → bread_locked me i s ≡ some t → Step s t
  stores :
      (me i : ℕ) (b : Buf) (v : Block)
      → buf_at s.bufs i ≡ some b
      → holdingsleep me b.lock ≡ true
      → t ≡ record s { bufs = set_buf i (record b { content = v }) s.bufs }
      → Step s t
  writes : (me i : ℕ) (b : Buf) → buf_at s.bufs i ≡ some b → bwrite me b s ≡ ok t → Step s t
  releases :
      (me : ℕ) (b : Buf) (cs : List Buf)
      → buf_at s.bufs b.id ≡ some b
      → brelse me b s.bufs ≡ ok cs
      → t ≡ record s { bufs = cs }
      → Step s t
  pins : (b : Buf) → buf_at s.bufs b.id ≡ some b → t ≡ record s { bufs = bpin b s.bufs } → Step s t
  unpins :
      (b : Buf) → buf_at s.bufs b.id ≡ some b → t ≡ record s { bufs = bunpin b s.bufs } → Step s t

pub data Reach (s : Cache) : Cache → Type 0 where
  start : Reach s s
  next : {t u : Cache} → Reach s t → Step t u → Reach s u

-- What `bread` has done once it holds the lock
pub bread_locked-some :
    (me i : ℕ) (s t : Cache)
    → bread_locked me i s ≡ some t
    → (b : Buf) × (lk : Sleeplock) × (buf_at s.bufs i ≡ some b)
      × (t ≡ record s { bufs = set_buf i (fill s (record b { lock = lk })) s.bufs })
unfolding bread_locked
bread_locked-some me i s t e = elim (Option-cases (buf_at s.bufs i)) [
  | inl n ↦ cc (rw (n, bread_locked) at e)
  | inr (b, at) ↦ elim (Option-cases (acquiresleep me b.lock)) [
    | inl n ↦ cc (rw (at, n, bread_locked) at e)
    | inr (lk, free) ↦ (b, lk, at, cc (rw (at, free, bread_locked) at e))
  ]
]

pub fill_key : (s : Cache) (b : Buf) → ((fill s b).dev ≡ b.dev) × ((fill s b).blockno ≡ b.blockno)
unfolding fill
fill_key s b = (ground arith, ground arith)

pub bread_locked-Distinct :
    (me i : ℕ) (s t : Cache) → Distinct s.bufs → bread_locked me i s ≡ some t → Distinct t.bufs
bread_locked-Distinct me i s t d e =
    let (b, lk, at, same) = bread_locked-some me i s t e in
    let (dev, blockno) = fill_key s (record b { lock = lk }) in
    rw same (set_buf-Distinct i b (fill s (record b { lock = lk })) s.bufs at dev blockno d)

pub bwrite-bufs : (me : ℕ) (b : Buf) (s t : Cache) → bwrite me b s ≡ ok t → t.bufs ≡ s.bufs
unfolding bwrite
bwrite-bufs me b s t e = elim (Bool-cases (not (holdingsleep me b.lock))) [
  | inl bad ↦ cc (rw bad at e)
  | inr good ↦ cc (rw good at e)
]

pub brelse-ok :
    (me : ℕ) (b : Buf) (bs cs : List Buf)
    → brelse me b bs ≡ ok cs
    → cs ≡ put_back (record b { lock = releasesleep b.lock }) bs
unfolding brelse
brelse-ok me b bs cs e = elim (Bool-cases (not (holdingsleep me b.lock))) [
  | inl bad ↦ cc (rw bad at e)
  | inr good ↦ cc (rw good at e)
]

pub Step-Distinct : {s t : Cache} → Step s t → Distinct s.bufs → Distinct t.bufs
unfolding bpin bunpin
Step-Distinct {s} (gets dev blockno i cs ne e p) d =
    rw p (bget-Distinct dev blockno i s.bufs cs d e)
Step-Distinct {s} {t} (locks me i e) d = bread_locked-Distinct me i s t d e
Step-Distinct {s} (stores me i b v at h p) d =
    rw p (set_buf-Distinct i b (record b { content = v }) s.bufs at refl refl d)
Step-Distinct {s} {t} (writes me i b at e) d = rw (bwrite-bufs me b s t e) d
Step-Distinct {s} (releases me b cs at e p) d =
    rw (p, brelse-ok me b s.bufs cs e) (put_back-Distinct b (releasesleep b.lock) s.bufs at d)
Step-Distinct {s} (pins b at p) d =
    rw p (set_buf-Distinct b.id b (record b { refcnt = inc32 b.refcnt }) s.bufs at refl refl d)
Step-Distinct {s} (unpins b at p) d =
    rw p (set_buf-Distinct b.id b (record b { refcnt = dec32 b.refcnt }) s.bufs at refl refl d)

Absent-unkeyed : (dev blockno n : ℕ) → dev ≢ 0 → Absent dev blockno (init_bufs n)
unfolding init_bufs
Absent-unkeyed dev blockno zero ne = tt
Absent-unkeyed dev blockno (suc n) ne = (ground arith, Absent-unkeyed dev blockno n ne)

init_bufs-Distinct : (n : ℕ) → Distinct (init_bufs n)
unfolding init_bufs
init_bufs-Distinct zero = tt
init_bufs-Distinct (suc n) = (λ ne. absurd (ne refl), init_bufs-Distinct n)

Reach-Distinct : {s t : Cache} → Reach s t → Distinct s.bufs → Distinct t.bufs
Reach-Distinct start d = d
Reach-Distinct (next r st) d = Step-Distinct st (Reach-Distinct r d)

Absent-get :
    (dev blockno j : ℕ) (c : Buf) (bs : List Buf)
    → Absent dev blockno bs
    → get_elem? bs j ≡ some c
    → is_block dev blockno c ≡ false
Absent-get dev blockno j c [] a e = cc e
Absent-get dev blockno zero c (b ∷ bs) (a, as') e = let same : b ≡ c = cc e in rw (← same) a
Absent-get dev blockno (suc j) c (b ∷ bs) (a, as') e = Absent-get dev blockno j c bs as' e

clash : (c x : Buf) → x.dev ≡ c.dev → x.blockno ≡ c.blockno → ¬ (is_block x.dev x.blockno c ≡ false)
clash c x p q apart = ground arith

Distinct-get :
    (i j : ℕ) (b c : Buf) (bs : List Buf)
    → Distinct bs
    → get_elem? bs i ≡ some b
    → get_elem? bs j ≡ some c
    → b.dev ≢ 0
    → b.dev ≡ c.dev
    → b.blockno ≡ c.blockno
    → i ≡ j
Distinct-get i j b c [] d e f ne p q = cc e
Distinct-get zero zero b c (x ∷ bs) (a, d) e f ne p q = refl
Distinct-get zero (suc j) b c (x ∷ bs) (a, d) e f ne p q =
    let same : x ≡ b = cc e in
    let apart = Absent-get x.dev x.blockno j c bs (a (rw same ne)) f in
    absurd (clash c x (rw same p) (rw same q) apart)
Distinct-get (suc i) zero b c (x ∷ bs) (a, d) e f ne p q =
    let same : x ≡ c = cc f in
    let apart = Absent-get x.dev x.blockno i b bs (a (rw (same, ← p) ne)) e in
    absurd (clash b x (rw (same, p) refl) (rw (same, q) refl) apart)
Distinct-get (suc i) (suc j) b c (x ∷ bs) (a, d) e f ne p q =
    ap suc (Distinct-get i j b c bs d e f ne p q)

-- In every state that the zeroed buffers and any steps lead to, a block of a device other than 0 is
-- cached by one buffer of the list alone.
pub bufs_distinct :
    {t : Cache} (disk : ℕ → ℕ → Block) (i j : ℕ) (b c : Buf)
    → Reach (record { bufs = binit; disk = disk }) t
    → get_elem? t.bufs i ≡ some b
    → get_elem? t.bufs j ≡ some c
    → b.dev ≢ 0
    → b.dev ≡ c.dev
    → b.blockno ≡ c.blockno
    → i ≡ j
unfolding binit
bufs_distinct {t} disk i j b c r =
    Distinct-get i j b c t.bufs (Reach-Distinct r (init_bufs-Distinct nbuf))
