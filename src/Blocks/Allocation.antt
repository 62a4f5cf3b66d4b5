-- ===== src/Blocks/Allocation.antt =====
-- `balloc` takes the first block that the bitmap has free, and `bfree` gives it back.
use xv6_riscv_zig.Prelude.{
  ℕ, zero, suc, ◌+◌, ◌-◌, ◌*◌, ◌/◌, ◌%◌, ◌≤◌, ◌<◌, ◌≡◌, ◌≢◌, ◌⊎◌, refl, ap, ap₂, ◌∙◌, sym, true,
  false, Option, none, some, min, arith, Bool-cases, inl, inr, ◌==◌, ltb, ltb→lt, if◌then◌else◌,
  update, update_self, update_ne, ◌∷◌,
}
use xv6_riscv_zig.Blocks.{
  Superblock, Disk, no_dinode, bpb, bzero, set_bit, bblock, find_bit, take_block, balloc_from,
  balloc,
}
use xv6_riscv_zig.Blocks.Bits.{bit-set_bit_self, bit-set_bit_ne}
use xv6_riscv_zig.Blocks.Bitmap.{bblock_lt, bblock_same, in_use-change}
use xv6_riscv_zig.Blocks.Search.{bit_of, in_use, FirstClear, find_bit-FirstClear}

-- The blocks up to the end of the bitmap are in use.
abbrev pub MetaInUse : Superblock → Disk → Type 0
MetaInUse sb d = (c : ℕ) → c < sb.bmapstart + (sb.size / bpb + 1) → in_use sb d c ≡ true

-- Block `r` was free and is taken: the bitmap has it in use and has not changed otherwise, its data
-- are zero under every cast, and no other block has changed but the one of the bitmap.
pub record Taken (sb : Superblock) (d : Disk) (r : ℕ) (t : Disk) : Type 0 where
  pub inside : r < sb.size
  pub free : in_use sb d r ≡ false
  pub marked : (c : ℕ) → c < sb.size → in_use sb t c ≡ (if c == r then true else in_use sb d c)
  pub zeroed : (i : ℕ) → (t.bytes r i ≡ 0) × (t.words r i ≡ 0) × (t.dinodes r i ≡ no_dinode)
  pub bytes_kept : (c : ℕ) → c ≢ r → c ≢ bblock r sb → t.bytes c ≡ d.bytes c
  pub words_kept : (c : ℕ) → c ≢ r → t.words c ≡ d.words c
  pub dinodes_kept : (c : ℕ) → c ≢ r → t.dinodes c ≡ d.dinodes c
  pub logged : t.logged ≡ r ∷ bblock r sb ∷ d.logged

pub free_beyond :
    (sb : Superblock) (d : Disk) (r : ℕ)
    → MetaInUse sb d
    → in_use sb d r ≡ false
    → sb.bmapstart + (sb.size / bpb + 1) ≤ r
free_beyond sb d r meta free = elim (Bool-cases (ltb r (sb.bmapstart + (sb.size / bpb + 1)))) [
  | inl below ↦ cc (meta r (ground arith), free)
  | inr beyond ↦ ground arith
]

-- After `take_block` of the block `r`, the bitmap's bit of another block
take_block-marked :
    (sb : Superblock) (b bi c : ℕ) (d : Disk)
    → b % bpb ≡ 0
    → bi < bpb
    → b + bi < sb.size
    → c < sb.size
    → sb.bmapstart + (sb.size / bpb + 1) ≤ b + bi
    → in_use sb (take_block sb b bi d) c ≡ (if c == b + bi then true else in_use sb d c)
unfolding take_block bzero
take_block-marked sb b bi c d round small inside lt beyond =
    ap (λ f. bit_of f (c % bpb))
      (update_ne (update d.bytes bno byte) (b + bi) (bblock c sb) (λ i. 0)
        (λ e. omega (arith, e, beyond, bblock_lt sb c lt)))
    ∙ in_use-change set_bit true bit-set_bit_self bit-set_bit_ne sb d bno bi (b + bi) c
        (sym (bblock_same sb b (b + bi) (omega (arith, round, small))))
        (omega (arith, round, small))
  where
    bno : ℕ
    bno = bblock b sb

    byte : ℕ → ℕ
    byte = update (d.bytes bno) (bi / 8) (set_bit (d.bytes bno (bi / 8)) (bi % 8))

take_block-Taken :
    (sb : Superblock) (b bi : ℕ) (d : Disk)
    → MetaInUse sb d
    → b % bpb ≡ 0
    → bi < bpb
    → b + bi < sb.size
    → in_use sb d (b + bi) ≡ false
    → Taken sb d (b + bi) (take_block sb b bi d)
unfolding take_block bzero
take_block-Taken sb b bi d meta round small inside free = record {
  inside = inside;
  free = free;
  marked = λ c lt. take_block-marked sb b bi c d round small inside lt beyond;
  zeroed = λ i. (
    ap (λ f. f i) (update_self (update d.bytes bno byte) (b + bi) (λ j. 0)),
    ap (λ f. f i) (update_self d.words (b + bi) (λ j. 0)),
    ap (λ f. f i) (update_self d.dinodes (b + bi) (λ j. no_dinode)),
  );
  bytes_kept = λ c ne other.
      update_ne (update d.bytes bno byte) (b + bi) c (λ i. 0) (λ e. ne (sym e))
      ∙ update_ne d.bytes bno c byte (λ e. other (sym e ∙ in_bitmap));
  words_kept = λ c ne. update_ne d.words (b + bi) c (λ i. 0) (λ e. ne (sym e));
  dinodes_kept = λ c ne. update_ne d.dinodes (b + bi) c (λ i. no_dinode) (λ e. ne (sym e));
  logged = ap (λ n. (b + bi) ∷ n ∷ d.logged) in_bitmap;
}
  where
    in_bitmap : bblock b sb ≡ bblock (b + bi) sb
    in_bitmap = bblock_same sb b (b + bi) (omega (arith, round, small))

    bno : ℕ
    bno = bblock b sb

    byte : ℕ → ℕ
    byte = update (d.bytes bno) (bi / 8) (set_bit (d.bytes bno (bi / 8)) (bi % 8))

    beyond : sb.bmapstart + (sb.size / bpb + 1) ≤ b + bi
    beyond = free_beyond sb d (b + bi) meta free

-- The bit of a block in the bitmap block of a round of the outer loop
in_use-round :
    (sb : Superblock) (d : Disk) (b j c : ℕ)
    → b % bpb ≡ 0
    → j < bpb
    → c ≡ b + j
    → in_use sb d c ≡ bit_of (d.bytes (bblock b sb)) j
in_use-round sb d b j c round small e =
    ap₂ (λ n i. bit_of (d.bytes n) i) (sym (bblock_same sb b c (omega (arith, round, small, e))))
      (omega (arith, round, small, e))

-- Either a free block was taken, the first one from `b` on, or there is none and nothing changed.
abbrev pub Allocated : Superblock → Disk → ℕ → Disk × ℕ → Type 0
Allocated sb d b (t, r) =
    ((r ≡ 0) × (t ≡ d) × ((c : ℕ) → b ≤ c → c < sb.size → in_use sb d c ≡ true))
    ⊎ (Taken sb d r t × ((c : ℕ) → b ≤ c → c < r → in_use sb d c ≡ true))

Allocated-next :
    (sb : Superblock) (d : Disk) (b : ℕ) (res : Disk × ℕ)
    → ((c : ℕ) → b ≤ c → c < b + bpb → c < sb.size → in_use sb d c ≡ true)
    → Allocated sb d (b + bpb) res
    → Allocated sb d b res
Allocated-next sb d b (t, r) here (inl (null, same, none_left)) = inl (
  null,
  same,
  λ c le lt. elim (Bool-cases (ltb c (b + bpb))) [
    | inl now ↦ here c le (ground arith) lt
    | inr later ↦ none_left c (ground arith) lt
  ],
)
Allocated-next sb d b (t, r) here (inr (taken, before)) = inr (
  taken,
  λ c le lt. elim (Bool-cases (ltb c (b + bpb))) [
    | inl now ↦ here c le (ground arith) (omega (arith, lt, taken.inside))
    | inr later ↦ before c (ground arith) lt
  ],
)

balloc_from-Allocated :
    (sb : Superblock) (fuel b : ℕ) (d : Disk)
    → MetaInUse sb d
    → b % bpb ≡ 0
    → sb.size ≤ b + fuel * bpb
    → Allocated sb d b (balloc_from sb fuel b d)
unfolding balloc_from
balloc_from-Allocated sb zero b d meta round enough =
    inl (refl, refl, λ c le lt. absurd (omega (arith, le, lt, enough)))
balloc_from-Allocated sb (suc fuel) b d meta round enough = elim (Bool-cases (ltb b sb.size)) [
  | inr past ↦ rw past (inl (refl, refl, λ c le lt. absurd (ground arith)))
  | inl more ↦ rw more (
      round_ends (find_bit (d.bytes (bblock b sb)) 0 (min bpb (sb.size - b)))
        (find_bit-FirstClear (d.bytes (bblock b sb)) 0 (min bpb (sb.size - b)))
        (ltb→lt b sb.size more) (balloc_from sb fuel (b + bpb) d)
        (balloc_from-Allocated sb fuel (b + bpb) d meta (omega (arith, round))
          (omega (arith, enough))))
]
  where
    round_ends :
        (o : Option ℕ)
        → FirstClear (d.bytes (bblock b sb)) 0 (min bpb (sb.size - b)) o
        → b < sb.size
        → (rest : Disk × ℕ) → Allocated sb d (b + bpb) rest
        → Allocated sb d b
            (elim o as (λ x. Disk × ℕ) [ some bi ↦ (take_block sb b bi d, b + bi) | none ↦ rest ])
    round_ends none all lt rest ih =
        Allocated-next sb d b rest
          (λ c le near inside.
            in_use-round sb d b (c - b) c round (omega (arith, le, near)) (omega (arith, le))
            ∙ all (c - b) (omega arith) (omega (arith, le, near, inside)))
          ih
    round_ends (some bi) (le, small, clear, before) lt rest ih = inr (
      take_block-Taken sb b bi d meta round (omega (arith, small)) (omega (arith, small))
          (in_use-round sb d b bi (b + bi) round (omega (arith, small)) refl ∙ clear),
      λ c from below.
          in_use-round sb d b (c - b) c round (omega (arith, from, below, small))
            (omega (arith, from))
          ∙ before (c - b) (omega arith) (omega (arith, from, below)),
    )

-- Let the blocks up to the end of the bitmap be in use, and `log_write` not panic. `balloc` returns the
-- first block that the bitmap has free, with its data zero under every cast, marked as in use; no other
-- bit of the bitmap changes, and no data of another block. Both blocks written are logged. It returns 0,
-- with nothing changed, where no block is free.
pub balloc_lem : (sb : Superblock) (d : Disk) → MetaInUse sb d → Allocated sb d 0 (balloc sb d)
unfolding balloc
balloc_lem sb d meta =
    balloc_from-Allocated sb (sb.size / bpb + 1) 0 d meta (omega arith) (omega arith)
