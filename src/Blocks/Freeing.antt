-- ===== src/Blocks/Freeing.antt =====
-- What `bfree` does to the bitmap.
use xv6_riscv_zig.Prelude.{
  ℕ, ◌/◌, ◌%◌, ◌<◌, ◌≡◌, ◌≢◌, ◌∷◌, refl, ap, ◌∙◌, sym, true, false, Bool-cases, inl, inr, ◌==◌,
  ==_iff, ==_self, if◌then◌else◌, update, update_ne, ◌∷◌, ok, panic,
}
use xv6_riscv_zig.Blocks.{
  Superblock, Disk, bpb, put_byte, mark_logged, clear_bit, bblock, balloc, bfree,
}
use xv6_riscv_zig.Blocks.Bits.{bit-clear_bit_self, bit-clear_bit_ne}
use xv6_riscv_zig.Blocks.Search.{in_use}
use xv6_riscv_zig.Blocks.Bitmap.{in_use-change}
use xv6_riscv_zig.Blocks.Allocation.{MetaInUse, balloc_lem}

-- On a block in use, `bfree` does not panic: it marks it free, changes no other bit of the bitmap and
-- no data but the bitmap's, and logs the bitmap's block.
pub record Freed (sb : Superblock) (b : ℕ) (d t : Disk) : Type 0 where
  pub marked : (c : ℕ) → in_use sb t c ≡ (if c == b then false else in_use sb d c)
  pub bytes_kept : (c : ℕ) → c ≢ bblock b sb → t.bytes c ≡ d.bytes c
  pub words_kept : t.words ≡ d.words
  pub dinodes_kept : t.dinodes ≡ d.dinodes
  pub logged : t.logged ≡ bblock b sb ∷ d.logged

pub bfree-Freed :
    (sb : Superblock) (b : ℕ) (d : Disk)
    → in_use sb d b ≡ true
    → (t : Disk) × (bfree sb b d ≡ ok t) × Freed sb b d t
unfolding bfree
bfree-Freed sb b d used = (
  t,
  rw used refl,
  record {
    marked = λ c.
        in_use-change clear_bit false bit-clear_bit_self bit-clear_bit_ne sb d bno bi b c refl refl;
    bytes_kept = λ c ne. update_ne d.bytes bno c byte (λ e. ne (sym e));
    words_kept = refl;
    dinodes_kept = refl;
    logged = refl;
  },
)
  where
    bno : ℕ
    bno = bblock b sb

    bi : ℕ
    bi = b % bpb

    byte : ℕ → ℕ
    byte = update (d.bytes bno) (bi / 8) (clear_bit (d.bytes bno (bi / 8)) (bi % 8))

    t : Disk
    t = mark_logged bno (put_byte bno (bi / 8) (clear_bit (d.bytes bno (bi / 8)) (bi % 8)) d)

-- Freeing a free block is an error.
pub bfree-free :
    (sb : Superblock) (b : ℕ) (d : Disk)
    → in_use sb d b ≡ false
    → bfree sb b d ≡ panic "freeing free block"
unfolding bfree
bfree-free sb b d free = rw free refl

-- Let the blocks up to the end of the bitmap be in use, and `log_write` not panic. Where `balloc` has
-- taken a block, `bfree` does not panic and gives it back: the bitmap is as it was before, for every
-- block.
pub bfree-balloc :
    (sb : Superblock) (d : Disk)
    → MetaInUse sb d
    → (balloc sb d).1 ≢ 0
    → (t : Disk) × (bfree sb (balloc sb d).1 (balloc sb d).0 ≡ ok t)
      × ((c : ℕ) → c < sb.size → in_use sb t c ≡ in_use sb d c)
bfree-balloc sb d meta taken = elim (balloc_lem sb d meta) [
  | inl (null, same, none_left) ↦ absurd (taken null)
  | inr (got, before) ↦
      let here : in_use sb (balloc sb d).0 (balloc sb d).1 ≡ true =
        got.marked (balloc sb d).1 got.inside
        ∙ ap (λ t. if t then true else in_use sb d (balloc sb d).1) (==_self (balloc sb d).1) in
      let (t, run, freed) = bfree-Freed sb (balloc sb d).1 (balloc sb d).0 here in
      (
        t,
        run,
        λ c lt.
            freed.marked c
            ∙ ap (λ u. if c == (balloc sb d).1 then false else u) (got.marked c lt)
            ∙ back c got.free,
      )
]
  where
    back :
        (c : ℕ)
        → in_use sb d (balloc sb d).1 ≡ false
        → (if c == (balloc sb d).1
            then false
            else (if c == (balloc sb d).1 then true else in_use sb d c))
          ≡ in_use sb d c
    back c free = elim (Bool-cases (c == (balloc sb d).1)) [
      | inl same ↦ rw same (sym free ∙ ap (in_use sb d) (sym ((==_iff c (balloc sb d).1).0 same)))
      | inr differs ↦ rw differs refl
    ]
