-- ===== src/Blocks/Bitmap.antt =====
-- What changing one bit of the bitmap does to the others.
use xv6_riscv_zig.Prelude.{
  ℕ, ◌+◌, ◌/◌, ◌%◌, ◌<◌, ◌≡◌, ◌≢◌, ap, ap₂, ◌∙◌, sym, subst, Bool, arith, Bool-cases, inl, inr,
  ◌==◌, ==_iff, ne→==_false, if◌then◌else◌, update, update_self, update_ne,
}
use xv6_riscv_zig.Blocks.{Superblock, Disk, bpb, put_byte, bit, bblock}
use xv6_riscv_zig.Blocks.Search.{bit_of, in_use}

-- A block of the bitmap is not a free one.
pub bblock_lt :
    (sb : Superblock) (c : ℕ) → c < sb.size → bblock c sb < sb.bmapstart + (sb.size / bpb + 1)
unfolding bblock
bblock_lt sb c lt = omega (arith, lt)

pub bblock_injective : (sb : Superblock) (b c : ℕ) → bblock b sb ≡ bblock c sb → b / bpb ≡ c / bpb
unfolding bblock
bblock_injective sb b c e = omega (arith, e)

pub bblock_same : (sb : Superblock) (b c : ℕ) → b / bpb ≡ c / bpb → bblock b sb ≡ bblock c sb
unfolding bblock
bblock_same sb b c e = omega (arith, e)

-- A change of one bit, to `v`
module _ (op : ℕ → ℕ → ℕ) (v : Bool) (self : (w k : ℕ) → bit (op w k) k ≡ v)
    (other : (w k j : ℕ) → k ≢ j → bit (op w k) j ≡ bit w j) where
  bit_of-change :
      (content : ℕ → ℕ) (i j : ℕ)
      → bit_of (update content (i / 8) (op (content (i / 8)) (i % 8))) j
        ≡ (if j == i then v else bit_of content j)
  bit_of-change content i j = elim (Bool-cases (j == i)) [
    | inl same ↦
        let e : i ≡ j = sym ((==_iff j i).0 same) in
        rw same (
          subst (λ k. bit_of (update content (i / 8) (op (content (i / 8)) (i % 8))) k ≡ v) e
            (ap (λ w. bit w (i % 8)) (update_self content (i / 8) (op (content (i / 8)) (i % 8)))
              ∙ self (content (i / 8)) (i % 8)))
    | inr differs ↦ rw differs (elim (Bool-cases (i / 8 == j / 8)) [
      | inl near ↦
          let e : i / 8 ≡ j / 8 = (==_iff (i / 8) (j / 8)).0 near in
          let apart : i % 8 ≢ j % 8 = λ h. cc ((==_iff j i).1 (omega (arith, e, h)), differs) in
          ap (λ a. bit (update content (i / 8) (op (content (i / 8)) (i % 8)) a) (j % 8)) (sym e)
          ∙ ap (λ w. bit w (j % 8)) (update_self content (i / 8) (op (content (i / 8)) (i % 8)))
          ∙ other (content (i / 8)) (i % 8) (j % 8) apart
          ∙ ap (λ a. bit (content a) (j % 8)) e
      | inr far ↦
          ap (λ w. bit w (j % 8))
            (update_ne content (i / 8) (j / 8) (op (content (i / 8)) (i % 8))
              (λ e. cc ((==_iff (i / 8) (j / 8)).1 e, far)))
    ])
  ]

  -- The bit of block `r` is changed, which is bit `bi` of the bitmap block `bno`.
  pub in_use-change :
      (sb : Superblock) (d : Disk) (bno bi r c : ℕ)
      → bblock r sb ≡ bno
      → r % bpb ≡ bi
      → in_use sb (put_byte bno (bi / 8) (op (d.bytes bno (bi / 8)) (bi % 8)) d) c
        ≡ (if c == r then v else in_use sb d c)
  in_use-change sb d bno bi r c at index = elim (Bool-cases (bno == bblock c sb)) [
    | inl near ↦
        let e : bno ≡ bblock c sb = (==_iff bno (bblock c sb)).0 near in
        ap (λ n. bit_of (update d.bytes bno byte n) (c % bpb)) (sym e)
        ∙ ap (λ f. bit_of f (c % bpb)) (update_self d.bytes bno byte)
        ∙ bit_of-change (d.bytes bno) bi (c % bpb)
        ∙ ap₂ (λ t n. if t then v else bit_of (d.bytes n) (c % bpb))
            (tests (bblock_injective sb c r (sym e ∙ sym at))) e
    | inr far ↦
        let apart : bno ≢ bblock c sb = λ e. cc ((==_iff bno (bblock c sb)).1 e, far) in
        ap (λ f. bit_of f (c % bpb)) (update_ne d.bytes bno (bblock c sb) byte apart)
        ∙ ap (λ t. if t then v else in_use sb d c)
            (sym (ne→==_false c r (λ e. apart (sym at ∙ ap (λ k. bblock k sb) (sym e)))))
  ]
    where
      byte : ℕ → ℕ
      byte = update (d.bytes bno) (bi / 8) (op (d.bytes bno (bi / 8)) (bi % 8))

      tests : c / bpb ≡ r / bpb → (c % bpb == bi) ≡ (c == r)
      tests e = elim (Bool-cases (c == r)) [
        | inl same ↦
            let p : c ≡ r = (==_iff c r).0 same in
            (==_iff (c % bpb) bi).1 (omega (arith, p, index)) ∙ sym same
        | inr differs ↦
            ne→==_false (c % bpb) bi
              (λ p. cc ((==_iff c r).1 (omega (arith, p, e, index)), differs))
            ∙ sym differs
      ]
