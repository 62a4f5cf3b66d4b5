-- ===== src/Blocks/Logging.antt =====
-- Each block that the allocator changes is given to `log_write`.
use xv6_riscv_zig.Prelude.{
  ℕ, zero, suc, ◌+◌, ◌-◌, ◌/◌, ◌%◌, ◌≡◌, ◌≢◌, refl, ◌∙◌, sym, Bool, true, false, ◌||◌, Option, none,
  some, List, [], ◌∷◌, ◌++◌, append_assoc, ap, ltb, ◌==◌, ==_iff, update, update_ne, ok, arith,
  Bool-cases, inl, inr, min, subst,
}
use xv6_riscv_zig.Blocks.{
  Superblock, Disk, mark_logged, put_byte, bpb, bit, set_bit, clear_bit, bzero, bblock, find_bit,
  take_block, balloc_from, balloc, bfree,
}

abbrev pub listed : ℕ → List ℕ → Bool
listed b [] = false
listed b (c ∷ bs) = (b == c) || listed b bs

abbrev pub Same : ℕ → Disk → Disk → Type 0
Same b d d' = (d'.bytes b ≡ d.bytes b) × (d'.words b ≡ d.words b) × (d'.dinodes b ≡ d.dinodes b)

-- From `d` to `d'`, the calls of `log_write` are `calls`, and each block that was changed was given to
-- one of these or of those before.
pub record Logs (d d' : Disk) : Type 0 where
  pub calls : List ℕ
  pub called : d'.logged ≡ calls ++ d.logged
  pub more : (b : ℕ) → listed b d.logged ≡ true → listed b d'.logged ≡ true
  pub kept : (b : ℕ) → listed b d'.logged ≡ false → Same b d d'

pub Logs-refl : (d : Disk) → Logs d d
Logs-refl d = record {
  calls = [];
  called = refl;
  more = λ b h. h;
  kept = λ b h. (refl, refl, refl);
}

pub Logs-trans : (d d' d'' : Disk) → Logs d d' → Logs d' d'' → Logs d d''
Logs-trans d d' d'' a b = record {
  calls = b.calls ++ a.calls;
  called = b.called ∙ ap (λ l. b.calls ++ l) a.called ∙ sym (append_assoc b.calls a.calls d.logged);
  more = λ c h. b.more c (a.more c h);
  kept = λ c h. elim (Bool-cases (listed c d'.logged)) [
    | inl before ↦ cc (b.more c before, h)
    | inr never ↦
        let (p, q, r) = a.kept c never in let (p', q', r') = b.kept c h in (p' ∙ p, q' ∙ q, r' ∙ r)
  ];
}

-- Block `b` alone is changed, and then logged.
pub Logs-change :
    (d e : Disk) (b : ℕ)
    → e.logged ≡ d.logged
    → ((c : ℕ) → c ≢ b → Same c d e)
    → Logs d (mark_logged b e)
Logs-change d e b same others = record {
  calls = b ∷ [];
  called = ap (λ l. b ∷ l) same;
  more = λ c h. rw same (ground arith);
  kept = λ c h. others c (λ z. cc ((==_iff c b).1 z, off c (listed c e.logged) h));
}
  where
    off : (c : ℕ) (r : Bool) → ((c == b) || r) ≡ false → (c == b) ≡ false
    off c r h = ground arith

put_byte-Logs : (d : Disk) (b i v : ℕ) → Logs d (mark_logged b (put_byte b i v d))
put_byte-Logs d b i v =
    Logs-change d (put_byte b i v d) b refl
      (λ c ne. (update_ne d.bytes b c (update (d.bytes b) i v) (λ e. ne (sym e)), refl, refl))

bzero-Logs : (b : ℕ) (d : Disk) → Logs d (bzero b d)
unfolding bzero
bzero-Logs b d = Logs-change d _ b refl (λ c ne.
    let apart : b ≢ c = λ e. ne (sym e) in
    (update_ne d.bytes b c _ apart, update_ne d.words b c _ apart, update_ne d.dinodes b c _ apart))

take_block-Logs : (sb : Superblock) (b bi : ℕ) (d : Disk) → Logs d (take_block sb b bi d)
unfolding take_block
take_block-Logs sb b bi d =
    Logs-trans d
      (mark_logged (bblock b sb)
        (put_byte (bblock b sb) (bi / 8) (set_bit (d.bytes (bblock b sb) (bi / 8)) (bi % 8)) d))
      (take_block sb b bi d)
      (put_byte-Logs d (bblock b sb) (bi / 8) (set_bit (d.bytes (bblock b sb) (bi / 8)) (bi % 8)))
      (bzero-Logs (b + bi) _)

balloc_from-Logs : (sb : Superblock) (fuel b : ℕ) (d : Disk) → Logs d (balloc_from sb fuel b d).0
unfolding balloc_from
balloc_from-Logs sb zero b d = Logs-refl d
balloc_from-Logs sb (suc fuel) b d = elim (Bool-cases (ltb b sb.size)) [
  | inl more ↦ rw more (
      go (find_bit (d.bytes (bblock b sb)) 0 (min bpb (sb.size - b)))
        (balloc_from sb fuel (b + bpb) d) (balloc_from-Logs sb fuel (b + bpb) d))
  | inr past ↦ rw past (Logs-refl d)
]
  where
    go :
        (o : Option ℕ) (rest : Disk × ℕ)
        → Logs d rest.0
        → Logs d
            (elim o as (λ x. Disk × ℕ) [ some bi ↦ (take_block sb b bi d, b + bi) | none ↦ rest ]).0
    go (some bi) rest ih = take_block-Logs sb b bi d
    go none rest ih = ih

pub balloc-Logs : (sb : Superblock) (d : Disk) → Logs d (balloc sb d).0
unfolding balloc
balloc-Logs sb d = balloc_from-Logs sb (sb.size / bpb + 1) 0 d

pub bfree-Logs : (sb : Superblock) (b : ℕ) (d t : Disk) → bfree sb b d ≡ ok t → Logs d t
unfolding bfree
bfree-Logs sb b d t run =
    elim (Bool-cases (bit (d.bytes (bblock b sb) (b % bpb / 8)) (b % bpb % 8))) [
      | inl used ↦
          let now : (mark_logged (bblock b sb) (
                put_byte (bblock b sb) (b % bpb / 8)
                  (clear_bit (d.bytes (bblock b sb) (b % bpb / 8)) (b % bpb % 8)) d))
              ≡ t =
            cc (rw (used, bfree) at run) in
          subst (Logs d) now (put_byte-Logs d (bblock b sb) (b % bpb / 8) _)
      | inr free ↦ cc (rw (free, bfree) at run)
    ]
