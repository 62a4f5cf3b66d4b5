-- ===== src/Content/Growth.antt =====
-- A file that is given a new block stays a file, with the same bytes.
use xv6_riscv_zig.Prelude.{
  ℕ, ◌+◌, ◌*◌, ◌/◌, ◌%◌, ◌≤◌, ◌<◌, ◌≡◌, ◌≢◌, refl, ap, ◌∙◌, sym, subst, true, false, ◌==◌, ==_iff,
  ne→==_false, ==_self, if◌then◌else◌, arith, Bool-cases, inl, inr,
}
use xv6_riscv_zig.Blocks.{bsize, bpb, Superblock, Dinode, Disk, bblock}
use xv6_riscv_zig.Blocks.Search.{in_use, bit_of}
use xv6_riscv_zig.Blocks.Bitmap.{bblock_lt}
use xv6_riscv_zig.Blocks.Allocation.{Taken, free_beyond}
use xv6_riscv_zig.Content.{maxfile}
use xv6_riscv_zig.Content.Slots.{slot, content, IsFile}

-- Slot `k`, which had no block, has the block `r` that was taken, with no bytes changed since.
pub record Grown (sb : Superblock) (ip : Dinode) (d : Disk) (k r : ℕ) (ip' : Dinode) (d' : Disk)
    : Type 0 where
  pub was_empty : slot ip d k ≡ 0
  pub between : Disk
  pub taken : Taken sb d r between
  pub bytes : d'.bytes ≡ between.bytes
  pub slots : (m : ℕ) → m ≤ maxfile → slot ip' d' m ≡ (if m == k then r else slot ip d m)
  pub size : ip'.size ≡ ip.size

module _ (sb : Superblock) (ip : Dinode) (d : Disk) (k r : ℕ) (ip' : Dinode) (d' : Disk)
    (file : IsFile sb ip d) (g : Grown sb ip d k r ip' d') where
  r_beyond : sb.bmapstart + (sb.size / bpb + 1) ≤ r
  r_beyond = free_beyond sb d r file.meta g.taken.free

  marked : (c : ℕ) → c < sb.size → in_use sb d' c ≡ (if c == r then true else in_use sb d c)
  marked c lt = ap (λ f. bit_of (f (bblock c sb)) (c % bpb)) g.bytes ∙ g.taken.marked c lt

  pub Grown-r_ne : r ≢ 0
  Grown-r_ne e = omega (arith, e, r_beyond)

  -- A slot that has a block has another one than `r`.
  old_ne : (m : ℕ) → m ≤ maxfile → slot ip d m ≢ 0 → slot ip d m ≢ r
  old_ne m le some_block e = cc (file.used m le some_block, ap (in_use sb d) e, g.taken.free)

  now_r : (m : ℕ) → m ≤ maxfile → (m == k) ≡ true → slot ip' d' m ≡ r
  now_r m le same = g.slots m le ∙ ap (λ t. if t then r else slot ip d m) same

  now_old : (m : ℕ) → m ≤ maxfile → (m == k) ≡ false → slot ip' d' m ≡ slot ip d m
  now_old m le other = g.slots m le ∙ ap (λ t. if t then r else slot ip d m) other

  -- What holds of `r` and of the old blocks holds of the new ones.
  by_slot :
      (P : ℕ → Type 0) (m : ℕ)
      → m ≤ maxfile
      → slot ip' d' m ≢ 0
      → P r
      → (slot ip d m ≢ 0 → P (slot ip d m))
      → P (slot ip' d' m)
  by_slot P m le block new old = elim (Bool-cases (m == k)) [
    | inl same ↦ subst P (sym (now_r m le same)) new
    | inr other ↦ subst P (sym (now_old m le other)) (old (λ e. block (now_old m le other ∙ e)))
  ]

  still_used : (c : ℕ) → in_use sb d c ≡ true → c < sb.size → in_use sb d' c ≡ true
  still_used c used lt = elim (Bool-cases (c == r)) [
    | inl same ↦ marked c lt ∙ ap (λ t. if t then true else in_use sb d c) same
    | inr other ↦ marked c lt ∙ ap (λ t. if t then true else in_use sb d c) other ∙ used
  ]

  r_used : in_use sb d' r ≡ true
  r_used = marked r g.taken.inside ∙ ap (λ t. if t then true else in_use sb d r) (==_self r)

  r_apart : (m : ℕ) → m ≤ maxfile → r ≢ slot ip d m
  r_apart m le e = elim (Bool-cases (slot ip d m == 0)) [
    | inl none_there ↦ Grown-r_ne (e ∙ (==_iff (slot ip d m) 0).0 none_there)
    | inr there ↦ old_ne m le (λ z. cc ((==_iff (slot ip d m) 0).1 z, there)) (sym e)
  ]

  pub Grown-IsFile : IsFile sb ip' d'
  Grown-IsFile = record {
    meta = λ c lt. still_used c (file.meta c lt) (omega (arith, lt, r_beyond, g.taken.inside));
    inside = λ m le block. by_slot (λ b. b < sb.size) m le block g.taken.inside (file.inside m le);
    beyond = λ m le block.
        by_slot (λ b. sb.bmapstart + (sb.size / bpb + 1) ≤ b) m le block r_beyond
          (file.beyond m le);
    used = λ m le block.
        by_slot (λ b. in_use sb d' b ≡ true) m le block r_used
          (λ old. still_used (slot ip d m) (file.used m le old) (file.inside m le old));
    distinct = λ m n le le' ne block. elim (Bool-cases (m == k)) [
      | inl mk ↦
          let other : (n == k) ≡ false = ne→==_false n k (λ e. ne ((==_iff m k).0 mk ∙ sym e)) in
          λ e. r_apart n le' (sym (now_r m le mk) ∙ e ∙ now_old n le' other)
      | inr mo ↦ elim (Bool-cases (n == k)) [
        | inl nk ↦ λ e. r_apart m le (sym (now_r n le' nk) ∙ sym e ∙ now_old m le mo)
        | inr no_k ↦ λ e.
            file.distinct m n le le' ne (λ z. block (now_old m le mo ∙ z))
              (sym (now_old m le mo) ∙ e ∙ now_old n le' no_k)
      ]
    ];
  }

  pub Grown-content : (off : ℕ) → off < maxfile * bsize → content ip' d' off ≡ content ip d off
  Grown-content off lt = elim (Bool-cases (m == k)) [
    | inl same ↦
        let empty : slot ip d m ≡ 0 = ap (slot ip d) ((==_iff m k).0 same) ∙ g.was_empty in
        ap (λ b. byte d' b) (now_r m le same)
        ∙ ap (λ t. if t then 0 else d'.bytes r (off % bsize)) (ne→==_false r 0 Grown-r_ne)
        ∙ ap (λ f. f r (off % bsize)) g.bytes
        ∙ (g.taken.zeroed (off % bsize)).0
        ∙ sym (ap (λ b. byte d b) empty)
    | inr other ↦ ap (λ b. byte d' b) (now_old m le other) ∙ elim (Bool-cases (slot ip d m == 0)) [
      | inl empty ↦ rw empty refl
      | inr block ↦
          let ne : slot ip d m ≢ 0 = λ z. cc ((==_iff (slot ip d m) 0).1 z, block) in
          rw block (
            ap (λ f. f (off % bsize))
              (ap (λ f. f (slot ip d m)) g.bytes
                ∙ g.taken.bytes_kept (slot ip d m) (old_ne m le ne)
                    (λ e. omega (arith, e, file.beyond m le ne, bblock_lt sb r g.taken.inside))))
    ]
  ]
    where
      m : ℕ
      m = off / bsize

      le : m ≤ maxfile
      le = omega (arith, lt)

      byte : Disk → ℕ → ℕ
      byte d b = if b == 0 then 0 else d.bytes b (off % bsize)
