-- ===== src/Content/Overwriting.antt =====
-- What replacing bytes of one of its blocks does to a file.
use xv6_riscv_zig.Prelude.{
  ℕ, ◌+◌, ◌-◌, ◌*◌, ◌/◌, ◌%◌, ◌≤◌, ◌<◌, ◌≡◌, ◌≢◌, refl, ap, ◌∙◌, sym, true, false, ltb, leb, ◌==◌,
  ==_iff, ne→==_false, ◌&&◌, if◌then◌else◌, arith, Bool-cases, inl, inr, update, update_self,
  update_ne,
}
use xv6_riscv_zig.Pipe.{copy}
use xv6_riscv_zig.Blocks.{bsize, bpb, Superblock, Dinode, Disk, bblock, mark_logged}
use xv6_riscv_zig.Blocks.Search.{in_use, bit_of}
use xv6_riscv_zig.Blocks.Bitmap.{bblock_lt}
use xv6_riscv_zig.Content.{maxfile}
use xv6_riscv_zig.Content.Slots.{slot, content, IsFile}

-- Bytes of one of the file's blocks are replaced by `m` bytes of `f` from `src` on.
module _ (sb : Superblock) (ip : Dinode) (d : Disk) (off addr m : ℕ) (f : ℕ → ℕ) (src : ℕ)
    (file : IsFile sb ip d) (here : slot ip d (off / bsize) ≡ addr) (ne : addr ≢ 0)
    (small : m ≤ bsize - off % bsize) (inside : off < maxfile * bsize) where
  abbrev pub overwrite : Disk
  overwrite =
      mark_logged addr
        (record d { bytes = update d.bytes addr (copy (d.bytes addr) (off % bsize) f src m) })

  le : off / bsize ≤ maxfile
  le = omega (arith, inside)

  has : slot ip d (off / bsize) ≢ 0
  has e = ne (sym here ∙ e)

  same_bits : (c : ℕ) → c < sb.size → in_use sb overwrite c ≡ in_use sb d c
  same_bits c lt =
      ap (λ g. bit_of g (c % bpb))
        (update_ne d.bytes addr (bblock c sb) (copy (d.bytes addr) (off % bsize) f src m)
          (λ e. omega (arith, e, bblock_lt sb c lt, here, file.beyond (off / bsize) le has)))

  pub overwrite-IsFile : IsFile sb ip overwrite
  overwrite-IsFile = record {
    meta = λ c lt.
        same_bits c
          (omega (arith, lt, file.beyond (off / bsize) le has, file.inside (off / bsize) le has))
        ∙ file.meta c lt;
    inside = file.inside;
    beyond = file.beyond;
    used = λ k small block.
        same_bits (slot ip d k) (file.inside k small block) ∙ file.used k small block;
    distinct = file.distinct;
  }

  -- A byte of a block of the file, in either disk
  byte_at :
      (t : Disk) (x a : ℕ)
      → slot ip d (x / bsize) ≡ a
      → a ≢ 0
      → (if slot ip d (x / bsize) == 0 then 0 else t.bytes (slot ip d (x / bsize)) (x % bsize))
        ≡ t.bytes a (x % bsize)
  byte_at t x a e some_block =
      ap (λ b. if b == 0 then 0 else t.bytes b (x % bsize)) e
      ∙ ap (λ z. if z then 0 else t.bytes a (x % bsize)) (ne→==_false a 0 some_block)

  -- Within the block, the copy's bounds are those in the file.
  in_block :
      (x : ℕ)
      → x / bsize ≡ off / bsize
      → copy (d.bytes addr) (off % bsize) f src m (x % bsize) ≡ copy (content ip d) off f src m x
  unfolding copy
  in_block x e = elim (Bool-cases (leb off x && ltb x (off + m))) [
    | inl within ↦
        let inner : (leb (off % bsize) (x % bsize) && ltb (x % bsize) (off % bsize + m)) ≡ true =
          ground arith in
        rw (within, inner)
          (ap f {x = src + (x % bsize - off % bsize)} {y = src + (x - off)} (omega (arith, e)))
    | inr without ↦
        let inner : (leb (off % bsize) (x % bsize) && ltb (x % bsize) (off % bsize + m)) ≡ false =
          ground arith in
        rw (without, inner) (sym (byte_at d x addr (ap (slot ip d) e ∙ here) ne))
  ]

  not_within : (x : ℕ) → (x / bsize == off / bsize) ≡ false → (leb off x && ltb x (off + m)) ≡ false
  not_within x other = elim (Bool-cases (leb off x && ltb x (off + m))) [
    | inl within ↦
        let range : (off ≤ x) × (x < off + m) = (ground arith, ground arith) in
        cc ((==_iff (x / bsize) (off / bsize)).1 (omega (arith, range, small)), other)
    | inr without ↦ without
  ]

  pub overwrite-content :
      (x : ℕ) → x < maxfile * bsize → content ip overwrite x ≡ copy (content ip d) off f src m x
  unfolding copy
  overwrite-content x lt = elim (Bool-cases (x / bsize == off / bsize)) [
    | inl same ↦
        let e : x / bsize ≡ off / bsize = (==_iff (x / bsize) (off / bsize)).0 same in
        byte_at overwrite x addr (ap (slot ip d) e ∙ here) ne
        ∙ ap (λ g. g (x % bsize))
            (update_self d.bytes addr (copy (d.bytes addr) (off % bsize) f src m))
        ∙ in_block x e
    | inr other ↦
        elsewhere other
        ∙ sym (ap (λ z. if z then f (src + (x - off)) else content ip d x) (not_within x other))
  ]
    where
      elsewhere : (x / bsize == off / bsize) ≡ false → content ip overwrite x ≡ content ip d x
      elsewhere other = elim (Bool-cases (slot ip d (x / bsize) == 0)) [
        | inl empty ↦ rw empty refl
        | inr block ↦ rw block (
            ap (λ g. g (x % bsize))
              (update_ne d.bytes addr (slot ip d (x / bsize))
                (copy (d.bytes addr) (off % bsize) f src m)
                (λ e.
                  file.distinct (off / bsize) (x / bsize) le (omega (arith, lt))
                    (λ z. cc ((==_iff (x / bsize) (off / bsize)).1 (sym z), other)) has
                    (here ∙ e))))
      ]
