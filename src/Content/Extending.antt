-- ===== src/Content/Extending.antt =====
-- What allocating blocks for a file leaves as it was.
use xv6_riscv_zig.Prelude.{
  ℕ, ◌*◌, ◌≤◌, ◌<◌, ◌≡◌, ◌≢◌, ◌⊎◌, refl, ap, ◌∙◌, sym, subst, true, false, ◌==◌, ==_iff,
  ne→==_false, ==_self, if◌then◌else◌, arith, Bool-cases, inl, inr,
}
use xv6_riscv_zig.Blocks.{bsize, Superblock, Dinode, Disk}
use xv6_riscv_zig.Blocks.Search.{in_use}
use xv6_riscv_zig.Blocks.Allocation.{Taken, free_beyond, Allocated}
use xv6_riscv_zig.Content.{maxfile}
use xv6_riscv_zig.Content.Slots.{slot, content, IsFile}
use xv6_riscv_zig.Content.Growth.{Grown, Grown-r_ne, Grown-IsFile, Grown-content}

-- The bitmap has all blocks in use.
abbrev pub IsFull : Superblock → Disk → Type 0
IsFull sb d = (c : ℕ) → c < sb.size → in_use sb d c ≡ true

-- The file is one still, with the same bytes and size, and with all the blocks it had.
pub record Extended (sb : Superblock) (ip : Dinode) (d : Disk) (ip' : Dinode) (d' : Disk)
    : Type 0 where
  pub file : IsFile sb ip' d'
  pub bytes : (off : ℕ) → off < maxfile * bsize → content ip' d' off ≡ content ip d off
  pub slots : (m : ℕ) → m ≤ maxfile → slot ip d m ≢ 0 → slot ip' d' m ≡ slot ip d m
  pub size : ip'.size ≡ ip.size

-- Slot `k` has the block `addr`, which is 0 only where it had none and no block was free.
pub record Mapped (sb : Superblock) (ip : Dinode) (d : Disk) (k : ℕ) (ip' : Dinode) (d' : Disk)
    (addr : ℕ) : Type 0 where
  pub extended : Extended sb ip d ip' d'
  pub found :
      ((addr ≡ 0) × IsFull sb d' × (slot ip d k ≡ 0)) ⊎ ((addr ≢ 0) × (slot ip' d' k ≡ addr))

pub Extended-refl :
    (sb : Superblock) (ip : Dinode) (d : Disk) → IsFile sb ip d → Extended sb ip d ip d
Extended-refl sb ip d file = record {
  file = file;
  bytes = λ off lt. refl;
  slots = λ m le ne. refl;
  size = refl;
}

pub Extended-empty :
    {sb : Superblock} {ip ip' : Dinode} {d d' : Disk} {m : ℕ}
    → Extended sb ip d ip' d'
    → m ≤ maxfile
    → slot ip' d' m ≡ 0
    → slot ip d m ≡ 0
Extended-empty {ip} {d} {m} e le empty = elim (Bool-cases (slot ip d m == 0)) [
  | inl none_there ↦ (==_iff (slot ip d m) 0).0 none_there
  | inr block ↦
      let ne : slot ip d m ≢ 0 = λ z. cc ((==_iff (slot ip d m) 0).1 z, block) in
      absurd (ne (sym (e.slots m le ne) ∙ empty))
]

pub Extended-trans :
    {sb : Superblock} {ip ip' ip'' : Dinode} {d d' d'' : Disk}
    → Extended sb ip d ip' d'
    → Extended sb ip' d' ip'' d''
    → Extended sb ip d ip'' d''
Extended-trans e f = record {
  file = f.file;
  bytes = λ off lt. f.bytes off lt ∙ e.bytes off lt;
  slots = λ m le ne. f.slots m le (λ z. ne (sym (e.slots m le ne) ∙ z)) ∙ e.slots m le ne;
  size = f.size ∙ e.size;
}

Grown-Mapped :
    (sb : Superblock) (ip : Dinode) (d : Disk) (k r : ℕ) (ip' : Dinode) (d' : Disk)
    → IsFile sb ip d
    → k ≤ maxfile
    → Grown sb ip d k r ip' d'
    → Mapped sb ip d k ip' d' r
Grown-Mapped sb ip d k r ip' d' file small g = record {
  extended = record {
    file = Grown-IsFile sb ip d k r ip' d' file g;
    bytes = Grown-content sb ip d k r ip' d' file g;
    slots = λ m le ne.
        g.slots m le
        ∙ ap (λ t. if t then r else slot ip d m)
            (ne→==_false m k (λ e. ne (ap (slot ip d) e ∙ g.was_empty)));
    size = g.size;
  };
  found = inr (
    Grown-r_ne sb ip d k r ip' d' file g,
    g.slots k small ∙ ap (λ t. if t then r else slot ip d k) (==_self k),
  );
}

-- Where a slot has no block, and what is done with a new one makes the file grow
pub grow :
    (sb : Superblock) (ip : Dinode) (d : Disk) (k : ℕ) (res : Disk × ℕ) (with_ip : ℕ → Dinode)
    (with_disk : ℕ → Disk → Disk)
    → IsFile sb ip d
    → k ≤ maxfile
    → slot ip d k ≡ 0
    → Allocated sb d 0 res
    → ((t : Disk) (r : ℕ) → Taken sb d r t → r ≢ 0 → Grown sb ip d k r (with_ip r) (with_disk r t))
    → (((res.1 == 0) ≡ true) × Mapped sb ip d k ip res.0 0)
      ⊎ (((res.1 == 0) ≡ false) × Mapped sb ip d k (with_ip res.1) (with_disk res.1 res.0) res.1)
grow sb ip d k (t, r) with_ip with_disk file small empty (inl (null, same, full)) g = inl (
  (==_iff r 0).1 null,
  record {
    extended = subst (λ x. Extended sb ip d ip x) (sym same) (Extended-refl sb ip d file);
    found = inl (refl, subst (IsFull sb) (sym same) (λ c lt. full c (omega arith) lt), empty);
  },
)
grow sb ip d k (t, r) with_ip with_disk file small empty (inr (taken, before)) g =
    let ne : r ≢ 0 = λ e. omega (arith, e, free_beyond sb d r file.meta taken.free) in
    inr (
      ne→==_false r 0 ne,
      Grown-Mapped sb ip d k r (with_ip r) (with_disk r t) file small (g t r taken ne),
    )

pub Mapped-after :
    {sb : Superblock} {ip ip' ip'' : Dinode} {d d' d'' : Disk} {k addr : ℕ}
    → k ≤ maxfile
    → Extended sb ip d ip' d'
    → Mapped sb ip' d' k ip'' d'' addr
    → Mapped sb ip d k ip'' d'' addr
Mapped-after {k} small e m = record {
  extended = Extended-trans e m.extended;
  found = elim m.found [
    | inl (null, full, empty) ↦ inl (null, full, Extended-empty e small empty)
    | inr there ↦ inr there
  ];
}
