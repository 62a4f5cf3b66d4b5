-- ===== src/Content/Clearing.antt =====
-- The loops of `itrunc` free what they find.
use xv6_riscv_zig.Prelude.{
  ℕ, zero, suc, ◌+◌, ◌≤◌, ◌<◌, ◌≡◌, ◌≢◌, refl, ap, ◌∙◌, sym, true, false, ◌==◌, ==_iff, ne→==_false,
  ==_self, if◌then◌else◌, arith, Bool-cases, inl, inr, update, update_self, update_ne, ok, subst,
}
use xv6_riscv_zig.Blocks.{Superblock, Dinode, Disk, bfree}
use xv6_riscv_zig.Blocks.Search.{in_use}
use xv6_riscv_zig.Blocks.Freeing.{Freed, bfree-Freed}
use xv6_riscv_zig.Content.{free_direct, free_entries}

-- The entries `j` to `n` of `a` that are not 0 are blocks in use, and different ones.
pub record Listed (sb : Superblock) (a : ℕ → ℕ) (j n : ℕ) (d : Disk) : Type 0 where
  pub used : (i : ℕ) → j ≤ i → i < n → a i ≢ 0 → in_use sb d (a i) ≡ true
  pub apart : (i k : ℕ) → j ≤ i → i < n → j ≤ k → k < n → i ≢ k → a i ≢ 0 → a i ≢ a k

-- They are free now, and the bitmap has not changed for another block.
pub record Cleared (sb : Superblock) (a : ℕ → ℕ) (j n : ℕ) (d t : Disk) : Type 0 where
  pub freed : (i : ℕ) → j ≤ i → i < n → a i ≢ 0 → in_use sb t (a i) ≡ false
  pub others :
      (c : ℕ) → ((i : ℕ) → j ≤ i → i < n → a i ≢ 0 → c ≢ a i) → in_use sb t c ≡ in_use sb d c
  pub words : t.words ≡ d.words

Cleared-none : (sb : Superblock) (a : ℕ → ℕ) (j n : ℕ) (d : Disk) → n ≤ j → Cleared sb a j n d d
Cleared-none sb a j n d le = record {
  freed = λ i from lt. absurd (omega (arith, from, lt, le));
  others = λ c h. refl;
  words = refl;
}

-- An entry that is 0 is passed by.
Cleared-skip :
    {sb : Superblock} {a : ℕ → ℕ} {j n : ℕ} {d t : Disk}
    → a j ≡ 0
    → Cleared sb a (j + 1) n d t
    → Cleared sb a j n d t
Cleared-skip {a} {j} empty c = record {
  freed = λ i le lt ne. c.freed i (later i le ne) lt ne;
  others = λ b h. c.others b (λ i le lt. h i (omega (arith, le)) lt);
  words = c.words;
}
  where
    later : (i : ℕ) → j ≤ i → a i ≢ 0 → j + 1 ≤ i
    later i le ne = elim (Bool-cases (j == i)) [
      | inl same ↦ absurd (ne (ap a (sym ((==_iff j i).0 same)) ∙ empty))
      | inr other ↦ ground arith
    ]

-- What the first entry's block leaves of the list
Listed-rest :
    {sb : Superblock} {a : ℕ → ℕ} {j n : ℕ} {d d1 : Disk}
    → Listed sb a j n d
    → j < n
    → a j ≢ 0
    → Freed sb (a j) d d1
    → Listed sb a (j + 1) n d1
Listed-rest {sb} {a} {j} {n} {d} l lt ne f = record {
  used = λ i le lt' ne'.
      f.marked (a i)
      ∙ ap (λ t. if t then false else in_use sb d (a i))
          (ne→==_false (a i) (a j)
            (l.apart i j (omega (arith, le)) lt' (omega arith) lt (λ e. omega (arith, e, le)) ne'))
      ∙ l.used i (omega (arith, le)) lt' ne';
  apart = λ i k le lt' le' lt''. l.apart i k (omega (arith, le)) lt' (omega (arith, le')) lt'';
}

Listed-skip :
    {sb : Superblock} {a : ℕ → ℕ} {j n : ℕ} {d : Disk} → Listed sb a j n d → Listed sb a (j + 1) n d
Listed-skip l = record {
  used = λ i le. l.used i (omega (arith, le));
  apart = λ i k le lt le'. l.apart i k (omega (arith, le)) lt (omega (arith, le'));
}

Cleared-first :
    {sb : Superblock} {a : ℕ → ℕ} {j n : ℕ} {d d1 t : Disk}
    → Listed sb a j n d
    → j < n
    → a j ≢ 0
    → Freed sb (a j) d d1
    → Cleared sb a (j + 1) n d1 t
    → Cleared sb a j n d t
Cleared-first {sb} {a} {j} {n} {d} {d1} {t} l lt ne f c = record {
  freed = λ i le lt' ne'. elim (Bool-cases (j == i)) [
    | inl same ↦
        let e : j ≡ i = (==_iff j i).0 same in
        subst (λ k. in_use sb t (a k) ≡ false) e
          (c.others (a j) (λ k le' lt'' ne''.
              l.apart j k (omega arith) lt (omega (arith, le')) lt'' (λ p. omega (arith, p, le'))
                ne)
            ∙ f.marked (a j)
            ∙ ap (λ z. if z then false else in_use sb d (a j)) (==_self (a j)))
    | inr other ↦ c.freed i (ground arith) lt' ne'
  ];
  others = λ b h.
      c.others b (λ i le. h i (omega (arith, le)))
      ∙ f.marked b
      ∙ ap (λ z. if z then false else in_use sb d b)
          (ne→==_false b (a j) (h j (omega arith) lt ne));
  words = c.words ∙ f.words_kept;
}

pub free_entries-Cleared :
    (sb : Superblock) (a : ℕ → ℕ) (j k : ℕ) (d : Disk)
    → Listed sb a j (j + k) d
    → (t : Disk) × (free_entries sb a j k d ≡ ok t) × Cleared sb a j (j + k) d t
unfolding free_entries
free_entries-Cleared sb a j zero d l = (d, refl, Cleared-none sb a j (j + 0) d (omega arith))
free_entries-Cleared sb a j (suc k) d l = elim (Bool-cases (a j == 0)) [
  | inl empty ↦
      let (t, ran, c) = free_entries-Cleared sb a (j + 1) k d (at_end (Listed-skip l)) in
      (t, rw empty ran, Cleared-skip ((==_iff (a j) 0).0 empty) (back c))
  | inr block ↦
      let ne : a j ≢ 0 = λ z. cc ((==_iff (a j) 0).1 z, block) in
      let (d1, run, f) = bfree-Freed sb (a j) d (l.used j (omega arith) (omega arith) ne) in
      let (t, ran, c) =
        free_entries-Cleared sb a (j + 1) k d1 (at_end (Listed-rest l (omega arith) ne f)) in
      (t, rw (block, run) ran, Cleared-first l (omega arith) ne f (back c))
]
  where
    at_end : {d : Disk} → Listed sb a (j + 1) (j + suc k) d → Listed sb a (j + 1) (j + 1 + k) d
    at_end {d} = subst (λ n. Listed sb a (j + 1) n d) (omega arith)

    back :
        {d t : Disk} → Cleared sb a (j + 1) (j + 1 + k) d t → Cleared sb a (j + 1) (j + suc k) d t
    back {d} {t} = subst (λ n. Cleared sb a (j + 1) n d t) (omega arith)

-- The entries `j` to `n` of `addrs` are 0, the other ones and all else of the inode as they were.
pub record Emptied (j n : ℕ) (ip ip' : Dinode) : Type 0 where
  pub empty : (i : ℕ) → j ≤ i → i < n → ip'.addrs i ≡ 0
  pub kept : (i : ℕ) → n ≤ i → ip'.addrs i ≡ ip.addrs i
  pub before : (i : ℕ) → i < j → ip'.addrs i ≡ ip.addrs i

Emptied-first :
    {j n : ℕ} {ip ip1 ip' : Dinode}
    → j < n
    → ip1.addrs j ≡ 0
    → ((i : ℕ) → j ≢ i → ip1.addrs i ≡ ip.addrs i)
    → Emptied (j + 1) n ip1 ip'
    → Emptied j n ip ip'
Emptied-first {j} {ip' = ip'} lt zeroed same e = record {
  empty = λ i le lt'. elim (Bool-cases (j == i)) [
    | inl here ↦
        subst (λ i. ip'.addrs i ≡ 0) ((==_iff j i).0 here) (e.before j (omega arith) ∙ zeroed)
    | inr later ↦ e.empty i (ground arith) lt'
  ];
  kept = λ i le. e.kept i le ∙ same i (λ p. omega (arith, p, le, lt));
  before = λ i lt'. e.before i (omega (arith, lt')) ∙ same i (λ p. omega (arith, p, lt'));
}

pub free_direct-Cleared :
    (sb : Superblock) (a : ℕ → ℕ) (j k : ℕ) (ip : Dinode) (d : Disk)
    → Listed sb a j (j + k) d
    → ((i : ℕ) → j ≤ i → ip.addrs i ≡ a i)
    → (ip' : Dinode) × (t : Disk) × (free_direct sb j k ip d ≡ ok (ip', t))
      × Cleared sb a j (j + k) d t
      × Emptied j (j + k) ip ip'
unfolding free_direct
free_direct-Cleared sb a j zero ip d l same = (
  ip,
  d,
  refl,
  Cleared-none sb a j (j + 0) d (omega arith),
  record {
    empty = λ i le lt. absurd (omega (arith, le, lt));
    kept = λ i le. refl;
    before = λ i lt. refl;
  },
)
free_direct-Cleared sb a j (suc k) ip d l same = elim (Bool-cases (ip.addrs j == 0)) [
  | inl empty ↦
      let none_there : ip.addrs j ≡ 0 = (==_iff (ip.addrs j) 0).0 empty in
      let (ip', t, ran, c, e) =
        free_direct-Cleared sb a (j + 1) k ip d (at_end (Listed-skip l))
          (λ i le. same i (omega (arith, le))) in
      (
        ip',
        t,
        rw empty ran,
        Cleared-skip (sym (same j (omega arith)) ∙ none_there) (back c),
        Emptied-first (omega arith) none_there (λ i ne. refl) (back_ip e),
      )
  | inr block ↦
      let ne : a j ≢ 0 = λ z. cc ((==_iff (ip.addrs j) 0).1 (same j (omega arith) ∙ z), block) in
      let ip1 : Dinode = record ip { addrs = update ip.addrs j 0 } in
      let (d1, run, f) = bfree-Freed sb (a j) d (l.used j (omega arith) (omega arith) ne) in
      let (ip', t, ran, c, e) =
        free_direct-Cleared sb a (j + 1) k ip1 d1 (at_end (Listed-rest l (omega arith) ne f))
          (λ i le.
            update_ne ip.addrs j i 0 (λ p. omega (arith, p, le)) ∙ same i (omega (arith, le))) in
      (
        ip',
        t,
        rw (block, ap (λ b. bfree sb b d) (same j (omega arith)) ∙ run) ran,
        Cleared-first l (omega arith) ne f (back c),
        Emptied-first (omega arith) (update_self ip.addrs j 0) (λ i p. update_ne ip.addrs j i 0 p)
            (back_ip e),
      )
]
  where
    at_end : {d : Disk} → Listed sb a (j + 1) (j + suc k) d → Listed sb a (j + 1) (j + 1 + k) d
    at_end {d} = subst (λ n. Listed sb a (j + 1) n d) (omega arith)

    back :
        {d t : Disk} → Cleared sb a (j + 1) (j + 1 + k) d t → Cleared sb a (j + 1) (j + suc k) d t
    back {d} {t} = subst (λ n. Cleared sb a (j + 1) n d t) (omega arith)

    back_ip : {q r : Dinode} → Emptied (j + 1) (j + 1 + k) q r → Emptied (j + 1) (j + suc k) q r
    back_ip {q} {r} = subst (λ n. Emptied (j + 1) n q r) (omega arith)
