-- ===== src/Content/Mapping.antt =====
-- `bmap` gives a file the block of a slot.
use xv6_riscv_zig.Prelude.{
  ℕ, ◌-◌, ◌≤◌, ◌<◌, ◌≡◌, ◌≢◌, refl, ap, ◌∙◌, sym, subst, ltb, ◌==◌, ==_iff, ne→==_false, arith,
  Bool-cases, inl, inr, update, ok, lt→ltb, ltb→lt, ltb-false,
}
use xv6_riscv_zig.Blocks.{Superblock, Dinode, Disk, mark_logged, put_word, balloc}
use xv6_riscv_zig.Blocks.Allocation.{Taken, balloc_lem}
use xv6_riscv_zig.Content.{
  ndirect, nindirect, maxfile, addr_block, entry_block, bmap_indirect, bmap,
}
use xv6_riscv_zig.Content.Slots.{slot, IsFile}
use xv6_riscv_zig.Content.Growth.{Grown}
use xv6_riscv_zig.Content.Extending.{Mapped, Extended-refl, grow, Mapped-after}

-- The words of an old block stay.
old_words :
    (sb : Superblock) (ip : Dinode) (d t : Disk) (r i : ℕ)
    → IsFile sb ip d
    → Taken sb d r t
    → ip.addrs ndirect ≢ 0
    → (t.words (ip.addrs ndirect) i ≡ d.words (ip.addrs ndirect) i) × (ip.addrs ndirect ≢ r)
old_words sb ip d t r i file taken ne =
    let apart : ip.addrs ndirect ≢ r =
      λ e. cc (file.used maxfile (omega arith) ne, e, taken.free) in
    (ap (λ f. f i) (taken.words_kept (ip.addrs ndirect) apart), apart)

direct-Grown :
    (sb : Superblock) (ip : Dinode) (d t : Disk) (k r : ℕ)
    → IsFile sb ip d
    → k < ndirect
    → ip.addrs k ≡ 0
    → Taken sb d r t
    → r ≢ 0
    → Grown sb ip d k r (record ip { addrs = update ip.addrs k r }) t
direct-Grown sb ip d t k r file small empty taken ne = record {
  was_empty = ground arith;
  between = t;
  taken = taken;
  bytes = refl;
  slots = λ m le. ground (arith, old_words sb ip d t r (m - ndirect) file taken);
  size = refl;
}

indirect-Grown :
    (sb : Superblock) (ip : Dinode) (d t : Disk) (r : ℕ)
    → IsFile sb ip d
    → ip.addrs ndirect ≡ 0
    → Taken sb d r t
    → r ≢ 0
    → Grown sb ip d maxfile r (record ip { addrs = update ip.addrs ndirect r }) t
indirect-Grown sb ip d t r file empty taken ne = record {
  was_empty = ground arith;
  between = t;
  taken = taken;
  bytes = refl;
  slots = λ m le. ground (arith, taken.zeroed (m - ndirect));
  size = refl;
}

entry-Grown :
    (sb : Superblock) (ip : Dinode) (d t : Disk) (k r : ℕ)
    → IsFile sb ip d
    → ip.addrs ndirect ≢ 0
    → ndirect ≤ k
    → k < maxfile
    → d.words (ip.addrs ndirect) (k - ndirect) ≡ 0
    → Taken sb d r t
    → r ≢ 0
    → Grown sb ip d k r ip
        (mark_logged (ip.addrs ndirect) (put_word (ip.addrs ndirect) (k - ndirect) r t))
entry-Grown sb ip d t k r file block big small empty taken ne = record {
  was_empty = ground arith;
  between = t;
  taken = taken;
  bytes = refl;
  slots = λ m le. ground (arith, old_words sb ip d t r (m - ndirect) file taken block);
  size = refl;
}

kept-Mapped :
    (sb : Superblock) (ip : Dinode) (d : Disk) (k addr : ℕ)
    → IsFile sb ip d
    → slot ip d k ≡ addr
    → addr ≢ 0
    → Mapped sb ip d k ip d addr
kept-Mapped sb ip d k addr file here ne = record {
  extended = Extended-refl sb ip d file;
  found = inr (ne, here);
}

-- `addr_block` of entry `i` of `addrs`, which is slot `k`
addr_block-Mapped :
    (sb : Superblock) (ip : Dinode) (d : Disk) (i k : ℕ)
    → IsFile sb ip d
    → k ≤ maxfile
    → slot ip d k ≡ ip.addrs i
    → ((t : Disk) (r : ℕ)
        → ip.addrs i ≡ 0
        → Taken sb d r t
        → r ≢ 0
        → Grown sb ip d k r (record ip { addrs = update ip.addrs i r }) t)
    → let out = addr_block sb i ip d in Mapped sb ip d k out.0 out.1 out.2
unfolding addr_block
addr_block-Mapped sb ip d i k file small here g = elim (Bool-cases (ip.addrs i == 0)) [
  | inl empty ↦
      elim (grow sb ip d k (balloc sb d) (λ r. record ip { addrs = update ip.addrs i r }) (λ r t. t)
        file small (here ∙ (==_iff (ip.addrs i) 0).0 empty) (balloc_lem sb d file.meta)
        (λ t r taken ne. g t r ((==_iff (ip.addrs i) 0).0 empty) taken ne)) [
          | inl (out, m) ↦ rw (empty, out) m
          | inr (got, m) ↦ rw (empty, got) m
        ]
  | inr block ↦
      rw block (
        kept-Mapped sb ip d k (ip.addrs i) file here (λ e. cc ((==_iff (ip.addrs i) 0).1 e, block)))
]

entry_block-Mapped :
    (sb : Superblock) (ip : Dinode) (d : Disk) (k : ℕ)
    → IsFile sb ip d
    → ip.addrs ndirect ≢ 0
    → ndirect ≤ k
    → k < maxfile
    → let out = entry_block sb (ip.addrs ndirect) (k - ndirect) d in Mapped sb ip d k ip out.0 out.1
unfolding entry_block
entry_block-Mapped sb ip d k file block big small =
    elim (Bool-cases (d.words (ip.addrs ndirect) (k - ndirect) == 0)) [
      | inl empty ↦
          elim (grow sb ip d k (balloc sb d) (λ r. ip)
            (λ r t. mark_logged (ip.addrs ndirect) (put_word (ip.addrs ndirect) (k - ndirect) r t))
            file (omega (arith, small)) (ground arith) (balloc_lem sb d file.meta)
            (λ t r taken ne.
              entry-Grown sb ip d t k r file block big small
                ((==_iff (d.words (ip.addrs ndirect) (k - ndirect)) 0).0 empty) taken ne)) [
                  | inl (out, m) ↦ rw (empty, out) m
                  | inr (got, m) ↦ rw (empty, got) m
                ]
      | inr there ↦ rw there (
          kept-Mapped sb ip d k (d.words (ip.addrs ndirect) (k - ndirect)) file (ground arith)
            (λ e. cc ((==_iff (d.words (ip.addrs ndirect) (k - ndirect)) 0).1 e, there)))
    ]

bmap_indirect-Mapped :
    (sb : Superblock) (ip : Dinode) (d : Disk) (k : ℕ)
    → IsFile sb ip d
    → ndirect ≤ k
    → k < maxfile
    → let out = bmap_indirect sb ip (k - ndirect) d in Mapped sb ip d k out.0 out.1 out.2
unfolding bmap_indirect
bmap_indirect-Mapped sb ip d k file big small = elim m1.found [
  | inl (null, full, empty) ↦
      let no_block : ip.addrs ndirect ≡ 0 = empty in
      rw ((==_iff out.2 0).1 null)
        (record { extended = m1.extended; found = inl (refl, full, ground arith) })
  | inr (ne, here) ↦ rw (ne→==_false out.2 0 ne) (
      Mapped-after (omega (arith, small)) m1.extended (
        subst
          (λ ind.
            let res = entry_block sb ind (k - ndirect) out.1 in
            Mapped sb out.0 out.1 k out.0 res.0 res.1)
          here
          (entry_block-Mapped sb out.0 out.1 k m1.extended.file (λ e. ne (sym here ∙ e)) big
            small)))
]
  where
    out : Dinode × Disk × ℕ
    out = addr_block sb ndirect ip d

    m1 : Mapped sb ip d maxfile out.0 out.1 out.2
    m1 =
        addr_block-Mapped sb ip d ndirect maxfile file (omega arith) refl
          (λ t r empty taken ne. indirect-Grown sb ip d t r file empty taken ne)

-- Of a file, for `k` below `maxfile`, and where `log_write` does not panic, `bmap` does not panic. It returns the block of slot `k`,
-- which it allocates where there is none, or 0 where the bitmap has no block free. The file is one
-- still, with the same bytes and size, and with all the blocks it had.
pub bmap-Mapped :
    (sb : Superblock) (ip : Dinode) (d : Disk) (k : ℕ)
    → IsFile sb ip d
    → k < maxfile
    → (ip' : Dinode) × (d' : Disk) × (addr : ℕ) × (bmap sb ip k d ≡ ok (ip', d', addr))
      × Mapped sb ip d k ip' d' addr
unfolding bmap
bmap-Mapped sb ip d k file small = elim (Bool-cases (ltb k ndirect)) [
  | inl near ↦
      let out = addr_block sb k ip d in
      (
        out.0,
        out.1,
        out.2,
        rw near refl,
        addr_block-Mapped sb ip d k k file (omega (arith, small)) (rw near refl)
            (λ t r empty taken ne.
              direct-Grown sb ip d t k r file (ltb→lt k ndirect near) empty taken ne),
      )
  | inr far ↦
      let out = bmap_indirect sb ip (k - ndirect) d in
      (
        out.0,
        out.1,
        out.2,
        rw (far, lt→ltb (k - ndirect) nindirect (omega (arith, small))) refl,
        bmap_indirect-Mapped sb ip d k file (ltb-false k ndirect far) small,
      )
]
