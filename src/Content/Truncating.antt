-- ===== src/Content/Truncating.antt =====
-- `itrunc` gives all of a file's blocks back.
use xv6_riscv_zig.Prelude.{
  ℕ, ◌+◌, ◌-◌, ◌%◌, ◌≤◌, ◌<◌, ◌≡◌, ◌≢◌, ◌⊎◌, refl, ap, ◌∙◌, sym, true, false, ltb, ◌==◌, ==_iff,
  ne→==_false, if◌then◌else◌, arith, Bool-cases, inl, inr, update, update_self, update_ne, ok,
  subst, ltb→lt, ltb-false, le→ltb_false, lt→ltb,
}
use xv6_riscv_zig.Blocks.{Superblock, Dinode, Disk, bfree}
use xv6_riscv_zig.Blocks.Logging.{Logs}
use xv6_riscv_zig.Content.Logging.{itrunc-Logs}
use xv6_riscv_zig.Blocks.Search.{in_use}
use xv6_riscv_zig.Blocks.Freeing.{Freed, bfree-Freed}
use xv6_riscv_zig.Content.{
  ndirect, nindirect, maxfile, ipb, iblock, iupdate, free_entries, free_indirect, itrunc,
}
use xv6_riscv_zig.Content.Slots.{slot, IsFile}
use xv6_riscv_zig.Content.Clearing.{
  Listed, Cleared, Emptied, free_entries-Cleared, free_direct-Cleared,
}

-- All the file's blocks are free, the bitmap has not changed for another block, and the file is
-- empty, in memory and in its block of inodes. Each block that was changed was given to `log_write`.
pub record Truncated (sb : Superblock) (inum : ℕ) (ip : Dinode) (d : Disk) (ip' : Dinode)
    (d' : Disk) : Type 0 where
  pub freed : (k : ℕ) → k ≤ maxfile → slot ip d k ≢ 0 → in_use sb d' (slot ip d k) ≡ false
  pub others :
      (c : ℕ)
      → ((k : ℕ) → k ≤ maxfile → slot ip d k ≢ 0 → c ≢ slot ip d k)
      → in_use sb d' c ≡ in_use sb d c
  pub empty : (k : ℕ) → k ≤ maxfile → slot ip' d' k ≡ 0
  pub size : ip'.size ≡ 0
  pub on_disk : d'.dinodes (iblock inum sb) (inum % ipb) ≡ ip'
  pub logs : Logs d d'

module _ (sb : Superblock) (ip : Dinode) (d : Disk) (file : IsFile sb ip d) where
  slot-direct : (k : ℕ) → k < ndirect → slot ip d k ≡ ip.addrs k
  slot-direct k lt = ground arith

  slot-entry :
      (i : ℕ)
      → i < nindirect
      → ip.addrs ndirect ≢ 0
      → slot ip d (i + ndirect) ≡ d.words (ip.addrs ndirect) i
  slot-entry i lt ne =
      rw
        (
          le→ltb_false (i + ndirect) ndirect (omega arith),
          lt→ltb (i + ndirect) maxfile (omega (arith, lt)),
          ne→==_false (ip.addrs ndirect) 0 ne,
        )
        (ap (d.words (ip.addrs ndirect)) {x = i + ndirect - ndirect} {y = i} (omega arith))

  -- A family of slots is a list of blocks.
  slots-Listed :
      (a : ℕ → ℕ) (n from : ℕ)
      → ((i : ℕ) → i < n → slot ip d (i + from) ≡ a i)
      → n + from ≤ maxfile
      → Listed sb a 0 n d
  slots-Listed a n from e le = record {
    used = λ i zero_le lt ne.
        subst (λ b. in_use sb d b ≡ true) (e i lt)
          (file.used (i + from) (omega (arith, lt, le)) (λ z. ne (sym (e i lt) ∙ z)));
    apart = λ i k zero_le lt zero_le' lt' other ne same.
        file.distinct (i + from) (k + from) (omega (arith, lt, le)) (omega (arith, lt', le))
          (λ p. other (omega (arith, p))) (λ z. ne (sym (e i lt) ∙ z))
          (e i lt ∙ same ∙ sym (e k lt'));
  }

  -- A slot is one of `addrs`, an entry of the indirect block, or the indirect block.
  slot-cases :
      (k : ℕ)
      → k ≤ maxfile
      → slot ip d k ≢ 0
      → ((k < ndirect) × (slot ip d k ≡ ip.addrs k))
        ⊎ ((k ≡ maxfile)
            ⊎ ((ip.addrs ndirect ≢ 0)
                × (i : ℕ) × (i < nindirect)
                × (slot ip d k ≡ d.words (ip.addrs ndirect) i)
                × (k ≡ i + ndirect)))
  slot-cases k le ne = elim (Bool-cases (ltb k ndirect)) [
    | inl direct ↦ inl (ltb→lt k ndirect direct, slot-direct k (ltb→lt k ndirect direct))
    | inr behind ↦ elim (Bool-cases (ltb k maxfile)) [
      | inr last ↦ inr (inl (omega (arith, le, ltb-false k maxfile last)))
      | inl entry ↦
          let block : ip.addrs ndirect ≢ 0 = λ z. ne (no_block k behind entry z) in
          inr (
            inr (
              block,
              k - ndirect,
              omega (arith, ltb→lt k maxfile entry, ltb-false k ndirect behind),
              rw (behind, entry, ne→==_false (ip.addrs ndirect) 0 block) refl,
              omega (arith, ltb-false k ndirect behind),
            ))
    ]
  ]
    where
      no_block :
          (k : ℕ)
          → ltb k ndirect ≡ false
          → ltb k maxfile ≡ true
          → ip.addrs ndirect ≡ 0
          → slot ip d k ≡ 0
      no_block k behind entry z = rw (behind, entry, (==_iff (ip.addrs ndirect) 0).1 z) refl

  -- What is left where the file has no indirect block
  record Gone (ip' : Dinode) (d' : Disk) : Type 0 where
    freed : (k : ℕ) → k ≤ maxfile → slot ip d k ≢ 0 → in_use sb d' (slot ip d k) ≡ false
    others :
        (c : ℕ)
        → ((k : ℕ) → k ≤ maxfile → slot ip d k ≢ 0 → c ≢ slot ip d k)
        → in_use sb d' c ≡ in_use sb d c
    addrs : (i : ℕ) → i ≤ ndirect → ip'.addrs i ≡ 0

  module _ (ip1 : Dinode) (d1 : Disk) (c1 : Cleared sb ip.addrs 0 ndirect d d1)
      (e1 : Emptied 0 ndirect ip ip1) where
    -- A block that is no slot is none of the first ones.
    c1_others :
        (c : ℕ)
        → ((k : ℕ) → k < ndirect → slot ip d k ≢ 0 → c ≢ slot ip d k)
        → in_use sb d1 c ≡ in_use sb d c
    c1_others c h =
        c1.others c (λ i le lt ne e.
          h i lt (λ z. ne (sym (slot-direct i lt) ∙ z)) (e ∙ sym (slot-direct i lt)))

    c1_freed :
        (k : ℕ)
        → k < ndirect
        → slot ip d k ≢ 0
        → slot ip d k ≡ ip.addrs k
        → in_use sb d1 (slot ip d k) ≡ false
    c1_freed k lt ne e = ap (in_use sb d1) e ∙ c1.freed k (omega arith) lt (λ z. ne (e ∙ z))

    direct-Gone : ip.addrs ndirect ≡ 0 → Gone ip1 d1
    direct-Gone none_there = record {
      freed = λ k le ne. elim (slot-cases k le ne) [
        | inl (lt, e) ↦ c1_freed k lt ne e
        | inr (inl last) ↦ absurd (ne (ap (slot ip d) last ∙ none_there))
        | inr (inr (block, i, lt, e, at)) ↦ absurd (block none_there)
      ];
      others = λ c h. c1_others c (λ k lt. h k (omega (arith, lt)));
      addrs = λ i le. elim (Bool-cases (ltb i ndirect)) [
        | inl before ↦ e1.empty i (omega arith) (ltb→lt i ndirect before)
        | inr last ↦
            let at : i ≡ ndirect = omega (arith, le, ltb-false i ndirect last) in
            ap ip1.addrs at ∙ e1.kept ndirect (omega arith) ∙ none_there
      ];
    }

    -- Blocks of two slots
    apart :
        (k m : ℕ) → k ≤ maxfile → m ≤ maxfile → k ≢ m → slot ip d k ≢ 0 → slot ip d k ≢ slot ip d m
    apart = file.distinct

    module _ (block : ip.addrs ndirect ≢ 0) where
      abbrev entries : ℕ → ℕ
      entries = d.words (ip.addrs ndirect)

      entries-Listed : Listed sb entries 0 nindirect d1
      entries-Listed =
          let l =
            slots-Listed entries nindirect ndirect (λ i lt. slot-entry i lt block) (omega arith) in
          record {
            used = λ i le lt ne.
                c1_others (entries i) (λ k lt' ne' e.
                  file.distinct k (i + ndirect) (omega (arith, lt')) (omega (arith, lt))
                    (λ p. omega (arith, p, lt')) ne' (sym e ∙ sym (slot-entry i lt block)))
                ∙ l.used i le lt ne;
            apart = l.apart;
          }

      module _ (t t' : Disk) (c2 : Cleared sb entries 0 nindirect d1 t) where
        -- A block that is no slot behind the first ones is none of the entries.
        c2_others :
            (c : ℕ)
            → ((i : ℕ) → i < nindirect → slot ip d (i + ndirect) ≢ 0 → c ≢ slot ip d (i + ndirect))
            → in_use sb t c ≡ in_use sb d1 c
        c2_others c h = c2.others c (λ i le lt ne e.
            h i lt (λ z. ne (sym (slot-entry i lt block) ∙ z)) (e ∙ sym (slot-entry i lt block)))

        ind_used : in_use sb t (ip.addrs ndirect) ≡ true
        ind_used =
            c2_others (ip.addrs ndirect) (λ i lt ne.
              apart maxfile (i + ndirect) (omega arith) (omega (arith, lt))
                (λ p. omega (arith, p, lt)) block)
            ∙ c1_others (ip.addrs ndirect) (λ k lt ne.
              apart maxfile k (omega arith) (omega (arith, lt)) (λ p. omega (arith, p, lt)) block)
            ∙ file.used maxfile (omega arith) block

        indirect-Gone :
            Freed sb (ip.addrs ndirect) t t'
            → Gone (record ip1 { addrs = update ip1.addrs ndirect 0 }) t'
        indirect-Gone f = record {
          freed = λ k le ne. elim (slot-cases k le ne) [
            | inl (lt, e) ↦
                not_ind (slot ip d k)
                  (apart k maxfile le (omega arith) (λ p. omega (arith, p, lt)) ne)
                ∙ c2_others (slot ip d k) (λ i lt' ne'.
                  apart k (i + ndirect) le (omega (arith, lt')) (λ p. omega (arith, p, lt)) ne)
                ∙ c1_freed k lt ne e
            | inr (inl last) ↦
                f.marked (slot ip d k)
                ∙ ap (λ z. if z then false else in_use sb t (slot ip d k))
                    ((==_iff (slot ip d k) (ip.addrs ndirect)).1 (ap (slot ip d) last))
            | inr (inr (yes_block, i, lt, e, at)) ↦
                not_ind (slot ip d k)
                  (apart k maxfile le (omega arith) (λ p. omega (arith, p, at, lt)) ne)
                ∙ ap (in_use sb t) e
                ∙ c2.freed i (omega arith) lt (λ z. ne (e ∙ z))
          ];
          others = λ c h.
              not_ind c (h maxfile (omega arith) block)
              ∙ c2_others c (λ i lt. h (i + ndirect) (omega (arith, lt)))
              ∙ c1_others c (λ k lt. h k (omega (arith, lt)));
          addrs = λ i le. elim (Bool-cases (ltb i ndirect)) [
            | inl before ↦
                update_ne ip1.addrs ndirect i 0 (λ p. omega (arith, p, ltb→lt i ndirect before))
                ∙ e1.empty i (omega arith) (ltb→lt i ndirect before)
            | inr last ↦
                let at : i ≡ ndirect = omega (arith, le, ltb-false i ndirect last) in
                ap (update ip1.addrs ndirect 0) at ∙ update_self ip1.addrs ndirect 0
          ];
        }
          where
            not_ind : (c : ℕ) → c ≢ ip.addrs ndirect → in_use sb t' c ≡ in_use sb t c
            not_ind c ne =
                f.marked c
                ∙ ap (λ z. if z then false else in_use sb t c) (ne→==_false c (ip.addrs ndirect) ne)

  -- The second half of `itrunc`
  free_indirect-Gone :
      (ip1 : Dinode) (d1 : Disk)
      → Cleared sb ip.addrs 0 ndirect d d1
      → Emptied 0 ndirect ip ip1
      → (ip' : Dinode) × (d' : Disk) × (free_indirect sb ip1 d1 ≡ ok (ip', d')) × Gone ip' d'
  unfolding free_indirect
  free_indirect-Gone ip1 d1 c1 e1 = elim (Bool-cases (ip1.addrs ndirect == 0)) [
    | inl none_there ↦ (
      ip1,
      d1,
      rw none_there refl,
      direct-Gone ip1 d1 c1 e1
          (sym (e1.kept ndirect (omega arith)) ∙ (==_iff (ip1.addrs ndirect) 0).0 none_there),
    )
    | inr there ↦
        let block : ip.addrs ndirect ≢ 0 =
          λ z. cc ((==_iff (ip1.addrs ndirect) 0).1 (e1.kept ndirect (omega arith) ∙ z), there) in
        let list = entries-Listed ip1 d1 c1 e1 block in
        let (t, ran, c2) =
          free_entries-Cleared sb (d.words (ip.addrs ndirect)) 0 nindirect d1 list in
        let (t', run, f) =
          bfree-Freed sb (ip.addrs ndirect) t (ind_used ip1 d1 c1 e1 block t t c2) in
        let ran1 : free_entries sb (d1.words (ip1.addrs ndirect)) 0 nindirect d1 ≡ ok t =
          (λ i. free_entries sb (c1.words i (e1.kept ndirect (omega arith) i)) 0 nindirect d1)
          ∙ ran in
        let run1 : bfree sb (ip1.addrs ndirect) t ≡ ok t' =
          ap (λ b. bfree sb b t) (e1.kept ndirect (omega arith)) ∙ run in
        (
          record ip1 { addrs = update ip1.addrs ndirect 0 },
          t',
          rw (there, ran1, run1) refl,
          indirect-Gone ip1 d1 c1 e1 block t t' c2 f,
        )
  ]

  -- Let the blocks of a file be its own, and `log_write` not panic. Then `itrunc` does not panic. All the
  -- file's blocks are free behind it, the bitmap has not changed for another block, and the file has no
  -- block and no size, in memory and in its block of inodes. Each block that was changed was given to
  -- `log_write`.
  pub itrunc_lem :
      (inum : ℕ)
      → (ip' : Dinode) × (d' : Disk) × (itrunc sb inum ip d ≡ ok (ip', d'))
        × Truncated sb inum ip d ip' d'
  unfolding itrunc iupdate
  itrunc_lem inum =
      let (ip1, d1, ran, c1, e1) =
        free_direct-Cleared sb ip.addrs 0 ndirect ip d
          (slots-Listed ip.addrs ndirect 0
            (λ i lt. ap (slot ip d) {x = i + 0} {y = i} (omega arith) ∙ slot-direct i lt)
            (omega arith))
          (λ i le. refl) in
      let (ip2, d2, ran2, g) = free_indirect-Gone ip1 d1 c1 e1 in
      let ip' : Dinode = record ip2 { size = 0 } in
      (
        ip',
        iupdate sb inum ip' d2,
        rw (ran, ran2) refl,
        record {
          freed = g.freed;
          others = g.others;
          empty = λ k le.
              no_slots ip2 d2 (g.addrs ndirect (omega arith)) k
                (λ lt. g.addrs k (omega (arith, lt)));
          size = refl;
          on_disk =
              ap (λ h. h (inum % ipb))
                (update_self d2.dinodes (iblock inum sb)
                  (update (d2.dinodes (iblock inum sb)) (inum % ipb) ip'))
              ∙ update_self (d2.dinodes (iblock inum sb)) (inum % ipb) ip';
          logs = itrunc-Logs sb inum ip d ip1 ip2 d1 d2 ran ran2;
        },
      )
    where
      no_slots :
          (ip2 : Dinode) (d2 : Disk)
          → ip2.addrs ndirect ≡ 0
          → (k : ℕ) → (k < ndirect → ip2.addrs k ≡ 0)
          → slot ip2 d2 k ≡ 0
      no_slots ip2 d2 none_there k zero_there = elim (Bool-cases (ltb k ndirect)) [
        | inl direct ↦ rw direct (zero_there (ltb→lt k ndirect direct))
        | inr behind ↦ ground arith
      ]
