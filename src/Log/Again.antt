-- ===== src/Log/Again.antt =====
-- A recovery that is itself cut short is made good by the next one.
use xv6_riscv_zig.Prelude.{
  ℕ, ◌+◌, ◌<◌, ◌≡◌, refl, ◌∙◌, sym, ◌≢◌, inl, inr, [], ◌∷◌, ◌++◌, arith, take, take-all,
  length-append, length, subst, Bool-cases, leb, leb→le, leb-false,
}
use xv6_riscv_zig.Log.Recover.{
  IsRecoverable, redo, recovered, recovered_disk, recovered_whole, recovered_clear,
}
use xv6_riscv_zig.Log.Writes.{
  Disk, Writes, Avoids, write_all, write_all-append, write_all-Avoids, write_all_last,
  write_all_again, take-append_of_le, entries, entries_congr, entries-Avoids, length-entries,
  take-Avoids,
}

-- `power` lets a whole recovery of `d` run; no home that the header names is the header's block.
module _ (start nlog power : ℕ) (d : Disk) (h : IsRecoverable start d)
    (homes : (j : ℕ) → j < d start 0 → d start (j + 1) ≢ start) (enough : d start 0 < power) where
  redo-Avoids_log : (i : ℕ) → i < d start 0 → Avoids (start + i + 1) (redo start d)
  redo-Avoids_log i p =
      entries-Avoids _ _ (start + i + 1) (d start 0) 0 (λ j q r e. h i j p (omega arith) (sym e))

  redo-Avoids_start : Avoids start (redo start d)
  redo-Avoids_start = entries-Avoids _ _ start (d start 0) 0 (λ j q r e. homes j (omega arith) e)

  length-redo : length (redo start d) ≡ d start 0
  length-redo = length-entries (λ j. d start (j + 1)) (λ j. d (start + j + 1)) (d start 0) 0

  -- The disk of a recovery that stopped after `m` of its install writes
  module _ (m : ℕ) where
    abbrev part : Disk
    part = write_all (take m (redo start d)) d

    part-header : part start ≡ d start
    part-header =
        write_all-Avoids (take m (redo start d)) d start
          (take-Avoids m (redo start d) start redo-Avoids_start)

    part-entry : (i : ℕ) → i < d start 0 → part (start + i + 1) ≡ d (start + i + 1)
    part-entry i p =
        write_all-Avoids (take m (redo start d)) d (start + i + 1)
          (take-Avoids m (redo start d) (start + i + 1) (redo-Avoids_log i p))

    part-IsRecoverable : IsRecoverable start part
    part-IsRecoverable =
        subst (λ b. (i j : ℕ) → i < b 0 → j < b 0 → start + i + 1 ≢ b (j + 1)) (sym part-header) h

    redo-part : redo start part ≡ redo start d
    redo-part =
        (λ t. entries (λ j. part-header t (j + 1)) (λ j. part (start + j + 1)) (part-header t 0) 0)
        ∙ entries_congr _ _ _ _ (d start 0) 0 (λ j p q. (refl, part-entry j (omega arith)))

    again_after_part :
        (b : ℕ) → b ≢ start → recovered start nlog power part b ≡ write_all (redo start d) d b
    again_after_part b ne =
        (recovered_whole start nlog power part part-IsRecoverable
            (subst (λ c. c < power) (λ t. sym part-header t 0) enough)).1
          b ne
        ∙ (λ t. write_all (redo-part t) part b)
        ∙ write_all_again m (redo start d) d d b refl

  -- Whatever number `k` of disk writes a first recovery makes before the machine stops, the
  -- recovery after it leaves in every block but the header's what one recovery alone leaves.
  pub recovery_restarts :
      (k b : ℕ)
      → b ≢ start
      → recovered start nlog power (recovered start nlog k d) b ≡ recovered start nlog power d b
  recovery_restarts k b ne =
      let (h0, z, e) = recovered_disk start nlog k d h in
      let ws : Writes = redo start d in
      let y : Disk = write_all ws d in
      let once = (recovered_whole start nlog power d h enough).1 b ne in
      elim (Bool-cases (leb k (d start 0))) [
        | inl few ↦
            (λ t. recovered start nlog power (e t) b)
            ∙ (λ t.
                recovered start nlog power
                  (write_all
                    (take-append_of_le k ws ((start, h0) ∷ [])
                      (omega (arith, length-redo, leb→le k (d start 0) few)) t)
                    d)
                  b)
            ∙ again_after_part k b ne
            ∙ sym once
        | inr many ↦
            let all : recovered start nlog k d ≡ write_all ((start, h0) ∷ []) y =
              e
              ∙ (λ t.
                  write_all
                    (take-all k (ws ++ (start, h0) ∷ [])
                      (omega (
                        arith,
                        length-redo,
                        length-append ws ((start, h0) ∷ []),
                        leb-false k (d start 0) many,
                      ))
                      t)
                    d)
              ∙ write_all-append ws ((start, h0) ∷ []) d in
            recovered_clear start nlog power (recovered start nlog k d)
              ((λ t. all t start 0) ∙ (λ t. write_all_last y start h0 t 0) ∙ z) (omega arith) b ne
            ∙ (λ t. all t b)
            ∙ write_all-Avoids ((start, h0) ∷ []) y b ((λ q. ne (sym q)), tt)
            ∙ sym once
      ]
