-- ===== src/Shell/Simple.antt =====
-- Lines of words alone.
use xv6_riscv_zig.Prelude.{
  ℕ, zero, suc, ◌+◌, ◌-◌, ◌≤◌, ◌<◌, ◌≡◌, ◌≢◌, refl, ap, ◌∙◌, subst, false, List, [], ◌∷◌, ◌++◌,
  append-nil, append_assoc, length, length-append, leb, ==_self, arith,
}
use xv6_riscv_zig.Str.Compare.{strlen_lem}
use xv6_riscv_zig.Shell.{
  maxargs, Cmd, execcmd, redirected, Parse, parsed, ◌>>=◌, parseredirs, parse_args, parseexec,
  parsepipe, parse_backs, end_of_line, one_line, parseline, nulterminate, parse_to, parsecmd,
}
use xv6_riscv_zig.Shell.Words.{
  White, Spells, no_symbol, Still, end_Still, Spells-Still, peek-Still, no_White, gettoken-word,
  gettoken-end,
}

module _ (f : ℕ → ℕ) (es : ℕ) (null : f es ≡ 0) where
  parseredirs-none :
      (fuel p q : ℕ)
      → White f p q
      → Still f es null q
      → parseredirs f es (suc fuel) [] p ≡ parsed ([], q)
  unfolding parseredirs
  parseredirs-none fuel p q white still =
      let looks = peek-Still f es null (60 ∷ 62 ∷ []) p q white still (no_symbol (f q) still.2).1 in
      rw (ap (λ r. r.0) looks, ap (λ r. r.1) looks) refl

  parse_args-Spells :
      (fuel : ℕ) (args ws : List (ℕ × ℕ)) (q : ℕ)
      → ((j : ℕ) → q ≤ j → j < es → f j ≢ 0)
      → Spells f es q ws
      → es - q < fuel
      → length args + length ws < maxargs
      → parse_args f es fuel args [] q ≡ parsed (execcmd (args ++ ws), es)
  unfolding parse_args redirected
  parse_args-Spells zero args ws q text spells enough few = absurd (omega (arith, enough))
  parse_args-Spells (suc fuel) args [] q text spells enough few =
      let looks =
        peek-Still f es null (124 ∷ 41 ∷ 38 ∷ 59 ∷ []) es es (no_White f es null es)
          (end_Still f es null) (no_symbol (f es) (end_Still f es null).2).2 in
      rw
        (
          spells,
          ap (λ r. r.0) looks,
          ap (λ r. r.1) looks,
          ap (λ t. t.ret) (gettoken-end f es null),
          ap (λ t. t.s) (gettoken-end f es null),
          append-nil args,
        )
        refl
  parse_args-Spells (suc fuel) args ((a, eq) ∷ ws) q text (here, w, q', white, rest) enough few =
      let still = Spells-Still f es null q ((q, eq) ∷ ws) (refl, w, q', white, rest) in
      let next = Spells-Still f es null q' ws rest in
      let far : es - q' < fuel = omega (arith, enough, w.some_byte, w.inside, white.0) in
      let room : leb maxargs (length args + 1) ≡ false = ground (arith, few) in
      let short : length (args ++ ((q, eq) ∷ [])) + length ws < maxargs =
        omega (arith, few, length-append args ((q, eq) ∷ [])) in
      let later =
        parse_args-Spells fuel (args ++ ((q, eq) ∷ [])) ws q'
          (λ j le lt. text j (omega (arith, le, w.some_byte, white.0)) lt) rest far short in
      let looks =
        peek-Still f es null (124 ∷ 41 ∷ 38 ∷ 59 ∷ []) q q (no_White f es null q) still
          (no_symbol (f q) still.2).2 in
      let takes =
        gettoken-word f es null q eq q'
          (text q (omega arith) (omega (arith, w.some_byte, w.inside))) w white next in
      rw
        (
          ap (λ r. r.0) looks,
          ap (λ r. r.1) looks,
          ap (λ t. t.ret) takes,
          ap (λ t. t.s) takes,
          ap (λ t. t.eq) takes,
          ap (λ t. t.q) takes,
          room,
          here,
        )
        (with_fuel fuel q' args ws eq q next rest far later)
    where
      with_fuel :
          (n p : ℕ) (xs ys : List (ℕ × ℕ)) (eq q : ℕ)
          → Still f es null p
          → Spells f es p ys
          → es - p < n
          → parse_args f es n (xs ++ ((q, eq) ∷ [])) [] p
            ≡ parsed (execcmd ((xs ++ ((q, eq) ∷ [])) ++ ys), es)
          → (parseredirs f es n [] p >>= λ r. parse_args f es n (xs ++ ((q, eq) ∷ [])) r.0 r.1)
            ≡ parsed (execcmd (xs ++ ((q, eq) ∷ ys)), es)
      with_fuel zero p xs ys eq q still rest far later = absurd (omega (arith, far))
      with_fuel (suc n) p xs ys eq q still rest far later =
          rw (parseredirs-none n p p (no_White f es null p) still)
            (later ∙ ap (λ l. parsed (execcmd l, es)) (append_assoc xs ((q, eq) ∷ []) ys))

  parseexec-Spells :
      (fuel : ℕ) (line : ℕ → Parse (Cmd × ℕ)) (ws : List (ℕ × ℕ)) (p q : ℕ)
      → ((j : ℕ) → q ≤ j → j < es → f j ≢ 0)
      → White f p q
      → Spells f es q ws
      → es - p < suc fuel
      → length ws < maxargs
      → parseexec f es (suc fuel) line p ≡ parsed (execcmd ws, es)
  unfolding parseexec
  parseexec-Spells fuel line ws p q text white spells enough few =
      let still = Spells-Still f es null q ws spells in
      let looks = peek-Still f es null (40 ∷ []) p q white still (no_symbol (f q) still.2).0 in
      let redirs = parseredirs-none fuel q q (no_White f es null q) still in
      let args =
        parse_args-Spells (suc fuel) [] ws q text spells (omega (arith, enough, white.0))
          (omega (arith, few)) in
      rw (ap (λ r. r.0) looks, ap (λ r. r.1) looks, redirs) args

  parseline-Spells :
      (fuel : ℕ) (ws : List (ℕ × ℕ)) (p q : ℕ)
      → ((j : ℕ) → q ≤ j → j < es → f j ≢ 0)
      → White f p q
      → Spells f es q ws
      → es - p < fuel
      → length ws < maxargs
      → parseline f es fuel p ≡ parsed (execcmd ws, es)
  unfolding parseline one_line parsepipe parse_backs end_of_line
  parseline-Spells zero ws p q text white spells enough few = absurd (omega (arith, enough))
  parseline-Spells (suc fuel) ws p q text white spells enough few =
      let (_, _, _, bar, amp, semi, _, _) = no_symbol (f es) (end_Still f es null).2 in
      let exec =
        parseexec-Spells fuel (λ r. parseline f es fuel r) ws p q text white spells enough few in
      let pipe =
        peek-Still f es null (124 ∷ []) es es (no_White f es null es) (end_Still f es null) bar in
      let back =
        peek-Still f es null (38 ∷ []) es es (no_White f es null es) (end_Still f es null) amp in
      let list =
        peek-Still f es null (59 ∷ []) es es (no_White f es null es) (end_Still f es null) semi in
      rw
        (
          exec,
          ap (λ r. r.0) pipe,
          ap (λ r. r.1) pipe,
          ap (λ r. r.0) back,
          ap (λ r. r.1) back,
          ap (λ r. r.0) list,
          ap (λ r. r.1) list,
        )
        refl

-- A line of less than `MAXARGS` words with white space before, between and behind them is the command
-- that runs them: on fuel that is more than the line's length, `parsecmd` returns it.
pub parsecmd-Spells :
    (fuel : ℕ) (f : ℕ → ℕ) (s n q : ℕ) (ws : List (ℕ × ℕ))
    → ((j : ℕ) → j < n → f (s + j) ≢ 0)
    → f (s + n) ≡ 0
    → n < fuel
    → White f s q
    → Spells f (s + n) q ws
    → length ws < maxargs
    → parsecmd fuel f s ≡ parsed (execcmd ws, nulterminate (execcmd ws) f)
unfolding parsecmd parse_to
parsecmd-Spells fuel f s n q ws text null enough white spells few =
    let es = s + n in
    let inside : (j : ℕ) → q ≤ j → j < es → f j ≢ 0 = λ j from to.
      subst (λ k. f k ≢ 0) {x = s + (j - s)} {y = j} (omega (arith, from, white.0))
        (text (j - s) (omega (arith, to, from, white.0))) in
    let line =
      parseline-Spells f es null fuel ws s q inside white spells (omega (arith, enough)) few in
    let here = peek-Still f es null [] es es (no_White f es null es) (end_Still f es null) refl in
    rw (strlen_lem fuel f s n text null enough, line, ap (λ r. r.1) here, ==_self es, parsecmd) refl
