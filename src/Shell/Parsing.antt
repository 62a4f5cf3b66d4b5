-- ===== src/Shell/Parsing.antt =====
-- The parsers end, and what they build holds words of the line.
use xv6_riscv_zig.Prelude.{
  ℕ, zero, suc, ◌-◌, ◌≤◌, ◌<◌, ◌≡◌, inl, inr, true, List, [], ◌∷◌, ◌++◌, length, ◌==◌, ==_iff,
  arith, Bool-cases,
}
use xv6_riscv_zig.Shell.{
  maxargs, Cmd, execcmd, redircmd, pipecmd, listcmd, backcmd, Redir, redirected, Parse, parsed,
  panics, out_of_fuel, ◌>>=◌, gettoken, peek, add_redir, parseredirs,
}
use xv6_riscv_zig.Shell.Tokens.{IsWord, gettoken-Took, peek-Peeked}

-- A parse does not run out of fuel, and what it returns has the property `P`.
unfoldable pub Ends : {A : Type 0} → (A → Type 0) → Parse A → Type 0
Ends P (parsed a) = P a
Ends P (panics m) = Unit
Ends P out_of_fuel = ⊥

abbrev pub Words : (ℕ → ℕ) → ℕ → List (ℕ × ℕ) → Type 0
Words f es [] = Unit
Words f es ((q, eq) ∷ ws) = IsWord f es q eq × Words f es ws

-- All that a command points to are words of the line, and no command has too many arguments.
unfoldable pub Fits : (ℕ → ℕ) → ℕ → Cmd → Type 0
Fits f es (execcmd args) = Words f es args × (length args < maxargs)
Fits f es (redircmd c file efile mode fd) = Fits f es c × IsWord f es file efile
Fits f es (pipecmd l r) = Fits f es l × Fits f es r
Fits f es (listcmd l r) = Fits f es l × Fits f es r
Fits f es (backcmd c) = Fits f es c

abbrev pub Redirs : (ℕ → ℕ) → ℕ → List Redir → Type 0
Redirs f es [] = Unit
Redirs f es (r ∷ rs) = IsWord f es r.file r.efile × Redirs f es rs

-- The parser has gone from `s` on, and has built what has the property `P`.
abbrev pub Goes : {A : Type 0} → ℕ → (A → Type 0) → ℕ → A × ℕ → Type 0
Goes es P s (a, s') = (s ≤ s') × (s' ≤ es) × P a

pub Words-append :
    (f : ℕ → ℕ) (es : ℕ) (ws : List (ℕ × ℕ)) (q eq : ℕ)
    → Words f es ws
    → IsWord f es q eq
    → Words f es (ws ++ ((q, eq) ∷ []))
Words-append f es [] q eq all w = (w, tt)
Words-append f es ((q', eq') ∷ ws) q eq (w', all) w = (w', Words-append f es ws q eq all w)

pub redirected-Fits :
    (f : ℕ → ℕ) (es : ℕ) (rs : List Redir) (c : Cmd)
    → Redirs f es rs
    → Fits f es c
    → Fits f es (redirected rs c)
unfolding redirected Fits
redirected-Fits f es [] c all fits = fits
redirected-Fits f es (r ∷ rs) c (w, all) fits = (redirected-Fits f es rs c all fits, w)

add_redir-Redirs :
    (f : ℕ → ℕ) (es tok q eq : ℕ) (rs : List Redir)
    → Redirs f es rs
    → IsWord f es q eq
    → Redirs f es (add_redir tok q eq rs)
unfolding add_redir
add_redir-Redirs f es tok q eq rs all w = elim (Bool-cases (tok == 60)) [
  | inl a ↦ rw a (w, all)
  | inr a ↦ elim (Bool-cases (tok == 62)) [
    | inl b ↦ rw (a, b) (w, all)
    | inr b ↦ elim (Bool-cases (tok == 43)) [
      | inl c ↦ rw (a, b, c) (w, all)
      | inr c ↦ rw (a, b, c) all
    ]
  ]
]

pub bind_Ends :
    {A B : Type 0} (P : A → Type 0) (Q : B → Type 0) (m : Parse A) (k : A → Parse B)
    → Ends P m
    → ((a : A) → P a → Ends Q (k a))
    → Ends Q (m >>= k)
unfolding Ends
bind_Ends P Q (parsed a) k h step = step a h
bind_Ends P Q (panics m) k h step = tt
bind_Ends P Q out_of_fuel k h step = absurd h

-- A parser that starts later goes from an earlier place too.
pub Goes-weaken :
    {A : Type 0} (es : ℕ) (P : A → Type 0) (s s1 : ℕ) (m : Parse (A × ℕ))
    → s ≤ s1
    → Ends (Goes es P s1) m
    → Ends (Goes es P s) m
unfolding Ends
Goes-weaken es P s s1 (parsed (a, s')) le (from, inside, p) = (omega (arith, le, from), inside, p)
Goes-weaken es P s s1 (panics m) le h = tt
Goes-weaken es P s s1 out_of_fuel le h = h

module _ (f : ℕ → ℕ) (es : ℕ) (null : f es ≡ 0) where
  -- Where `peek` has found one of its bytes, `gettoken` advances.
  pub taken :
      (toks : List ℕ) (s : ℕ)
      → s ≤ es
      → (peek f es toks s).0 ≡ true
      → (s < (gettoken f es (peek f es toks s).1).s) × ((gettoken f es (peek f es toks s).1).s ≤ es)
  taken toks s le found =
      let p = peek-Peeked f es null toks s le in
      let t = gettoken-Took f es null (peek f es toks s).1 p.inside in
      let go = t.advances (p.byte found) in (omega (arith, p.from, go), t.inside)

  pub parseredirs-Ends :
      (fuel : ℕ) (rs : List Redir) (s : ℕ)
      → s ≤ es
      → es - s < fuel
      → Redirs f es rs
      → Ends (Goes es (Redirs f es) s) (parseredirs f es fuel rs s)
  unfolding parseredirs Ends
  parseredirs-Ends zero rs s le enough all = absurd (omega (arith, enough))
  parseredirs-Ends (suc fuel) rs s le enough all =
      let p = peek-Peeked f es null (60 ∷ 62 ∷ []) s le in
      elim (Bool-cases (peek f es (60 ∷ 62 ∷ []) s).0) [
        | inl more ↦
            let (go, inside) = taken (60 ∷ 62 ∷ []) s le more in
            let t = gettoken f es (peek f es (60 ∷ 62 ∷ []) s).1 in
            let w = gettoken-Took f es null t.s inside in
            elim (Bool-cases ((gettoken f es t.s).ret == 97)) [
              | inl word ↦
                  let e = (==_iff (gettoken f es t.s).ret 97).0 word in
                  rw (more, word)
                    (Goes-weaken es (Redirs f es) s (gettoken f es t.s).s
                      (parseredirs f es fuel
                        (add_redir t.ret (gettoken f es t.s).q (gettoken f es t.s).eq rs)
                        (gettoken f es t.s).s)
                      (omega (arith, go, w.from))
                      (parseredirs-Ends fuel
                        (add_redir t.ret (gettoken f es t.s).q (gettoken f es t.s).eq rs)
                        (gettoken f es t.s).s w.inside (omega (arith, enough, go, w.from, w.inside))
                        (add_redir-Redirs f es t.ret (gettoken f es t.s).q (gettoken f es t.s).eq rs
                          all (w.word e))))
              | inr other ↦ rw (more, other) tt
            ]
        | inr stop ↦ rw stop (p.from, p.inside, all)
      ]
