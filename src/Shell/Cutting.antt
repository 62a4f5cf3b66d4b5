-- ===== src/Shell/Cutting.antt =====
-- What `nulterminate` leaves of the line, and `parsecmd`.
use xv6_riscv_zig.Prelude.{
  ℕ, ◌+◌, ◌≤◌, ◌<◌, ◌≡◌, ◌≢◌, inl, inr, refl, ap, ◌∙◌, false, List, [], ◌∷◌, ◌==◌, if◌then◌else◌,
  update, update_self, update_ne, arith, Bool-cases,
}
use xv6_riscv_zig.Str.Compare.{strlen_lem}
use xv6_riscv_zig.Shell.{
  Cmd, execcmd, redircmd, pipecmd, listcmd, backcmd, parsed, panics, peek, parseline, cut_words,
  nulterminate, parse_to, parsecmd,
}
use xv6_riscv_zig.Shell.Tokens.{mark, IsWord}
use xv6_riscv_zig.Shell.Parsing.{Ends, Words, Fits, Goes, bind_Ends}
use xv6_riscv_zig.Shell.Lines.{parseline-Ends}

-- `P` holds for each word of a list, and of a command.
abbrev pub EachOf : (ℕ → ℕ → Type 0) → List (ℕ × ℕ) → Type 0
EachOf P [] = Unit
EachOf P ((q, eq) ∷ ws) = P q eq × EachOf P ws

unfoldable pub EachWord : (ℕ → ℕ → Type 0) → Cmd → Type 0
EachWord P (execcmd args) = EachOf P args
EachWord P (redircmd c file efile mode fd) = EachWord P c × P file efile
EachWord P (pipecmd l r) = EachWord P l × EachWord P r
EachWord P (listcmd l r) = EachWord P l × EachWord P r
EachWord P (backcmd c) = EachWord P c

-- In `g`, the word of `f` from `q` up to `eq` is there, with a NUL behind it.
abbrev pub Text : (ℕ → ℕ) → (ℕ → ℕ) → ℕ → ℕ → Type 0
Text f g q eq = ((j : ℕ) → q ≤ j → j < eq → g j ≡ f j) × (g eq ≡ 0)

-- What `parsecmd` promises of the command it returns and the memory that it leaves
abbrev pub Terminated : (ℕ → ℕ) → ℕ → Cmd × (ℕ → ℕ) → Type 0
Terminated f es (c, g) = Fits f es c × EachWord (Text f g) c

EachOf-zip :
    (P Q R : ℕ → ℕ → Type 0) (ws : List (ℕ × ℕ))
    → EachOf P ws
    → EachOf Q ws
    → ((q eq : ℕ) → P q eq → Q q eq → R q eq)
    → EachOf R ws
EachOf-zip P Q R [] ps qs step = tt
EachOf-zip P Q R ((q, eq) ∷ ws) (p, ps) (r, qs) step =
    (step q eq p r, EachOf-zip P Q R ws ps qs step)

EachWord-zip :
    (P Q R : ℕ → ℕ → Type 0) (c : Cmd)
    → EachWord P c
    → EachWord Q c
    → ((q eq : ℕ) → P q eq → Q q eq → R q eq)
    → EachWord R c
unfolding EachWord
EachWord-zip P Q R (execcmd args) ps qs step = EachOf-zip P Q R args ps qs step
EachWord-zip P Q R (redircmd c file efile mode fd) (ps, p) (qs, q) step =
    (EachWord-zip P Q R c ps qs step, step file efile p q)
EachWord-zip P Q R (pipecmd l r) (ps, p) (qs, q) step =
    (EachWord-zip P Q R l ps qs step, EachWord-zip P Q R r p q step)
EachWord-zip P Q R (listcmd l r) (ps, p) (qs, q) step =
    (EachWord-zip P Q R l ps qs step, EachWord-zip P Q R r p q step)
EachWord-zip P Q R (backcmd c) ps qs step = EachWord-zip P Q R c ps qs step

update_zero : (g : ℕ → ℕ) (p j : ℕ) → g j ≡ 0 → update g p 0 j ≡ 0
update_zero g p j z = ground arith

-- A byte that is 0 stays 0.
cut_words-zero : (ws : List (ℕ × ℕ)) (g : ℕ → ℕ) (j : ℕ) → g j ≡ 0 → cut_words ws g j ≡ 0
unfolding cut_words
cut_words-zero [] g j z = z
cut_words-zero ((q, eq) ∷ ws) g j z = cut_words-zero ws (update g eq 0) j (update_zero g eq j z)

nulterminate-zero : (c : Cmd) (g : ℕ → ℕ) (j : ℕ) → g j ≡ 0 → nulterminate c g j ≡ 0
unfolding nulterminate
nulterminate-zero (execcmd args) g j z = cut_words-zero args g j z
nulterminate-zero (redircmd c file efile mode fd) g j z =
    update_zero (nulterminate c g) efile j (nulterminate-zero c g j z)
nulterminate-zero (pipecmd l r) g j z =
    nulterminate-zero r (nulterminate l g) j (nulterminate-zero l g j z)
nulterminate-zero (listcmd l r) g j z =
    nulterminate-zero r (nulterminate l g) j (nulterminate-zero l g j z)
nulterminate-zero (backcmd c) g j z = nulterminate-zero c g j z

abbrev Nul : (ℕ → ℕ) → ℕ → ℕ → Type 0
Nul g q eq = g eq ≡ 0

cut_words-Nul : (ws : List (ℕ × ℕ)) (g : ℕ → ℕ) → EachOf (Nul (cut_words ws g)) ws
unfolding cut_words
cut_words-Nul [] g = tt
cut_words-Nul ((q, eq) ∷ ws) g =
    (cut_words-zero ws (update g eq 0) eq (update_self g eq 0), cut_words-Nul ws (update g eq 0))

Nul-nulterminate :
    (c r : Cmd) (g : ℕ → ℕ) → EachWord (Nul g) c → EachWord (Nul (nulterminate r g)) c
Nul-nulterminate c r g all =
    EachWord-zip (Nul g) (Nul g) (Nul (nulterminate r g)) c all all
      (λ q eq z z'. nulterminate-zero r g eq z)

nulterminate-Nul : (c : Cmd) (g : ℕ → ℕ) → EachWord (Nul (nulterminate c g)) c
unfolding nulterminate EachWord
nulterminate-Nul (execcmd args) g = cut_words-Nul args g
nulterminate-Nul (redircmd c file efile mode fd) g =
    let all = nulterminate-Nul c g in
    (
      EachWord-zip (Nul (nulterminate c g)) (Nul (nulterminate c g))
          (Nul (update (nulterminate c g) efile 0)) c all all
          (λ q eq z z'. update_zero (nulterminate c g) efile eq z),
      update_self (nulterminate c g) efile 0,
    )
nulterminate-Nul (pipecmd l r) g = (
  Nul-nulterminate l r (nulterminate l g) (nulterminate-Nul l g),
  nulterminate-Nul r (nulterminate l g),
)
nulterminate-Nul (listcmd l r) g = (
  Nul-nulterminate l r (nulterminate l g) (nulterminate-Nul l g),
  nulterminate-Nul r (nulterminate l g),
)
nulterminate-Nul (backcmd c) g = nulterminate-Nul c g

-- The bytes of words are as they were.
abbrev Kept : (ℕ → ℕ) → ℕ → (ℕ → ℕ) → Type 0
Kept f es g = (j : ℕ) → mark (f j) ≡ false → j < es → g j ≡ f j

module _ (f : ℕ → ℕ) (es : ℕ) where
  update-Kept : (q eq : ℕ) (g : ℕ → ℕ) → IsWord f es q eq → Kept f es g → Kept f es (update g eq 0)
  update-Kept q eq g w kept j plain lt =
      update_ne g eq j 0 (λ e. elim w.ends [
        | inl marked ↦ cc (ap (λ p. mark (f p)) e, marked, plain)
        | inr last ↦ omega (arith, e, last, lt)
      ])
      ∙ kept j plain lt

  cut_words-Kept :
      (ws : List (ℕ × ℕ)) (g : ℕ → ℕ) → Words f es ws → Kept f es g → Kept f es (cut_words ws g)
  unfolding cut_words
  cut_words-Kept [] g words kept = kept
  cut_words-Kept ((q, eq) ∷ ws) g (w, words) kept =
      cut_words-Kept ws (update g eq 0) words (update-Kept q eq g w kept)

  nulterminate-Kept :
      (c : Cmd) (g : ℕ → ℕ) → Fits f es c → Kept f es g → Kept f es (nulterminate c g)
  unfolding nulterminate Fits
  nulterminate-Kept (execcmd args) g (words, few) kept = cut_words-Kept args g words kept
  nulterminate-Kept (redircmd c file efile mode fd) g (fits, w) kept =
      update-Kept file efile (nulterminate c g) w (nulterminate-Kept c g fits kept)
  nulterminate-Kept (pipecmd l r) g (fits, fits') kept =
      nulterminate-Kept r (nulterminate l g) fits' (nulterminate-Kept l g fits kept)
  nulterminate-Kept (listcmd l r) g (fits, fits') kept =
      nulterminate-Kept r (nulterminate l g) fits' (nulterminate-Kept l g fits kept)
  nulterminate-Kept (backcmd c) g fits kept = nulterminate-Kept c g fits kept

  Words-EachOf : (ws : List (ℕ × ℕ)) → Words f es ws → EachOf (IsWord f es) ws
  Words-EachOf [] all = tt
  Words-EachOf ((q, eq) ∷ ws) (w, all) = (w, Words-EachOf ws all)

  Fits-EachWord : (c : Cmd) → Fits f es c → EachWord (IsWord f es) c
  unfolding Fits EachWord
  Fits-EachWord (execcmd args) (words, few) = Words-EachOf args words
  Fits-EachWord (redircmd c file efile mode fd) (fits, w) = (Fits-EachWord c fits, w)
  Fits-EachWord (pipecmd l r) (fits, fits') = (Fits-EachWord l fits, Fits-EachWord r fits')
  Fits-EachWord (listcmd l r) (fits, fits') = (Fits-EachWord l fits, Fits-EachWord r fits')
  Fits-EachWord (backcmd c) fits = Fits-EachWord c fits

  nulterminate-Terminated : (c : Cmd) → Fits f es c → Terminated f es (c, nulterminate c f)
  nulterminate-Terminated c fits =
      let kept = nulterminate-Kept c f fits (λ j plain lt. refl) in
      (
        fits,
        EachWord-zip (IsWord f es) (Nul (nulterminate c f)) (Text f (nulterminate c f)) c
            (Fits-EachWord c fits) (nulterminate-Nul c f)
            (λ q eq w z.
              ((λ j from to. kept j (w.bytes j from to) (omega (arith, to, w.inside))), z)),
      )

-- On fuel that is more than the length of the line, `parsecmd` ends: it panics, or it returns a
-- command that has less than `MAXARGS` arguments for each program to run, and whose words are words
-- of the line, each as long as it can be and without white space or a symbol. In the memory that it
-- leaves, each word has its bytes and a NUL behind them.
pub parsecmd_lem :
    (fuel : ℕ) (f : ℕ → ℕ) (s n : ℕ)
    → ((j : ℕ) → j < n → f (s + j) ≢ 0)
    → f (s + n) ≡ 0
    → n < fuel
    → Ends (Terminated f (s + n)) (parsecmd fuel f s)
unfolding parsecmd parse_to Ends
parsecmd_lem fuel f s n text null enough =
    rw (strlen_lem fuel f s n text null enough, Ends, parsecmd)
      (bind_Ends (Goes (s + n) (Fits f (s + n)) s) (Terminated f (s + n))
        (parseline f (s + n) fuel s)
        (λ r.
          if (peek f (s + n) [] r.1).1 == s + n
          then parsed (r.0, nulterminate r.0 f)
          else panics "syntax")
        (parseline-Ends f (s + n) null fuel s (omega arith) (omega (arith, enough)))
        (λ r (from, inside, fits). elim (Bool-cases ((peek f (s + n) [] r.1).1 == s + n)) [
          | inl all ↦ rw all (nulterminate-Terminated f (s + n) r.0 fits)
          | inr left ↦ rw left tt
        ]))
