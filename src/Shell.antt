-- ===== src/Shell.antt =====
-- user/sh.c: the parser of command lines, over a memory of bytes in which the line ends at `es`, and
-- `nulterminate`. It runs on fuel. `panic` ends the shell.
pub mod Tokens
pub mod Parsing
pub mod Commands
pub mod Lines
pub mod Cutting
pub mod Words
pub mod Simple
mod Tests
use Prim.Native.String.{String}
use xv6_riscv_zig.Prelude.{
  ℕ, zero, suc, ◌+◌, ◌-◌, Bool, true, false, not, ◌&&◌, ◌||◌, ltb, leb, ◌==◌, if◌then◌else◌, update,
  Option, none, some, List, [], ◌∷◌, ◌++◌, length,
}
use xv6_riscv_zig.Str.{strlen}

-- `MAXARGS`
abbrev pub maxargs : ℕ
maxargs = 10

-- `struct cmd`. A word is where it starts and where it ends; `execcmd` holds the words of `argv` and
-- `eargv` up to the null pointer.
pub data Cmd : Type 0 where
  execcmd : List (ℕ × ℕ) → Cmd
  redircmd : Cmd → ℕ → ℕ → ℕ → ℕ → Cmd
  pipecmd : Cmd → Cmd → Cmd
  listcmd : Cmd → Cmd → Cmd
  backcmd : Cmd → Cmd

-- The fields of `struct redircmd` but `cmd`
pub record Redir : Type 0 where
  pub file : ℕ
  pub efile : ℕ
  pub mode : ℕ
  pub fd : ℕ

-- `parseredirs` wraps a command whose `argv` `parseexec` still fills: the wraps are kept apart until
-- then, the last one first.
pub redirected : List Redir → Cmd → Cmd
redirected [] c = c
redirected (r ∷ rs) c = redircmd (redirected rs c) r.file r.efile r.mode r.fd

pub data Parse {ℓ} (A : Type ℓ) : Type ℓ where
  parsed : A → Parse A
  panics : String → Parse A
  out_of_fuel : Parse A

infixl 5 ◌>>=◌
abbrev pub ◌>>=◌ {ℓ κ} : {A : Type ℓ} {B : Type κ} → Parse A → (A → Parse B) → Parse B
parsed a >>= f = f a
panics m >>= f = panics m
out_of_fuel >>= f = out_of_fuel

-- `strchr` in a text that is a constant
unfoldable pub has : List ℕ → ℕ → Bool
has [] c = false
has (t ∷ ts) c = (t == c) || has ts c

-- `" \t\r\n\v"` and `"<|>&;()"`
abbrev pub whitespace : List ℕ
whitespace = 32 ∷ 9 ∷ 13 ∷ 10 ∷ 11 ∷ []

abbrev pub symbols : List ℕ
symbols = 60 ∷ 124 ∷ 62 ∷ 38 ∷ 59 ∷ 40 ∷ 41 ∷ []

-- The cases `'|'`, `'('`, `')'`, `';'`, `'&'`, `'<'`
abbrev pub singles : List ℕ
singles = 124 ∷ 40 ∷ 41 ∷ 59 ∷ 38 ∷ 60 ∷ []

-- `while(s < es && strchr(whitespace, *s)) s++;`, with `k` the distance to `es`
pub skip_white : (ℕ → ℕ) → ℕ → ℕ → ℕ
unfolding has
skip_white f zero s = s
skip_white f (suc k) s =
    let rest = skip_white f k (s + 1) in if has whitespace (f s) then rest else s

-- `while(s < es && !strchr(whitespace, *s) && !strchr(symbols, *s)) s++;`
pub skip_word : (ℕ → ℕ) → ℕ → ℕ → ℕ
unfolding has
skip_word f zero s = s
skip_word f (suc k) s =
    let rest = skip_word f k (s + 1) in
    if not (has whitespace (f s)) && not (has symbols (f s)) then rest else s

-- What `gettoken` returns, `*q`, `*eq` and `*ps`
pub record Token : Type 0 where
  pub ret : ℕ
  pub q : ℕ
  pub eq : ℕ
  pub s : ℕ

-- The switch: `ret`, and `s` behind it
pub read_token : (ℕ → ℕ) → ℕ → ℕ → ℕ × ℕ
unfolding has skip_word
read_token f es s =
    if f s == 0
    then (0, s)
    else (if has singles (f s)
        then (f s, s + 1)
        else (if f s == 62
            then (if f (s + 1) == 62 then (43, s + 2) else (62, s + 1))
            else (97, skip_word f (es - s) s)))

pub gettoken : (ℕ → ℕ) → ℕ → ℕ → Token
unfolding skip_white read_token
gettoken f es s =
    let q = skip_white f (es - s) s in
    let (ret, eq) = read_token f es q in
    record { ret = ret; q = q; eq = eq; s = skip_white f (es - eq) eq }

pub peek : (ℕ → ℕ) → ℕ → List ℕ → ℕ → Bool × ℕ
unfolding skip_white has
peek f es toks ps = let s = skip_white f (es - ps) ps in (not (f s == 0) && has toks (f s), s)

-- `O_RDONLY`, `O_WRONLY|O_CREATE|O_TRUNC` and `O_WRONLY|O_CREATE`
pub add_redir : ℕ → ℕ → ℕ → List Redir → List Redir
add_redir tok q eq rs =
    if tok == 60
    then record { file = q; efile = eq; mode = 0; fd = 0 } ∷ rs
    else (if tok == 62
        then record { file = q; efile = eq; mode = 1537; fd = 1 } ∷ rs
        else (if tok == 43 then record { file = q; efile = eq; mode = 513; fd = 1 } ∷ rs else rs))

pub parseredirs : (ℕ → ℕ) → ℕ → ℕ → List Redir → ℕ → Parse (List Redir × ℕ)
unfolding gettoken peek add_redir
parseredirs f es zero rs s = out_of_fuel
parseredirs f es (suc fuel) rs s =
    let (more, s1) = peek f es (60 ∷ 62 ∷ []) s in
    let t = gettoken f es s1 in
    let w = gettoken f es t.s in
    let rest = parseredirs f es fuel (add_redir t.ret w.q w.eq rs) w.s in
    let redir = if w.ret == 97 then rest else panics "missing file for redirection" in
    if more then redir else parsed (rs, s1)

-- `line` is `parseline` on what is left of the fuel. The parsers that a line is made of take it.
pub parseblock : (ℕ → ℕ) → ℕ → ℕ → (ℕ → Parse (Cmd × ℕ)) → ℕ → Parse (Cmd × ℕ)
unfolding gettoken peek parseredirs redirected
parseblock f es fuel line s =
    let (opens, s1) = peek f es (40 ∷ []) s in
    let block = do
      (cmd, s2) ← line (gettoken f es s1).s
      let (closes, s3) = peek f es (41 ∷ []) s2
      let redirs = do
        (rs, s4) ← parseredirs f es fuel [] (gettoken f es s3).s
        parsed (redirected rs cmd, s4)
      if closes then redirs else panics "syntax - missing )"
    in if opens then block else panics "parseblock"

-- The loop of `parseexec`
pub parse_args : (ℕ → ℕ) → ℕ → ℕ → List (ℕ × ℕ) → List Redir → ℕ → Parse (Cmd × ℕ)
unfolding gettoken peek parseredirs redirected
parse_args f es zero args rs s = out_of_fuel
parse_args f es (suc fuel) args rs s =
    let (stops, s1) = peek f es (124 ∷ 41 ∷ 38 ∷ 59 ∷ []) s in
    let t = gettoken f es s1 in
    let rest = do
      (rs', s2) ← parseredirs f es fuel rs t.s
      parse_args f es fuel (args ++ ((t.q, t.eq) ∷ [])) rs' s2
    in if stops
      then parsed (redirected rs (execcmd args), s1)
      else (if t.ret == 0
          then parsed (redirected rs (execcmd args), t.s)
          else (if not (t.ret == 97)
              then panics "syntax"
              else (if leb maxargs (length args + 1) then panics "too many args" else rest)))

pub parseexec : (ℕ → ℕ) → ℕ → ℕ → (ℕ → Parse (Cmd × ℕ)) → ℕ → Parse (Cmd × ℕ)
unfolding peek parseblock parseredirs parse_args
parseexec f es fuel line s =
    let (opens, s1) = peek f es (40 ∷ []) s in
    let block = parseblock f es fuel line s1 in
    let exec = do (rs, s2) ← parseredirs f es fuel [] s1; parse_args f es fuel [] rs s2
    in if opens then block else exec

pub parsepipe : (ℕ → ℕ) → ℕ → ℕ → (ℕ → Parse (Cmd × ℕ)) → ℕ → Parse (Cmd × ℕ)
unfolding gettoken peek parseexec
parsepipe f es zero line s = out_of_fuel
parsepipe f es (suc fuel) line s = do
  (cmd, s1) ← parseexec f es (suc fuel) line s
  let (more, s2) = peek f es (124 ∷ []) s1
  let piped = do
    (right, s3) ← parsepipe f es fuel line (gettoken f es s2).s
    parsed (pipecmd cmd right, s3)
  if more then piped else parsed (cmd, s2)

-- The loop of `parseline`
pub parse_backs : (ℕ → ℕ) → ℕ → ℕ → Cmd → ℕ → Parse (Cmd × ℕ)
unfolding gettoken peek
parse_backs f es zero cmd s = out_of_fuel
parse_backs f es (suc fuel) cmd s =
    let (more, s1) = peek f es (38 ∷ []) s in
    let rest = parse_backs f es fuel (backcmd cmd) (gettoken f es s1).s in
    if more then rest else parsed (cmd, s1)

-- The end of `parseline`, from the test for `;` on
pub end_of_line : (ℕ → ℕ) → ℕ → (ℕ → Parse (Cmd × ℕ)) → Cmd × ℕ → Parse (Cmd × ℕ)
unfolding gettoken peek
end_of_line f es line (cmd, s) =
    let (more, s1) = peek f es (59 ∷ []) s in
    let listed = do (right, s2) ← line (gettoken f es s1).s; parsed (listcmd cmd right, s2)
    in if more then listed else parsed (cmd, s1)

-- The body of `parseline`
pub one_line : (ℕ → ℕ) → ℕ → ℕ → (ℕ → Parse (Cmd × ℕ)) → ℕ → Parse (Cmd × ℕ)
unfolding parsepipe parse_backs end_of_line
one_line f es fuel line s = do
  (cmd, s1) ← parsepipe f es fuel line s
  r ← parse_backs f es fuel cmd s1
  end_of_line f es line r

pub parseline : (ℕ → ℕ) → ℕ → ℕ → ℕ → Parse (Cmd × ℕ)
unfolding one_line
parseline f es zero s = out_of_fuel
parseline f es (suc fuel) s = one_line f es (suc fuel) (λ p. parseline f es fuel p) s

pub cut_words : List (ℕ × ℕ) → (ℕ → ℕ) → ℕ → ℕ
cut_words [] f = f
cut_words ((q, eq) ∷ ws) f = cut_words ws (update f eq 0)

pub nulterminate : Cmd → (ℕ → ℕ) → ℕ → ℕ
unfolding cut_words
nulterminate (execcmd args) f = cut_words args f
nulterminate (redircmd c file efile mode fd) f = update (nulterminate c f) efile 0
nulterminate (pipecmd l r) f = nulterminate r (nulterminate l f)
nulterminate (listcmd l r) f = nulterminate r (nulterminate l f)
nulterminate (backcmd c) f = nulterminate c f

-- The command, and the memory that `nulterminate` leaves
pub parse_to : ℕ → (ℕ → ℕ) → ℕ → ℕ → Parse (Cmd × (ℕ → ℕ))
unfolding peek parseline nulterminate
parse_to fuel f s es = do
  (cmd, s1) ← parseline f es fuel s
  let (more, s2) = peek f es [] s1
  if s2 == es then parsed (cmd, nulterminate cmd f) else panics "syntax"

pub parsecmd : ℕ → (ℕ → ℕ) → ℕ → Parse (Cmd × (ℕ → ℕ))
unfolding strlen parse_to
parsecmd fuel f s = elim (strlen fuel f s 0) [
  | some n ↦ parse_to fuel f s (s + n)
  | none ↦ out_of_fuel
]
