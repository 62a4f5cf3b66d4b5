-- ===== src/Shell/Tests.antt =====
-- The command line `(a;bc)>d &|e`
use xv6_riscv_zig.Prelude.{
  ℕ, zero, suc, ◌+◌, ◌<◌, ◌≡◌, ◌≢◌, refl, ap, ◌∙◌, inl, inr, List, [], ◌∷◌, get_or, arith,
}
use xv6_riscv_zig.Shell.{
  Cmd, execcmd, redircmd, pipecmd, listcmd, Parse, parsed, panics, out_of_fuel, has, whitespace,
  nulterminate, parsecmd,
}
use xv6_riscv_zig.Shell.Tokens.{mark, IsWord}
use xv6_riscv_zig.Shell.Words.{White, Spells}
use xv6_riscv_zig.Shell.Simple.{parsecmd-Spells}

abbrev text : List ℕ
text = 40 ∷ 97 ∷ 59 ∷ 98 ∷ 99 ∷ 41 ∷ 62 ∷ 100 ∷ 32 ∷ 124 ∷ 101 ∷ []

abbrev bytes : ℕ → ℕ
bytes q = get_or text q 0

abbrev tree : Cmd
tree =
    pipecmd (redircmd (listcmd (execcmd ((1, 2) ∷ [])) (execcmd ((3, 5) ∷ []))) 7 8 1537 1)
      (execcmd ((10, 11) ∷ []))

cmd_of : Parse (Cmd × (ℕ → ℕ)) → Parse Cmd
cmd_of (parsed (c, g)) = parsed c
cmd_of (panics m) = panics m
cmd_of out_of_fuel = out_of_fuel

parses : cmd_of (parsecmd 12 bytes 0) ≡ parsed tree
unfolding parsecmd cmd_of
parses = refl

-- The line ` a b`, at address 0
abbrev line : ℕ → ℕ
line q = get_or (32 ∷ 97 ∷ 32 ∷ 98 ∷ []) q 0

line_text : (j : ℕ) → j < 4 → line (0 + j) ≢ 0
line_text zero lt e = omega (arith, e)
line_text (suc zero) lt e = omega (arith, e)
line_text (suc (suc zero)) lt e = omega (arith, e)
line_text (suc (suc (suc zero))) lt e = omega (arith, e)
line_text (suc (suc (suc (suc j)))) lt e = omega (arith, lt)

first-IsWord : IsWord line 4 1 2
unfolding mark
first-IsWord = record {
  some_byte = omega arith;
  inside = omega arith;
  bytes = λ j from to. ap (λ k. mark (line k)) {x = j} {y = 1} (omega (arith, from, to));
  ends = inl refl;
}

second-IsWord : IsWord line 4 3 4
unfolding mark
second-IsWord = record {
  some_byte = omega arith;
  inside = omega arith;
  bytes = λ j from to. ap (λ k. mark (line k)) {x = j} {y = 3} (omega (arith, from, to));
  ends = inr refl;
}

White-step : (p : ℕ) → line p ≡ 32 → White line p (p + 1)
unfolding has
White-step p e = (
  omega arith,
  λ j from to.
      ap (λ k. has whitespace (line k)) {x = j} {y = p} (omega (arith, from, to))
      ∙ ap (has whitespace) e,
)

line-Spells : Spells line 4 1 ((1, 2) ∷ (3, 4) ∷ [])
line-Spells = (
  refl,
  first-IsWord,
  3,
  White-step 2 refl,
  (refl, second-IsWord, 4, (omega arith, λ j a b. absurd (omega (arith, a, b))), refl),
)

parsecmd-Spells_example :
    parsecmd 5 line 0
    ≡ parsed (execcmd ((1, 2) ∷ (3, 4) ∷ []), nulterminate (execcmd ((1, 2) ∷ (3, 4) ∷ [])) line)
parsecmd-Spells_example =
    parsecmd-Spells 5 line 0 4 1 ((1, 2) ∷ (3, 4) ∷ []) line_text refl (omega arith)
      (White-step 0 refl) line-Spells (omega arith)
