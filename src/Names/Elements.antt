-- ===== src/Names/Elements.antt =====
-- `skipelem` takes the first element off a path.
use xv6_riscv_zig.Prelude.{
  ℕ, ◌+◌, ◌-◌, ◌≤◌, ◌<◌, ◌≡◌, ◌⊎◌, inl, inr, refl, ap, ◌∙◌, sym, subst, List, [], ◌∷◌, length,
  length-slice, slice, slice-same, take, take-slice, take-all, leb, leb→le, leb-false, ne→==_false,
  arith, Bool-cases, Option, some, none, min, update, update_self, update_ne,
}
use xv6_riscv_zig.Str.{memmove}
use xv6_riscv_zig.Str.Move.{memmove_lem, moved-in, moved-out}
use xv6_riscv_zig.Names.{dirsiz, skip_slashes, copy_elem, skipelem}
use xv6_riscv_zig.Names.Texts.{
  TextAt, drop_slashes, first_elem, behind_elem, Stops, skip_slashes-Stops, scan_elem-Stops,
  TextAt-same,
}

-- `name` holds the first `dirsiz` bytes of `e`, with a NUL behind them where there is room.
pub record HoldsName (g : ℕ → ℕ) (name : ℕ) (e : List ℕ) : Type 0 where
  pub bytes : slice g name (min dirsiz (length e)) ≡ take dirsiz e
  pub ends : length e < dirsiz → g (name + length e) ≡ 0

copy_elem-out :
    (f : ℕ → ℕ) (s len name q : ℕ) → (name ≤ q → name + dirsiz ≤ q) → copy_elem f s len name q ≡ f q
unfolding copy_elem
copy_elem-out f s len name q out = elim (Bool-cases (leb dirsiz len)) [
  | inl long ↦ rw long (memmove_lem f name s dirsiz q ∙ moved-out f name s dirsiz q out)
  | inr short ↦
      let lt = leb-false dirsiz len short in
      rw short (
        update_ne (memmove f name s len) (name + len) q 0
          (λ e. omega (arith, e, out (omega (arith, e)), lt))
        ∙ memmove_lem f name s len q
        ∙ moved-out f name s len q (λ le. omega (arith, out le, lt)))
]

copy_elem-HoldsName :
    (f : ℕ → ℕ) (s len name : ℕ) → HoldsName (copy_elem f s len name) name (slice f s len)
unfolding copy_elem
copy_elem-HoldsName f s len name = elim (Bool-cases (leb dirsiz len)) [
  | inl long ↦
      let le = leb→le dirsiz len long in
      rw long (record {
        bytes =
            ap (slice (memmove f name s dirsiz) name) {x = min dirsiz (length (slice f s len))}
              {y = dirsiz} (omega (arith, length-slice f s len, le))
            ∙ slice-same (memmove f name s dirsiz) f name s dirsiz (λ j lt. moved_byte dirsiz j lt)
            ∙ sym (take-slice f s dirsiz len le);
        ends = λ lt. absurd (omega (arith, lt, length-slice f s len, le));
      })
  | inr short ↦
      let lt = leb-false dirsiz len short in
      rw short (record {
        bytes =
            ap (slice (update (memmove f name s len) (name + len) 0) name)
              {x = min dirsiz (length (slice f s len))} {y = len}
              (omega (arith, length-slice f s len, lt))
            ∙ slice-same (update (memmove f name s len) (name + len) 0) f name s len (λ j lt'.
              update_ne (memmove f name s len) (name + len) (name + j) 0
                (λ e. omega (arith, e, lt'))
              ∙ moved_byte len j lt')
            ∙ sym (take-all dirsiz (slice f s len) (omega (arith, length-slice f s len, lt)));
        ends = λ h.
            ap (update (memmove f name s len) (name + len) 0) {x = name + length (slice f s len)}
              {y = name + len} (omega (arith, length-slice f s len))
            ∙ update_self (memmove f name s len) (name + len) 0;
      })
]
  where
    moved_byte : (n j : ℕ) → j < n → memmove f name s n (name + j) ≡ f (s + j)
    moved_byte n j lt =
        memmove_lem f name s n (name + j)
        ∙ moved-in f name s n (name + j) (omega arith) (omega (arith, lt))
        ∙ ap f {x = s + (name + j - name)} {y = s + j} (omega arith)

-- What `skipelem` does to the path `l` at `path`, by its text without leading slashes: nothing, where
-- no element is left; otherwise `name` holds the first element, and the result points to what is
-- behind it and the slashes after it. Nothing is written outside `name`.
abbrev pub Skips : (ℕ → ℕ) → ℕ → List ℕ → Option ((ℕ → ℕ) × Option ℕ) → Type 0
Skips f name [] res = res ≡ some (f, none)
Skips f name (c ∷ l) res =
    (g : ℕ → ℕ) × (q : ℕ) × (res ≡ some (g, some q))
    × TextAt g q (drop_slashes (behind_elem (c ∷ l)))
    × HoldsName g name (first_elem (c ∷ l))
    × ((x : ℕ) → (name ≤ x → name + dirsiz ≤ x) → g x ≡ f x)

-- Let a path of less than `fuel` bytes lie apart from `name`. Then `skipelem` ends, and does what
-- `Skips` says.
pub skipelem-Skips :
    (fuel : ℕ) (f : ℕ → ℕ) (path name : ℕ) (l : List ℕ)
    → TextAt f path l
    → length l < fuel
    → (name + dirsiz ≤ path) ⊎ (path + length l < name)
    → Skips f name (drop_slashes l) (skipelem fuel f path name)
unfolding skipelem
skipelem-Skips fuel f path name l text enough apart =
    let (s, ran, stop) = skip_slashes-Stops fuel f path l text enough in
    go s (drop_slashes l) ran stop
  where
    go :
        (s : ℕ) (m : List ℕ)
        → skip_slashes fuel f path ≡ some s
        → Stops f path l s m
        → Skips f name m (skipelem fuel f path name)
    go s [] ran stop = rw (ran, stop.text) refl
    go s (c ∷ m) ran stop =
        let (here, ne, rest) = stop.text in
        let (e, ran1, stop1, elem) =
          scan_elem-Stops fuel f s (c ∷ m) stop.text
            (omega (arith, enough, stop.from, stop.passed)) in
        let g : ℕ → ℕ = copy_elem f s (e - s) name in
        let behind : TextAt g e (behind_elem (c ∷ m)) =
          TextAt-same f g e (behind_elem (c ∷ m))
            (λ j le. copy_elem-out f s (e - s) name (e + j) (elim apart [
              | inl below ↦ λ h. omega (arith, h, below, stop.from, stop1.from)
              | inr above ↦ λ h. omega (arith, h, above, le, stop.passed, stop1.passed)
            ]))
            stop1.text in
        let (q, ran2, stop2) =
          skip_slashes-Stops fuel g e (behind_elem (c ∷ m)) behind
            (omega (arith, enough, stop.from, stop.passed, stop1.from, stop1.passed)) in
        (
          g,
          q,
          rw (ran, here, ne→==_false c 0 ne, ran1, ran2) refl,
          stop2.text,
          subst (HoldsName g name) elem (copy_elem-HoldsName f s (e - s) name),
          λ x. copy_elem-out f s (e - s) name x,
        )
