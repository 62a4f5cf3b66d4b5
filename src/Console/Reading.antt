-- ===== src/Console/Reading.antt =====
-- What `consoleread` delivers of the lines that are complete.
use xv6_riscv_zig.Prelude.{
  ℕ, zero, suc, ◌+◌, ◌-◌, ◌≤◌, ◌≡◌, ◌≢◌, refl, ap, ◌∙◌, sym, subst, subst₂, Bool, true, false, [],
  ◌∷◌, arith, slice, update, Bool-cases, lt→ltb, le→ltb_false, ==_iff, ◌==◌, not, ltb, inl, inr,
}
use xv6_riscv_zig.Console.{
  Console, Reader, ReadEnd, returned, refused, sleeps, sub32, next32, line_loop, consoleread,
  ctrl_d,
}
use xv6_riscv_zig.Console.Ring.{cell, IsConsole, slice-wrap}
use xv6_riscv_zig.Console.View.{view}
use xv6_riscv_zig.Console.Delivery.{Delivery, deliver_one, deliver, EndsAs}

took-IsConsole : (s : Console) → IsConsole s → s.r ≢ s.w → IsConsole (record s { r = next32 s.r })
took-IsConsole s ok ne = record {
  r_lt = omega arith;
  w_lt = ok.w_lt;
  e_lt = ok.e_lt;
  order = omega (arith, ok.r_lt, ok.w_lt, ok.e_lt, ok.order, ok.fits, ne);
  fits = omega (arith, ok.r_lt, ok.w_lt, ok.e_lt, ok.order, ok.fits, ne);
  one_line = ok.one_line;
}

took-ready :
    (s : Console)
    → IsConsole s
    → s.r ≢ s.w
    → (view s).ready ≡ cell s.buf s.r ∷ (view (record s { r = next32 s.r })).ready
took-ready s ok ne =
    ap (slice (cell s.buf) s.r) {x = sub32 s.w s.r} {y = suc (sub32 s.w (next32 s.r))}
      (omega (arith, ok.r_lt, ok.w_lt, ne))
    ∙ ap (λ l. cell s.buf s.r ∷ l) (sym (slice-wrap s.buf (s.r + 1) (sub32 s.w (next32 s.r))))

took-none : (s : Console) → IsConsole s → s.r ≡ s.w → (view s).ready ≡ []
took-none s ok same =
    ap (slice (cell s.buf) s.r) {x = sub32 s.w s.r} {y = 0} (omega (arith, same, ok.w_lt))

-- Where `c` was stored and the rest as `d` says, all was delivered.
EndsAs-deliver_one :
    (s : Console) (u : Reader) (dead : Bool) (dst got n c : ℕ) (d : Delivery) (end : ReadEnd)
    → EndsAs
        (record s { r = next32 s.r })
        (record u { byte = update u.byte dst c })
        dead
        (dst + 1)
        (got + 1)
        n
        d
        end
    → EndsAs s u dead dst got (suc n) (deliver_one c d) end
EndsAs-deliver_one s u dead dst got n c d (returned s' u' k) (all, a, e) = (
  all,
  record { is_console = a.is_console; ready = a.ready; line = a.line; byte = a.byte },
  omega (arith, e),
)
EndsAs-deliver_one s u dead dst got n c d (refused s' u') (all, a, e) =
    (all, record { is_console = a.is_console; ready = a.ready; line = a.line; byte = a.byte }, e)
EndsAs-deliver_one s u dead dst got n c d (sleeps s' u' dst' n') (all, a, e, at, left) = (
  all,
  record { is_console = a.is_console; ready = a.ready; line = a.line; byte = a.byte },
  e,
  omega (arith, at),
  omega (arith, left),
)

line_loop-EndsAs :
    (dead : Bool) (target dst n : ℕ) (s : Console) (u : Reader)
    → IsConsole s
    → ((q : ℕ) → u.present q ≡ true)
    → n ≤ target
    → EndsAs s u dead dst
        (target - n)
        n
        (deliver (not (ltb n target)) n (view s).ready)
        (line_loop dead target dst n s u)
unfolding line_loop
line_loop-EndsAs dead target dst zero s u ok there le =
    (refl, record { is_console = ok; ready = refl; line = refl; byte = refl }, omega arith)
line_loop-EndsAs dead target dst (suc n) s u ok there le = elim (Bool-cases (s.r == s.w)) [
  | inl empty ↦
      subst
        (λ l.
          EndsAs s u dead dst (target - suc n) (suc n)
            (deliver (not (ltb (suc n) target)) (suc n) l) (line_loop dead target dst (suc n) s u))
        (sym (took-none s ok ((==_iff s.r s.w).0 empty))) (waits empty)
  | inr some_left ↦
      let ne : s.r ≢ s.w = λ same. cc ((==_iff s.r s.w).1 same, some_left) in
      subst
        (λ l.
          EndsAs s u dead dst (target - suc n) (suc n)
            (deliver (not (ltb (suc n) target)) (suc n) l) (line_loop dead target dst (suc n) s u))
        (sym (took-ready s ok ne))
        (takes some_left ne (
          line_loop-EndsAs dead target (dst + 1) n (record s { r = next32 s.r })
            (record u { byte = update u.byte dst (cell s.buf s.r) }) (took-IsConsole s ok ne) there
            (omega (arith, le))))
]
  where
    c : ℕ
    c = cell s.buf s.r

    u1 : Reader
    u1 = record u { byte = update u.byte dst c }

    s1 : Console
    s1 = record s { r = next32 s.r }

    waits :
        (s.r == s.w) ≡ true
        → EndsAs s u dead dst
            (target - suc n)
            (suc n)
            (deliver (not (ltb (suc n) target)) (suc n) [])
            (line_loop dead target dst (suc n) s u)
    waits empty = elim (Bool-cases dead) [
      | inl dies ↦
          rw (empty, dies)
            (
              refl,
              record {
                is_console = ok;
                ready = took-none s ok ((==_iff s.r s.w).0 empty);
                line = refl;
                byte = refl;
              },
              refl,
            )
      | inr lives ↦
          rw (empty, lives)
            (
              refl,
              record {
                is_console = ok;
                ready = took-none s ok ((==_iff s.r s.w).0 empty);
                line = refl;
                byte = refl;
              },
              refl,
              omega arith,
              omega arith,
            )
    ]

    back : sub32 (next32 s.r) 1 ≡ s.r
    back = omega (arith, ok.r_lt)

    put_back : IsConsole (record s1 { r = sub32 (next32 s.r) 1 })
    put_back = record {
      r_lt = omega arith;
      w_lt = ok.w_lt;
      e_lt = ok.e_lt;
      order = omega (arith, back, ok.order);
      fits = omega (arith, back, ok.fits);
      one_line = ok.one_line;
    }

    put_back-ready :
        s.r ≢ s.w
        → slice (cell s.buf) (sub32 (next32 s.r) 1) (sub32 s.w (sub32 (next32 s.r) 1))
          ≡ c ∷ (view s1).ready
    put_back-ready ne = (λ i. slice (cell s.buf) (back i) (sub32 s.w (back i))) ∙ took-ready s ok ne

    takes :
        (s.r == s.w) ≡ false
        → s.r ≢ s.w
        → EndsAs s1 u1 dead
            (dst + 1)
            (target - n)
            n
            (deliver (not (ltb n target)) n (view s1).ready)
            (line_loop dead target (dst + 1) n s1 u1)
        → EndsAs s u dead dst
            (target - suc n)
            (suc n)
            (deliver (not (ltb (suc n) target)) (suc n) (c ∷ (view s1).ready))
            (line_loop dead target dst (suc n) s u)
    takes some_left ne ih = elim (Bool-cases (c == ctrl_d)) [
      | inl d ↦ elim (Bool-cases (ltb (suc n) target)) [
        | inl later ↦
            rw (some_left, d, later)
              (
                refl,
                record {
                  is_console = put_back;
                  ready = put_back-ready ne;
                  line = refl;
                  byte = refl;
                },
                omega arith,
              )
        | inr first ↦
            rw (some_left, d, first)
              (
                refl,
                record {
                  is_console = took-IsConsole s ok ne;
                  ready = refl;
                  line = refl;
                  byte = refl;
                },
                omega arith,
              )
      ]
      | inr other ↦ elim (Bool-cases (c == 10)) [
        | inl newline ↦
            rw (some_left, other, there dst, newline)
              (
                refl,
                record {
                  is_console = took-IsConsole s ok ne;
                  ready = refl;
                  line = refl;
                  byte = refl;
                },
                omega (arith, le),
              )
        | inr more ↦
            rw (some_left, other, there dst, more)
              (EndsAs-deliver_one s u dead dst (target - suc n) n c
                (deliver false n (view s1).ready) (line_loop dead target (dst + 1) n s1 u1)
                (subst₂
                  (λ got first.
                    EndsAs s1 u1 dead (dst + 1) got n (deliver first n (view s1).ready)
                      (line_loop dead target (dst + 1) n s1 u1))
                  (omega (arith, le)) (ap not (lt→ltb n target (omega (arith, le)))) ih))
      ]
    ]

-- In a well-formed console, and into memory that is all there, a run of `consoleread` stores at
-- `dst` what `deliver` takes of the complete lines: at most `n` bytes, through the first newline or
-- up to a control-D. It returns their number where these are `n` bytes or such an end has come, and
-- otherwise sleeps with the rest of `dst` and `n`, or returns -1 where the process was killed. The
-- other text stays, with the line that is edited, in a well-formed console.
pub consoleread-EndsAs :
    (dead : Bool) (dst n : ℕ) (s : Console) (u : Reader)
    → IsConsole s
    → ((q : ℕ) → u.present q ≡ true)
    → EndsAs s u dead dst 0 n (deliver true n (view s).ready) (consoleread dead dst n s u)
unfolding consoleread
consoleread-EndsAs dead dst n s u ok there =
    subst₂
      (λ got first.
        EndsAs s u dead dst got n (deliver first n (view s).ready) (line_loop dead n dst n s u))
      (omega arith) (ap not (le→ltb_false n n (omega arith)))
      (line_loop-EndsAs dead n dst n s u ok there (omega arith))
