-- ===== src/Files/Tests.antt =====
-- Runs of calls on a small table of files.
use xv6_riscv_zig.Prelude.{
  ℕ, zero, suc, ◌+◌, ◌≡◌, ◌≢◌, refl, true, false, none, some, List, [], ◌∷◌, ok, arith, get_elem?,
  ◌==◌, if◌then◌else◌,
}
use xv6_riscv_zig.Files.{
  File, Files, fd_none, fd_pipe, pipeclose, fileclose, finish_close, drop_ref, sys_close, argfd,
}
use xv6_riscv_zig.Files.Table.{ref_of, hit, Closes, fileclose_lem}
use xv6_riscv_zig.Files.Counts.{Counted}
use xv6_riscv_zig.Files.Calls.{Call, dups, closes, opens, pipes, run, calls-Counted}

abbrev unused : File
unused = record {
  type = fd_none;
  ref = 0;
  readable = false;
  writable = false;
  pipe = 0;
  ip = 0;
  off = 0;
  major = 0;
}

-- Descriptor 1 is the write end of pipe 9, which another process has too.
abbrev start : Files
start = record {
  files =
      unused
      ∷ record unused { type = fd_pipe; ref = 2; writable = true; pipe = 9 }
      ∷ unused
      ∷ unused
      ∷ [];
  ofile = none ∷ some 1 ∷ none ∷ none ∷ [];
  closed = [];
}

abbrev elsewhere : ℕ → ℕ
elsewhere j = if j == 1 then 1 else 0

start-Counted : Counted elsewhere start
start-Counted zero = refl
start-Counted (suc zero) = refl
start-Counted (suc (suc zero)) = refl
start-Counted (suc (suc (suc zero))) = refl
start-Counted (suc (suc (suc (suc j)))) = ground arith

abbrev sequence : List Call
sequence = dups 1 ∷ pipes 7 true ∷ closes 1 ∷ opens 3 true false ∷ closes 5 ∷ []

calls-Counted_example : (t : Files) × (run sequence start ≡ ok t) × Counted elsewhere t
calls-Counted_example = calls-Counted elsewhere sequence start start-Counted

fileclose_lem_example :
    (t : Files) × (fileclose 1 start ≡ ok t)
    × (t.ofile ≡ start.ofile)
    × ((j : ℕ) → ref_of t.files j + hit (some 1) j ≡ ref_of start.files j)
    × ((f : File)
        → get_elem? start.files 1 ≡ some f
        → (f.ref ≢ 1 → t.closed ≡ start.closed) × (f.ref ≡ 1 → Closes f start.closed t.closed))
fileclose_lem_example = fileclose_lem 1 start (omega arith)

-- The last reference to a pipe's end closes it.
last_close :
    (sys_close 0 (record start {
      files = record unused { type = fd_pipe; ref = 1; pipe = 9 } ∷ [];
      ofile = some 0 ∷ [];
    }))
    ≡ ok (
      record start {
        files = record unused { pipe = 9 } ∷ [];
        ofile = none ∷ [];
        closed = pipeclose 9 false ∷ [];
      },
      some 0,
    )
unfolding sys_close argfd fileclose drop_ref finish_close
last_close = refl
