-- ===== src/Content/Durable.antt =====
-- `writei` and the log: src/kernel/log.c and src/kernel/fs.c together.
use xv6_riscv_zig.Prelude.{
  ℕ, ◌+◌, ◌≤◌, ◌<◌, ◌≡◌, refl, ◌∙◌, Bool, false, ◌||◌, Option, List, [], ◌∷◌, length, arith, ok,
  sym,
}
use xv6_riscv_zig.Log.{Log, logsize}
use xv6_riscv_zig.Log.Crash.{logged}
use xv6_riscv_zig.Log.Calls.{log_calls, called, log_calls_fit}
use xv6_riscv_zig.Pipe.{UserMem}
use xv6_riscv_zig.Blocks.{Superblock, Dinode, Disk}
use xv6_riscv_zig.Blocks.Logging.{listed, Same, Logs}
use xv6_riscv_zig.Content.{writei}
use xv6_riscv_zig.Content.Reading.{AllPresent}
use xv6_riscv_zig.Content.Logging.{writei-Logs}

called-listed : (b : ℕ) (bs : List ℕ) → called b bs ≡ false → listed b bs ≡ false
called-listed b [] h = refl
called-listed b (c ∷ bs) h = let rest = called-listed b bs (ground arith) in ground arith

-- In `t`, each block that is not the same in `d` and `d'` is logged.
abbrev pub AllLogged : Disk → Disk → Log → Type 0
AllLogged d d' t = (b : ℕ) → logged t.block t.n 0 b ≡ false → Same b d d'

Logs-AllLogged :
    (d d' : Disk) (l : Log)
    → Logs d d'
    → 0 < l.outstanding
    → l.n + length d'.logged ≤ logsize
    → l.n + length d'.logged < l.size
    → (t : Log) × (log_calls d'.logged l ≡ ok t) × AllLogged d d' t
Logs-AllLogged d d' l logs running room fits =
    let (t, ran, _, _, _, set) = log_calls_fit d'.logged l running room fits in
    (
      t,
      ran,
      λ b none. logs.kept b (
          called-listed b d'.logged
            (off (called b d'.logged) (logged l.block l.n 0 b) (sym (set b) ∙ none))),
    )
  where
    off : (x y : Bool) → (x || y) ≡ false → x ≡ false
    off x y h = ground arith

-- Let the caller's memory be there, `writei` return, and the calls of `log_write` recorded on its disk
-- be made inside a transaction whose log has room for as many blocks. Then none of them panics, and in
-- the log behind them each block that `writei` changed is logged, so that the commit writes it.
pub writei-AllLogged :
    (sb : Superblock) (inum : ℕ) (ip : Dinode) (d : Disk) (u : UserMem) (src off n : ℕ)
    (ip' : Dinode) (d' : Disk) (r : Option ℕ) (l : Log)
    → AllPresent u
    → writei sb inum ip d u src off n ≡ ok (ip', d', r)
    → 0 < l.outstanding
    → l.n + length d'.logged ≤ logsize
    → l.n + length d'.logged < l.size
    → (t : Log) × (log_calls d'.logged l ≡ ok t) × AllLogged d d' t
writei-AllLogged sb inum ip d u src off n ip' d' r l there ran running room fits =
    Logs-AllLogged d d' l (writei-Logs sb inum ip d u src off n (ip', d', r) there ran) running room
      fits
