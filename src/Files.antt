-- ===== src/Files.antt =====
-- kernel/file.c's table of open files, and the descriptors of kernel/sysfile.c that refer to it.
-- A file is named by its index in `ftable.file`. Each function is one step: `ftable.lock` guards
-- the table, and only the process itself changes its `ofile`.
pub mod Table
pub mod Slots
pub mod Counts
pub mod Ends
pub mod Pipes
pub mod Calls
mod Tests
use Prim.Native.String.{String}
use xv6_riscv_zig.Prelude.{
  ℕ, zero, suc, ◌+◌, ◌-◌, Bool, true, false, ◌||◌, Option, none, some, List, [], ◌∷◌, ltb, leb,
  ◌==◌, if◌then◌else◌, get_elem?, set, get_or, Run, ok, panic, ◌>>=◌, ◌>>◌, panic_if,
}

-- kernel/param.h
abbrev pub nfile : ℕ
nfile = 100

abbrev pub nofile : ℕ
nofile = 16

pub data FileType : Type 0 where
  fd_none fd_pipe fd_inode fd_device : FileType

-- `struct file`; pipes and inodes are named by numbers.
pub record File : Type 0 where
  pub type : FileType
  pub ref : ℕ
  pub readable : Bool
  pub writable : Bool
  pub pipe : ℕ
  pub ip : ℕ
  pub off : ℕ
  pub major : ℕ

-- What `fileclose` calls after it has dropped the last reference
pub data Closing : Type 0 where
  pipeclose : (pipe : ℕ) (writable : Bool) → Closing
  iput : (ip : ℕ) → Closing

-- The table, the calling process's `ofile`, and the calls made by `fileclose`, the last one first
pub record Files : Type 0 where
  pub files : List File
  pub ofile : List (Option ℕ)
  pub closed : List Closing

-- `filealloc`: the first free entry, or `none` for the null pointer
pub filealloc : List File → List File × Option ℕ
filealloc [] = ([], none)
filealloc (f ∷ fs) =
    let (gs, found) = filealloc fs in
    if f.ref == 0
    then (record f { ref = 1 } ∷ fs, some 0)
    else (f ∷ gs, elim found [ none ↦ none | some k ↦ some (suc k) ])

pub filedup : ℕ → Files → Run Files
filedup k s = elim (get_elem? s.files k) [
  | none ↦ panic "filedup"
  | some f ↦ do
    panic_if (ltb f.ref 1) "filedup"
    ok (record s { files = set s.files k (record f { ref = f.ref + 1 }) })
]

-- The last part of `fileclose`, on the copy `ff`
pub finish_close : File → List Closing → List Closing
finish_close ff closed = elim ff.type [
  | fd_none ↦ closed
  | fd_pipe ↦ pipeclose ff.pipe ff.writable ∷ closed
  | fd_inode ↦ iput ff.ip ∷ closed
  | fd_device ↦ iput ff.ip ∷ closed
]

-- `fileclose` after its check, on the file `f` with index `k`
pub drop_ref : ℕ → File → Files → Files
unfolding finish_close
drop_ref k f s =
    if ltb 0 (f.ref - 1)
    then record s { files = set s.files k (record f { ref = f.ref - 1 }) }
    else record s {
      files = set s.files k (record f { ref = 0; type = fd_none });
      closed = finish_close f s.closed;
    }

pub fileclose : ℕ → Files → Run Files
unfolding drop_ref
fileclose k s = elim (get_elem? s.files k) [
  | none ↦ panic "fileclose"
  | some f ↦ do panic_if (ltb f.ref 1) "fileclose"; ok (drop_ref k f s)
]

-- `argfd`: the file behind descriptor `fd`, a bit pattern, so a negative one is a large number
pub argfd : ℕ → List (Option ℕ) → Option ℕ
argfd fd ofile = if leb nofile fd then none else get_or ofile fd none

-- `fdalloc`: the first free descriptor
pub fdalloc : ℕ → List (Option ℕ) → Option (ℕ × List (Option ℕ))
fdalloc k [] = none
fdalloc k (none ∷ ofile) = some (0, some k ∷ ofile)
fdalloc k (some j ∷ ofile) = elim (fdalloc k ofile) [
  | none ↦ none
  | some (fd, ofile') ↦ some (suc fd, some j ∷ ofile')
]

-- System calls return a descriptor or 0; `none` is -1.
pub sys_dup : ℕ → Files → Run (Files × Option ℕ)
unfolding argfd fdalloc filedup
sys_dup fd s = elim (argfd fd s.ofile) [
  | none ↦ ok (s, none)
  | some k ↦ elim (fdalloc k s.ofile) [
    | none ↦ ok (s, none)
    | some (fd', ofile') ↦ do s1 ← filedup k (record s { ofile = ofile' }); ok (s1, some fd')
  ]
]

pub sys_close : ℕ → Files → Run (Files × Option ℕ)
unfolding argfd fileclose
sys_close fd s = elim (argfd fd s.ofile) [
  | none ↦ ok (s, none)
  | some k ↦ do s1 ← fileclose k (record s { ofile = set s.ofile fd none }); ok (s1, some 0)
]

-- A descriptor for the new file `k`, whose fields `setup` writes; where there is none, the file is
-- closed.
pub place : (File → File) → ℕ → Files → Run (Files × Option ℕ)
unfolding fdalloc fileclose
place setup k s = elim (fdalloc k s.ofile) [
  | none ↦ do s1 ← fileclose k s; ok (s1, none)
  | some (fd, ofile') ↦ elim (get_elem? s.files k) [
    | none ↦ ok (s, none)
    | some f ↦ ok (record s { files = set s.files k (setup f); ofile = ofile' }, some fd)
  ]
]

-- The part of `sys_open` that gets a file and a descriptor for it
pub open_fd : (File → File) → Files → Run (Files × Option ℕ)
unfolding filealloc place
open_fd setup s =
    let (files', found) = filealloc s.files in
    let s1 : Files = record s { files = files' } in
    elim found [ none ↦ ok (s1, none) | some k ↦ place setup k s1 ]

-- What `sys_open` writes into the file of an inode, or of a device with number `major`
pub open_inode : ℕ → Bool → Bool → File → File
open_inode ip readable writable f = record f {
  type = fd_inode;
  off = 0;
  ip = ip;
  readable = readable;
  writable = writable;
}

pub open_device : ℕ → ℕ → Bool → Bool → File → File
open_device ip major readable writable f = record f {
  type = fd_device;
  major = major;
  ip = ip;
  readable = readable;
  writable = writable;
}

-- What `pipealloc` writes into the ends of the pipe in page `page`
pub read_end : ℕ → File → File
read_end page f = record f { type = fd_pipe; readable = true; writable = false; pipe = page }

pub write_end : ℕ → File → File
write_end page f = record f { type = fd_pipe; readable = false; writable = true; pipe = page }

pub setup_at : ℕ → (File → File) → List File → List File
setup_at k setup files = elim (get_elem? files k) [ none ↦ files | some f ↦ set files k (setup f) ]

-- Both ends of a pipe that could not be made are closed.
pub close_both : ℕ → ℕ → Files → Run Files
close_both k0 k1 s = do s1 ← fileclose k0 s; fileclose k1 s1

-- `pipealloc`, with what `kalloc` returns for the pipe: the files of its ends
pub pipe_files : ℕ → Files → Run (Files × Option (ℕ × ℕ))
unfolding filealloc close_both setup_at read_end write_end
pipe_files page s =
    let (files0, found0) = filealloc s.files in
    elim found0 [
      | none ↦ ok (record s { files = files0 }, none)
      | some k0 ↦
          let (files1, found1) = filealloc files0 in
          let s1 : Files = record s { files = files1 } in
          elim found1 [
            | none ↦ do s2 ← fileclose k0 s1; ok (s2, none)
            | some k1 ↦
                let made : Files = record s1 {
                  files = setup_at k1 (write_end page) (setup_at k0 (read_end page) files1);
                } in
                if page == 0
                then (do s2 ← close_both k0 k1 s1; ok (s2, none))
                else ok (made, some (k0, k1))
          ]
    ]

-- The part of `sys_pipe` behind `pipealloc`: `copied` tells whether both descriptors could be copied
-- out to the process.
pub pipe_fds : Bool → ℕ → ℕ → Files → Run (Files × Option ℕ)
unfolding fdalloc close_both
pipe_fds copied k0 k1 s = elim (fdalloc k0 s.ofile) [
  | none ↦ do s1 ← close_both k0 k1 s; ok (s1, none)
  | some (fd0, ofile0) ↦ elim (fdalloc k1 ofile0) [
    | none ↦ do s1 ← close_both k0 k1 (record s { ofile = set ofile0 fd0 none }); ok (s1, none)
    | some (fd1, ofile1) ↦
        let undone = do
          s1 ← close_both k0 k1 (record s { ofile = set (set ofile1 fd0 none) fd1 none })
          ok (s1, none)
        in if copied then ok (record s { ofile = ofile1 }, some 0) else undone
  ]
]

pub sys_pipe : ℕ → Bool → Files → Run (Files × Option ℕ)
unfolding pipe_files pipe_fds
sys_pipe page copied s = do
  (s1, ends) ← pipe_files page s
  elim ends [ none ↦ ok (s1, none) | some (k0, k1) ↦ pipe_fds copied k0 k1 s1 ]
