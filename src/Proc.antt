-- ===== src/Proc.antt =====
-- kernel/proc.c: the process table. Each function is the part that runs with the locks of the
-- processes it changes held, so it is one step of the table. A process is named by its index in
-- the table; `me` is the caller's.
pub mod Pids
pub mod Wake
pub mod Steps
pub mod Child
mod Tests
use Prim.Native.String.{String}
use mathlib.Core.Option
use xv6_riscv_zig.Prelude.{
  ℕ, zero, suc, ◌+◌, ◌-◌, ◌%◌, ◌^◌, Bool, true, false, ◌&&◌, ◌||◌, not, Option, none, some, List,
  [], ◌∷◌, length, get_elem?, set, replicate, ltb, ◌==◌, if◌then◌else◌, Run, ok, panic, ◌>>=◌, ◌>>◌,
  panic_if,
}

-- kernel/param.h
abbrev pub nproc : ℕ
nproc = 64

abbrev pub nofile : ℕ
nofile = 16

-- `enum procstate`
pub data ProcState : Type 0 where
  unused used sleeping runnable running zombie : ProcState

-- What a process sleeps on: nothing, (the address of) a process, or another address.
pub data Chan : Type 0 where
  no_chan : Chan
  process : ℕ → Chan
  address : ℕ → Chan

-- `struct proc`, less its lock, kernel stack and saved registers. Pages, files and directories are
-- named by numbers, 0 for the null pointer.
pub record Proc : Type 0 where
  pub state : ProcState
  pub chan : Chan
  pub killed : Bool
  pub xstate : ℕ
  pub pid : ℕ
  pub parent : Option ℕ
  pub sz : ℕ
  pub pagetable : ℕ
  pub trapframe : ℕ
  pub ofile : List ℕ
  pub cwd : ℕ
  pub name : List ℕ
  pub owned_ringbufs : ℕ

-- The table, `nextpid` (the bits of an `int`, which wrap where it overflows), and the pages and page
-- tables that were given back.
pub record Table : Type 0 where
  pub procs : List Proc
  pub nextpid : ℕ
  pub freed : List ℕ

abbrev pub is_unused : ProcState → Bool
is_unused unused = true
is_unused _ = false

abbrev pub is_sleeping : ProcState → Bool
is_sleeping sleeping = true
is_sleeping _ = false

abbrev pub is_runnable : ProcState → Bool
is_runnable runnable = true
is_runnable _ = false

abbrev pub is_running : ProcState → Bool
is_running running = true
is_running _ = false

abbrev pub is_zombie : ProcState → Bool
is_zombie zombie = true
is_zombie _ = false

abbrev pub same_chan : Chan → Chan → Bool
same_chan no_chan no_chan = true
same_chan (process i) (process j) = i == j
same_chan (address a) (address b) = a == b
same_chan _ _ = false

-- Is this the process with index `i`?
abbrev pub is_proc : Option ℕ → ℕ → Bool
is_proc none i = false
is_proc (some j) i = i == j

-- The entry of a static, zeroed table
abbrev pub no_proc : Proc
no_proc = record {
  state = unused;
  chan = no_chan;
  killed = false;
  xstate = 0;
  pid = 0;
  parent = none;
  sz = 0;
  pagetable = 0;
  trapframe = 0;
  ofile = replicate nofile 0;
  cwd = 0;
  name = [];
  owned_ringbufs = 0;
}

-- `x + y` on 32 bits
abbrev pub add32 : ℕ → ℕ → ℕ
add32 x y = (x + y) % 2 ^ 32

-- `procinit` (which also initialises the locks), and `nextpid`'s initial value
pub procinit : Table
procinit = record { procs = replicate nproc no_proc; nextpid = 1; freed = [] }

-- `f` applied to the process with index `i`
pub modify : List Proc → ℕ → (Proc → Proc) → List Proc
modify [] i f = []
modify (p ∷ ps) zero f = f p ∷ ps
modify (p ∷ ps) (suc i) f = p ∷ modify ps i f

-- One round of `wakeup(chan)`, called by process `me` (`none` on a CPU with no process)
pub wake : Chan → Option ℕ → ℕ → Proc → Proc
wake chan me i p =
    if not (is_proc me i) && (is_sleeping p.state && same_chan p.chan chan)
    then record p { state = runnable }
    else p

pub wakeup_from : Chan → Option ℕ → ℕ → List Proc → List Proc
wakeup_from chan me i [] = []
wakeup_from chan me i (p ∷ ps) = wake chan me i p ∷ wakeup_from chan me (i + 1) ps

pub wakeup : Chan → Option ℕ → List Proc → List Proc
wakeup chan me ps = wakeup_from chan me 0 ps

-- What `kill` does to its victim
pub kill_one : Proc → Proc
kill_one p =
    if is_sleeping p.state
    then record p { killed = true; state = runnable }
    else record p { killed = true }

-- `none` is the return of -1.
pub kill : ℕ → List Proc → Option (List Proc)
kill pid [] = none
kill pid (p ∷ ps) =
    let rest = Option.map (λ qs. p ∷ qs) (kill pid ps) in
    if p.pid == pid then some (kill_one p ∷ ps) else rest

-- `freeproc`: the cleared entry, and what it gives back. (`ringbuf_disown_all` is of ringbuf.zig.)
pub free_entry : Proc → Proc
free_entry p = record p {
  trapframe = 0;
  pagetable = 0;
  sz = 0;
  owned_ringbufs = 0;
  pid = 0;
  parent = none;
  name = [];
  chan = no_chan;
  killed = false;
  xstate = 0;
  state = unused;
}

pub free_pages : Proc → List ℕ → List ℕ
free_pages p freed =
    let rest : List ℕ = if p.trapframe == 0 then freed else p.trapframe ∷ freed in
    if p.pagetable == 0 then rest else p.pagetable ∷ rest

pub freeproc : ℕ → Proc → Table → Table
freeproc i p t = record t { procs = set t.procs i (free_entry p); freed = free_pages p t.freed }

-- The search loop of `allocproc`
pub find_unused : List Proc → Option ℕ
find_unused [] = none
find_unused (p ∷ ps) =
    let rest = Option.map suc (find_unused ps) in if is_unused p.state then some 0 else rest

-- `found:` of `allocproc`, at the unused entry `i`. `page` is what `kalloc` returns for the
-- trapframe and `table` what `proc_pagetable` returns, 0 where they fail.
pub init_proc : ℕ → ℕ → ℕ → Proc → Table → Table × Bool
init_proc page table i p t =
    let p1 : Proc = record p { pid = t.nextpid; state = used } in
    let t1 : Table = record t { nextpid = add32 t.nextpid 1 } in
    let p2 : Proc = record p1 { trapframe = page } in
    let p3 : Proc = record p2 { pagetable = table } in
    if page == 0
    then (freeproc i p2 t1, false)
    else (if table == 0
        then (freeproc i p3 t1, false)
        else (record t1 { procs = set t1.procs i p3 }, true))

-- The new process's index, or `none` for the null pointer
pub allocproc : ℕ → ℕ → Table → Table × Option ℕ
allocproc page table t = elim (find_unused t.procs) [
  | none ↦ (t, none)
  | some i ↦ elim (get_elem? t.procs i) [
    | none ↦ (t, none)
    | some p ↦ let (t1, done) = init_proc page table i p t in (t1, if done then some i else none)
  ]
]

-- What the child of `p` gets from it. (`filedup` and `idup` count the new references.)
pub copy_proc : Proc → Proc → Proc
copy_proc p np = record np { sz = p.sz; ofile = p.ofile; cwd = p.cwd; name = p.name }

-- `fork` by process `me`, whose entry is `p`. `copied` tells whether `uvmcopy` succeeds. The
-- result is the child's pid, or `none` for -1.
pub fork : ℕ → Proc → ℕ → ℕ → Bool → Table → Table × Option ℕ
fork me p page table copied t =
    let (t1, found) = allocproc page table t in
    elim found [
      | none ↦ (t1, none)
      | some i ↦ elim (get_elem? t1.procs i) [
        | none ↦ (t1, none)
        | some np ↦
            let np1 = copy_proc p np in
            let np2 : Proc = record np1 { parent = some me; state = runnable } in
            if copied
            then (record t1 { procs = set t1.procs i np2 }, some np.pid)
            else (freeproc i np t1, none)
      ]
    ]

-- One round of `reparent`, called by process `me`
pub reparent_one : ℕ → ℕ → ℕ → List Proc → List Proc
reparent_one me initproc i ps = elim (get_elem? ps i) [
  | none ↦ ps
  | some p ↦
      if is_proc p.parent me
      then wakeup (process initproc) (some me) (set ps i (record p { parent = some initproc }))
      else ps
]

pub reparent_loop : ℕ → ℕ → ℕ → ℕ → List Proc → List Proc
reparent_loop me initproc zero i ps = ps
reparent_loop me initproc (suc k) i ps =
    reparent_loop me initproc k (i + 1) (reparent_one me initproc i ps)

pub reparent : ℕ → ℕ → List Proc → List Proc
reparent me initproc ps = reparent_loop me initproc (length ps) 0 ps

-- What `exit` changes in its own entry: the files and the directory are closed before the locks
-- are taken, the rest after.
pub close_all : Proc → Proc
close_all p = record p { ofile = replicate nofile 0; cwd = 0 }

pub end_proc : ℕ → Proc → Proc
end_proc status p = record p { xstate = status; state = zombie }

-- The channel of `wakeup(p->parent)`
abbrev pub parent_chan : Option ℕ → Chan
parent_chan none = no_chan
parent_chan (some i) = process i

abbrev pub parent_of : Option Proc → Option ℕ
parent_of none = none
parent_of (some p) = p.parent

-- The table after `exit(status)` by process `me`, up to `sched()`
pub exit_table : ℕ → ℕ → ℕ → List Proc → List Proc
exit_table me initproc status ps =
    let ps1 = reparent me initproc (modify ps me close_all) in
    let ps2 = wakeup (parent_chan (parent_of (get_elem? ps1 me))) (some me) ps1 in
    modify ps2 me (end_proc status)

pub exit : ℕ → ℕ → ℕ → List Proc → Run (List Proc)
exit me initproc status ps = do
  panic_if (me == initproc) "init exiting"
  ok (exit_table me initproc status ps)

-- The scan of `wait`: the first child that is a zombie, or whether there is a child at all
pub data Scan : Type 0 where
  exited : ℕ → Scan
  none_yet : (havekids : Bool) → Scan

pub scan : ℕ → ℕ → Bool → List Proc → Scan
scan me i kids [] = none_yet kids
scan me i kids (p ∷ ps) =
    let child = is_proc p.parent me in
    let rest = scan me (i + 1) (kids || child) ps in
    if child && is_zombie p.state then exited i else rest

pub data Waited : Type 0 where
  reaped : ℕ → Waited
  failed : Waited
  asleep : Waited

-- What `wait` does with the zombie child `i`: `copied` tells whether `copyout` of its exit status
-- succeeds.
pub reap : ℕ → ℕ → Bool → Table → Table × Waited
reap i addr copied t = elim (get_elem? t.procs i) [
  | none ↦ (t, failed)
  | some p ↦ if not (addr == 0) && not copied then (t, failed) else (freeproc i p t, reaped p.pid)
]

pub finish_wait : ℕ → Bool → Bool → Table → Scan → Table × Waited
finish_wait addr killed copied t (exited i) = reap i addr copied t
finish_wait addr killed copied t (none_yet kids) =
    if not kids || killed then (t, failed) else (t, asleep)

-- One round of the loop of `wait(addr)` by process `me`: `killed` is what `killed(p)` returns. At
-- `asleep` it sleeps on itself and tries again when it wakes.
pub wait : ℕ → ℕ → Bool → Bool → Table → Table × Waited
wait me addr killed copied t = finish_wait addr killed copied t (scan me 0 false t.procs)

-- `scheduler` takes a runnable process, `yield` gives the CPU up, `sleep` waits on `chan`, and
-- `sleep` tidies up when the process runs again. `sched` panics on a process still running.
pub pick : Proc → Proc
pick p = if is_runnable p.state then record p { state = running } else p

pub sched : Proc → Run Proc
sched p = do panic_if (is_running p.state) "sched running"; ok p

pub yield_proc : Proc → Run Proc
yield_proc p = sched (record p { state = runnable })

pub sleep_on : Chan → Proc → Run Proc
sleep_on chan p = sched (record p { chan = chan; state = sleeping })

pub slept : Proc → Proc
slept p = record p { chan = no_chan }

pub setkilled : Proc → Proc
setkilled p = record p { killed = true }
