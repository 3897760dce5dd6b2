-- ===== src/Proc.antt =====
-- proc.c: the process table: the states of its slots, sleeping and waking, exit and wait. Each
-- critical section under `ptable.lock` is one step.
pub mod Zombies
pub mod Wait
pub mod Exit
pub mod Reach
mod Tests
use os_ca.Common.{
  ℕ, zero, suc, ◌+◌, Bool, true, false, ◌&&◌, ◌||◌, not, Option, none, some, ◌==◌, if◌then◌else◌,
  add32,
}

-- `enum procstate`, as C numbers it
abbrev pub unused : ℕ
unused = 0

abbrev pub embryo : ℕ
embryo = 1

abbrev pub sleeping : ℕ
sleeping = 2

abbrev pub runnable : ℕ
runnable = 3

abbrev pub running : ℕ
running = 4

abbrev pub zombie : ℕ
zombie = 5

-- The fields of `struct proc` that the functions here follow. `parent` and `chan` are addresses,
-- and 0 is the null pointer.
pub record Proc : Type 0 where
  pub state : ℕ
  pub pid : ℕ
  pub parent : ℕ
  pub chan : ℕ
  pub killed : Bool
  pub kstack : ℕ

-- The slots of `ptable.proc` by number, those from NPROC on are none.
abbrev pub Slots : Type 0
Slots = ℕ → Proc

pub record Ptable : Type 0 where
  pub proc : Slots
  pub nextpid : ℕ
  pub initproc : ℕ

-- NPROC
abbrev pub nproc : ℕ
nproc = 64

-- `&ptable.proc[i]`. No other address is among these.
abbrev pub proc_addr : ℕ → ℕ
proc_addr i = i + 1

unfoldable pub put_proc : ℕ → Proc → Slots → Slots
put_proc i p t j = if j == i then p else t j

-- one round of the loop of `wakeup1`; a round reads and writes its own slot alone
unfoldable pub wake : ℕ → Proc → Proc
wake chan p = if p.state == sleeping && p.chan == chan then record p { state = runnable } else p

unfoldable pub wakeup1 : ℕ → Slots → Slots
wakeup1 chan t i = wake chan (t i)

unfoldable pub wakeup : ℕ → Ptable → Ptable
wakeup chan t = record t { proc = wakeup1 chan t.proc }

-- The first half of `sleep`, up to the switch to the scheduler, and what is done behind it.
unfoldable pub fall_asleep : ℕ → ℕ → Slots → Slots
fall_asleep i chan t = put_proc i (record (t i) { chan = chan; state = sleeping }) t

unfoldable pub tidy_up : ℕ → Slots → Slots
tidy_up i t = put_proc i (record (t i) { chan = 0 }) t

unfoldable pub yield : ℕ → Slots → Slots
yield i t = put_proc i (record (t i) { state = runnable }) t

-- What `scheduler` does with slot `i` in its loop, before the switch; `none` where it goes on.
unfoldable pub pick : ℕ → Slots → Option Slots
pick i t =
    if (t i).state == runnable then some (put_proc i (record (t i) { state = running }) t) else none

-- The loop of `kill` in the `n` last slots from `i` on, with its result: is there such a process?
unfoldable pub kill_from : ℕ → ℕ → ℕ → Slots → Bool × Slots
kill_from zero i pid t = (false, t)
kill_from (suc n) i pid t =
    let rest = kill_from n (i + 1) pid t in
    let p = t i in
    if p.pid == pid
    then (
      true,
      put_proc i
          (record p { killed = true; state = if p.state == sleeping then runnable else p.state }) t,
    )
    else rest

unfoldable pub kill : ℕ → Slots → Bool × Slots
kill pid t = kill_from nproc 0 pid t

-- The loop of `exit` over the children.
unfoldable pub hand_over : ℕ → ℕ → ℕ → ℕ → Slots → Slots
hand_over zero i cur init t = t
hand_over (suc n) i cur init t =
    let moved = put_proc i (record (t i) { parent = proc_addr init }) t in
    hand_over n (i + 1) cur init (
      if (t i).parent == proc_addr cur
      then (if (t i).state == zombie then wakeup1 (proc_addr init) moved else moved)
      else t)

-- `exit` behind the closing of the files and of the directory: `none` is the panic of its start.
unfoldable pub exit : ℕ → Ptable → Option Ptable
exit cur t =
    let handed = hand_over nproc 0 cur t.initproc (wakeup1 (t.proc cur).parent t.proc) in
    if cur == t.initproc
    then none
    else some (record t { proc = put_proc cur (record (handed cur) { state = zombie }) handed })

-- What the scan of `wait` finds: a zombie child, or whether there are children.
pub data Scan : Type 0 where
  found : ℕ → Scan
  no_zombie : Bool → Scan

unfoldable pub scan : ℕ → ℕ → ℕ → Bool → Slots → Scan
scan zero i cur havekids t = no_zombie havekids
scan (suc n) i cur havekids t =
    let other = scan n (i + 1) cur havekids t in
    let child = scan n (i + 1) cur true t in
    if (t i).parent == proc_addr cur
    then (if (t i).state == zombie then found i else child)
    else other

-- The child's slot becomes free. Its stack and its page table go back to the page allocator.
unfoldable pub reap : ℕ → Slots → Slots
reap i t =
    put_proc i (record (t i) { kstack = 0; pid = 0; parent = 0; killed = false; state = unused }) t

-- One round of the `for (;;)` of `wait`: the child's pid, -1, or the slots as it sleeps on itself.
pub data Waited : Type 0 where
  reaped : ℕ → Slots → Waited
  failed : Waited
  asleep : Slots → Waited

unfoldable pub after_scan : Scan → ℕ → Slots → Waited
after_scan (found i) cur t = reaped (t i).pid (reap i t)
after_scan (no_zombie havekids) cur t =
    if not havekids || (t cur).killed then failed else asleep (fall_asleep cur (proc_addr cur) t)

unfoldable pub wait : ℕ → Slots → Waited
wait cur t = after_scan (scan nproc 0 cur false t) cur t

-- The search of `allocproc`.
unfoldable pub find_unused : ℕ → ℕ → Slots → Option ℕ
find_unused zero i t = none
find_unused (suc n) i t =
    let rest = find_unused n (i + 1) t in if (t i).state == unused then some i else rest

-- `allocproc` with the stack that `kalloc` gives, 0 if none: the new slot, if any. The trap frame
-- and the context are memory of the stack.
unfoldable pub take_slot : ℕ → Option ℕ → Ptable → Option ℕ × Ptable
take_slot kstack none t = (none, t)
take_slot kstack (some i) t =
    let p = record (t.proc i) { pid = t.nextpid; kstack = kstack } in
    let next = add32 t.nextpid 1 in
    if kstack == 0
    then (none, record t { proc = put_proc i (record p { state = unused }) t.proc; nextpid = next })
    else (
      some i,
      record t { proc = put_proc i (record p { state = embryo }) t.proc; nextpid = next },
    )

unfoldable pub allocproc : ℕ → Ptable → Option ℕ × Ptable
allocproc kstack t = take_slot kstack (find_unused nproc 0 t.proc) t

-- `fork` behind `allocproc`, with the page table that `copyuvm` gives, 0 if none.
unfoldable pub fill_slot : ℕ → ℕ → Option ℕ × Ptable → Option ℕ × Ptable
fill_slot cur pgdir (none, t) = (none, t)
fill_slot cur pgdir (some i, t) =
    let p = t.proc i in
    if pgdir == 0
    then (none, record t { proc = put_proc i (record p { kstack = 0; state = unused }) t.proc })
    else (
      some p.pid,
      record t { proc = put_proc i (record p { parent = proc_addr cur; state = runnable }) t.proc },
    )

unfoldable pub fork : ℕ → ℕ → ℕ → Ptable → Option ℕ × Ptable
fork cur kstack pgdir t = fill_slot cur pgdir (allocproc kstack t)
