-- ===== src/Proc/Tests.antt =====
-- Runs of the process table, and its theorems at concrete states.
use os_ca.Common.{◌≡◌, refl, arith, none, some, true, false, ◌==◌, if◌then◌else◌}
use os_ca.Proc.{
  Proc, Slots, Ptable, unused, sleeping, runnable, running, zombie, proc_addr, put_proc, wakeup,
  kill, kill_from, exit, wait, scan, after_scan, fork, hand_over, reap, wakeup1, wake, reaped,
  allocproc, take_slot, fill_slot, find_unused,
}
use os_ca.Proc.Zombies.{NoneOverlooked}
use os_ca.Proc.Reach.{Reach, Reach-NoneOverlooked, here, next, exits, wakes}
use os_ca.Proc.Wait.{Waits, wait-Waits}

abbrev free_slot : Proc
free_slot = record { state = unused; pid = 0; parent = 0; chan = 0; killed = false; kstack = 0 }

-- `init` sleeps in `wait`, its child in slot 1 runs, and a child of that is a zombie.
abbrev slots : Slots
slots i =
    if i == 0
    then record free_slot { state = sleeping; pid = 1; chan = proc_addr 0 }
    else if i == 1
    then record free_slot { state = running; pid = 2; parent = proc_addr 0 }
    else if i == 2
    then record free_slot { state = zombie; pid = 3; parent = proc_addr 1 }
    else free_slot

abbrev table : Ptable
table = record { proc = slots; nextpid = 4; initproc = 0 }

slots-NoneOverlooked : NoneOverlooked table.proc
slots-NoneOverlooked = record {
  heard = λ i j z p s e. ground arith;
  beyond = λ i l z. ground arith;
}

forks-into-slot_3 : (fork 1 4096 8192 table).0 ≡ some 4
unfolding fork allocproc take_slot fill_slot find_unused put_proc
forks-into-slot_3 = refl

no_stack : (fork 1 0 8192 table).0 ≡ none
unfolding fork allocproc take_slot fill_slot find_unused put_proc
no_stack = refl

kills-pid_3 : (kill 3 slots).0 ≡ true
unfolding kill kill_from
kills-pid_3 = refl

kills-nobody : (kill 9 slots).0 ≡ false
unfolding kill kill_from
kills-nobody = refl

collects-pid_3 : wait 1 slots ≡ reaped 3 (reap 2 slots)
unfolding wait scan after_scan
collects-pid_3 = refl

abbrev after_exit : Ptable
after_exit = elim (exit 1 table) [ some t ↦ t | none ↦ table ]

one-exit : Reach table (wakeup 9 after_exit)
unfolding exit
one-exit = next (next here (exits 1 (omega arith) (omega arith) refl)) (wakes 9)

Reach-NoneOverlooked_example : NoneOverlooked (wakeup 9 after_exit).proc
Reach-NoneOverlooked_example = Reach-NoneOverlooked slots-NoneOverlooked one-exit

init-awake : ((after_exit.proc 0).state ≡ runnable) × ((after_exit.proc 2).parent ≡ proc_addr 0)
unfolding exit hand_over put_proc wakeup1 wake
init-awake = (refl, refl)

wait-Waits_example : Waits 1 slots (wait 1 slots)
wait-Waits_example = wait-Waits 1 slots
