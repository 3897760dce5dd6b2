-- ===== src/Spinlock/Tests.antt =====
-- Two CPUs and a lock, and the theorem at a state that they reach.
use os_ca.Common.{◌≡◌, refl, true, false, none, some}
use os_ca.Spinlock.{Cpu, pushcli, popcli, holding, acquire_start, xchg, set_holder, clear_holder}
use os_ca.Spinlock.Exclusion.{
  outside, spinning, taken, inside, World, go, starts, takes, enters, Reach, here, then_step,
  IsExclusive, Reach-IsExclusive,
}

abbrev idle_cpu : Cpu
idle_cpu = record { interrupts = true; ncli = 0; intena = false }

abbrev busy_cpu : Cpu
busy_cpu = record { interrupts = false; ncli = 1; intena = true }

abbrev start : World
start = record {
  lock = record { locked = false; cpu = 0 };
  place = λ c. outside;
  cpus = λ c. idle_cpu;
}

-- CPU 1 is inside, and CPU 2 in the loop of `acquire`.
abbrev one_started : World
one_started = go 1 spinning busy_cpu start.lock start

abbrev one_taken : World
one_taken = go 1 taken busy_cpu (xchg start.lock).1 one_started

abbrev two_started : World
two_started = go 2 spinning busy_cpu (xchg start.lock).1 one_taken

abbrev one_inside : World
one_inside = go 1 inside busy_cpu (set_holder 1 (xchg start.lock).1) two_started

acquire-starts : acquire_start 1 start.lock idle_cpu ≡ some busy_cpu
unfolding acquire_start holding popcli pushcli
acquire-starts = refl

-- An `acquire` of a lock that the CPU holds panics.
acquire-panics : acquire_start 1 (record { locked = true; cpu = 1 }) busy_cpu ≡ none
unfolding acquire_start holding popcli pushcli
acquire-panics = refl

clear-panics : clear_holder 2 (record { locked = true; cpu = 1 }) busy_cpu ≡ none
unfolding clear_holder holding popcli pushcli
clear-panics = refl

popcli-panics : popcli idle_cpu ≡ none
unfolding popcli
popcli-panics = refl

run_to_inside : Reach start one_inside
unfolding acquire_start holding popcli pushcli go xchg set_holder
run_to_inside =
    then_step
      (then_step (then_step (then_step here (starts 1 refl refl)) (takes 1 refl refl))
        (starts 2 refl refl))
      (enters 1 refl)

Reach-IsExclusive_example : IsExclusive one_inside
Reach-IsExclusive_example = Reach-IsExclusive start one_inside (λ c. refl) run_to_inside
