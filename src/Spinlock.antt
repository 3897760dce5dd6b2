-- ===== src/Spinlock.antt =====
-- spinlock.c: a lock that a CPU spins on, and the nesting of `pushcli` and `popcli`. CPUs are named by
-- their addresses; the record of the callers, for debugging, is left out.
pub mod Exclusion
pub mod Nesting
mod Tests
use os_ca.Common.{
  ℕ, Bool, true, false, ◌&&◌, Option, none, some, ◌>>=◌, ◌==◌, if◌then◌else◌, add32, sub32, slt,
}

-- FL_IF of a CPU, and of `struct cpu` its `ncli` and `intena`.
pub record Cpu : Type 0 where
  pub interrupts : Bool
  pub ncli : ℕ
  pub intena : Bool

unfoldable pub pushcli : Cpu → Cpu
pushcli c = record {
  interrupts = false;
  ncli = add32 c.ncli 1;
  intena = if c.ncli == 0 then c.interrupts else c.intena;
}

-- `none` is a panic.
unfoldable pub popcli : Cpu → Option Cpu
popcli c =
    let left = sub32 c.ncli 1 in
    if c.interrupts
    then none
    else if slt left 0
    then none
    else if left == 0 && c.intena
    then some (record c { ncli = left; interrupts = true })
    else some (record c { ncli = left })

-- `struct spinlock`
pub record Spinlock : Type 0 where
  pub locked : Bool
  pub cpu : ℕ

-- `holding`, on the CPU `me`
unfoldable pub holding : ℕ → Spinlock → Cpu → Option (Bool × Cpu)
holding me lk c = popcli (pushcli c) >>= λ (c' : Cpu). some (lk.locked && lk.cpu == me, c')

-- `acquire` up to the loop.
unfoldable pub acquire_start : ℕ → Spinlock → Cpu → Option Cpu
acquire_start me lk c =
    holding me lk (pushcli c) >>= λ (q : Bool × Cpu). if q.0 then none else some q.1

-- `xchg(&lk->locked, 1)`: the old value, and the lock.
unfoldable pub xchg : Spinlock → Bool × Spinlock
xchg lk = (lk.locked, record lk { locked = true })

-- `acquire` behind the loop.
unfoldable pub set_holder : ℕ → Spinlock → Spinlock
set_holder me lk = record lk { cpu = me }

-- `release` up to the `movl`, and the `movl`.
unfoldable pub clear_holder : ℕ → Spinlock → Cpu → Option (Spinlock × Cpu)
clear_holder me lk c =
    holding me lk c >>= λ (q : Bool × Cpu). if q.0 then some (record lk { cpu = 0 }, q.1) else none

unfoldable pub unlock : Spinlock → Spinlock
unlock lk = record lk { locked = false }
