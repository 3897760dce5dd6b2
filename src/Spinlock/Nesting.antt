-- ===== src/Spinlock/Nesting.antt =====
-- `popcli` undoes `pushcli`.
use os_ca.Common.{◌<◌, ◌≡◌, refl, false, Bool-cases, inl, inr, some, ◌==◌, add32, sub32, slt, arith}
use os_ca.Spinlock.{Cpu, pushcli, popcli}

-- Between 0 and the largest `int`, less one; interrupts are off inside.
pub record IsNested (c : Cpu) : Type 0 where
  pub bound : c.ncli < 0x7FFFFFFF
  pub off : (c.ncli == 0) ≡ false → c.interrupts ≡ false

-- Where interrupts are off inside a `pushcli`, `popcli` behind a `pushcli` gives back their flag and the
-- count, and panics never.
pub popcli-pushcli :
    (c : Cpu)
    → IsNested c
    → (d : Cpu) × (popcli (pushcli c) ≡ some d) × (d.interrupts ≡ c.interrupts) × (d.ncli ≡ c.ncli)
unfolding popcli pushcli
popcli-pushcli c h =
    let b = h.bound in
    let back : sub32 (add32 c.ncli 1) 1 ≡ c.ncli = ground arith in
    let nonneg : slt c.ncli 0 ≡ false = ground arith in
    elim (Bool-cases (c.ncli == 0)) [
      | inl z ↦ elim (Bool-cases c.interrupts) [
        | inl i ↦ rw (back, nonneg, z, i) (_, refl, refl, refl)
        | inr i ↦ rw (back, nonneg, z, i) (_, refl, refl, refl)
      ]
      | inr z ↦ rw (back, nonneg, z, h.off z) (_, refl, refl, refl)
    ]
