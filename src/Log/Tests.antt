-- ===== src/Log/Tests.antt =====
-- A log of one block, and the theorems on it.
use os_ca.Common.{ℕ, ◌≡◌, ◌≢◌, refl, false, [], ◌∷◌, Cells, arith, some, if◌then◌else◌, ◌==◌}
use os_ca.Log.{Device, Log, recover_from_log, commit}
use os_ca.Log.Replay.{rebooted}
use os_ca.Log.Crash.{IsClean, AllOrNothing, commit_atomic}
use os_ca.Log.Ops.{begin_op, log_write, absorb}
use os_ca.Log.Space.{System, begin, Reach, here, next, Fits, reserved, Reach-Fits, Reach-log_write}

-- The log lies at block 2; block 50 has been changed in the cache.
abbrev log : Log
log = record { start = 2; size = 31; outstanding = 1; committing = false; n = 1; block = λ _. 50 }

abbrev device : ℕ → Device
device writes = record {
  buffer = λ b _. if b == 50 then 9 else 0;
  disk = λ _ _. 0;
  writes_left = writes;
}

clean : (writes : ℕ) → IsClean log (device writes)
clean writes = record {
  apart = λ i p q. absurd (omega arith);
  empty_head = refl;
  clean = λ b out o. unnamed b (o 0 (omega arith));
}
  where
    unnamed : (b : ℕ) → b ≢ 50 → ◌≡◌ {A = Cells} (λ _. if b == 50 then 9 else 0) (λ _. 0)
    unnamed b ne = let away : (b == 50) ≡ false = ground arith in λ i _. if away i then 9 else 0

-- The power fails after two writes: the block is in the log and the header is written.
commit_atomic_example :
    AllOrNothing log (device 2) (recover_from_log log (rebooted 5 (commit log (device 2)).1)).1.disk
commit_atomic_example = commit_atomic log log (device 2) 5 (clean 2) refl (omega arith)

abbrev idle : System
idle = record { log = record log { outstanding = 0; n = 0 }; used = [] }

abbrev running : System
running = record { log = record log { n = 0 }; used = 0 ∷ [] }

begun : Reach idle running
begun = next here (begin opened)
  where
    opened : begin_op (record log { outstanding = 0; n = 0 }) ≡ some (record log { n = 0 })
    opened = unfold begin_op in refl

idle-Fits : Fits idle
idle-Fits = record {
  counted = refl;
  few = omega arith;
  idle = refl;
  space = unfold reserved in (omega arith);
}

Reach-Fits_example : Fits running
Reach-Fits_example = Reach-Fits idle-Fits begun

Reach-log_write_example : log_write 51 running.log ≡ some (absorb 51 running.log)
Reach-log_write_example =
    Reach-log_write 51 0 [] [] idle-Fits (omega arith) begun refl (omega arith)
