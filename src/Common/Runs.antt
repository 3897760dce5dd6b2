-- ===== src/Common/Runs.antt =====
-- The values of a function at consecutive indices, as a list.
use Prim.Native.Nat.{ℕ, zero, suc, ◌+◌, ◌-◌, ◌<◌}
use mathlib.Core.Path.{◌≡◌, refl, ap, ap₂, ◌∙◌}
use mathlib.Core.List.{List, [], ◌∷◌, ◌++◌}
use native.Mathlib.Omega.{arith}
use os_ca.Common.Lists.{length}

unfoldable pub run : (ℕ → ℕ) → ℕ → ℕ → List ℕ
run f i zero = []
run f i (suc n) = f i ∷ run f (i + 1) n

pub run-ext :
    (f g : ℕ → ℕ) (n i j : ℕ) → ((k : ℕ) → k < n → f (i + k) ≡ g (j + k)) → run f i n ≡ run g j n
unfolding run
run-ext f g zero i j h = refl
run-ext f g (suc n) i j h = ap₂ ◌∷◌ (ap f (omega arith) ∙ h 0 (omega arith) ∙ ap g (omega arith)) (
    run-ext f g n (i + 1) (j + 1)
      (λ k p. ap f (omega arith) ∙ h (k + 1) (omega arith) ∙ ap g (omega arith)))

pub run-append : (f : ℕ → ℕ) (n m i : ℕ) → run f i (n + m) ≡ run f i n ++ run f (i + n) m
unfolding run
run-append f zero m i = ap₂ (run f) (omega arith) (omega arith)
run-append f (suc n) m i =
    let size : suc n + m ≡ suc (n + m) = omega arith in
    let start : i + suc n ≡ i + 1 + n = omega arith in
    rw (size, start) (ap (λ l. f i ∷ l) (run-append f n m (i + 1)))

pub run-last : (f : ℕ → ℕ) (i n : ℕ) → run f i (n + 1) ≡ run f i n ++ (f (i + n) ∷ [])
unfolding run
run-last f i n = run-append f n 1 i

pub length-run : (f : ℕ → ℕ) (n i : ℕ) → length (run f i n) ≡ n
unfolding run
length-run f zero i = refl
length-run f (suc n) i = ap suc (length-run f n (i + 1))

pub run-first : (f : ℕ → ℕ) (i n : ℕ) → 0 < n → run f i n ≡ f i ∷ run f (i + 1) (n - 1)
unfolding run
run-first f i zero h = elim h [ ]
run-first f i (suc n) h = ap (λ k. f i ∷ run f (i + 1) k) (omega arith)
