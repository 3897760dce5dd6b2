-- ===== src/Console/Print/Digits.antt =====
-- What `printint` prints reads back as its number.
use os_ca.Common.{
  ℕ, zero, suc, ◌+◌, ◌-◌, ◌*◌, ◌/◌, ◌%◌, ◌^◌, ◌≤◌, ◌<◌, ◌≡◌, true, false, List, [], ◌∷◌, arith, ap,
  sym, ◌∙◌, ltb, lt→ltb, ◌==◌, Bool-cases, ==_iff, inl, inr, if◌then◌else◌, if_cases, half_word,
  word, sub32, length,
}
use native.Mathlib.Nat.{div-add-mod', mod-lt, pow-suc, pow-zero, div-lt_iff_lt-mul, div-eq_of_lt}
use os_ca.Console.Print.{digit, put_digits, int_bytes}

-- The value of a digit, and of a numeral behind the value `v` of its first digits.
pub digit_value : ℕ → ℕ
digit_value c = if ltb c b'a' then c - b'0' else c - b'a' + 10

pub numeral_value : ℕ → ℕ → List ℕ → ℕ
numeral_value base v [] = v
numeral_value base v (c ∷ cs) = numeral_value base (v * base + digit_value c) cs

-- Bytes from `0` to `9`.
pub data AllDigits : List ℕ → Type 0 where
  no_digit : AllDigits []
  and_digit : {c : ℕ} {cs : List ℕ} → b'0' ≤ c → c ≤ b'9' → AllDigits cs → AllDigits (c ∷ cs)

digit-bounds : (d : ℕ) → d < 10 → (b'0' ≤ digit d) × (digit d ≤ b'9')
unfolding digit
digit-bounds d h = ground arith

put_digits-AllDigits :
    (fuel x : ℕ) (acc : List ℕ) → AllDigits acc → AllDigits (put_digits fuel 10 x acc)
unfolding put_digits
put_digits-AllDigits zero x acc h = h
put_digits-AllDigits (suc fuel) x acc h =
    let d = digit-bounds (x % 10) (omega arith) in
    let longer : AllDigits (digit (x % 10) ∷ acc) = and_digit d.0 d.1 h in
    if_cases AllDigits (x / 10 == 0) _ _ (λ _. longer)
      (λ _. put_digits-AllDigits fuel (x / 10) (digit (x % 10) ∷ acc) longer)

put_digits-longer :
    (fuel base x : ℕ) (acc : List ℕ) → length acc ≤ length (put_digits fuel base x acc)
unfolding put_digits
put_digits-longer zero base x acc = omega arith
put_digits-longer (suc fuel) base x acc =
    let rest = put_digits-longer fuel base (x / base) (digit (x % base) ∷ acc) in
    if_cases (λ l. length acc ≤ length l) (x / base == 0) (digit (x % base) ∷ acc) _
      (λ _. omega arith) (λ _. omega (arith, rest))

-- A digit is printed at least.
put_digits-some : (fuel base x : ℕ) → 1 ≤ length (put_digits (suc fuel) base x [])
unfolding put_digits
put_digits-some fuel base x =
    if_cases (λ l. 1 ≤ length l) (x / base == 0) (digit (x % base) ∷ []) _ (λ _. omega arith)
      (λ _. put_digits-longer fuel base (x / base) (digit (x % base) ∷ []))

digit_value-digit : (d : ℕ) → d < 16 → digit_value (digit d) ≡ d
unfolding digit_value digit
digit_value-digit d h = ground arith

module _ (base : ℕ) (low : 2 ≤ base) (high : base ≤ 16) where
  halved : (x n : ℕ) → x < 2 * n → x / base < n
  halved x n h = grind arith

  digits_join : (x : ℕ) → x / base * base + digit_value (digit (x % base)) ≡ x
  digits_join x =
      let below : x % base < base = mod-lt x (omega arith) in
      rw (digit_value-digit (x % base) (omega arith)) (div-add-mod' x base)

  put_digits-value :
      (fuel x : ℕ) (acc : List ℕ)
      → x < 2 ^ fuel
      → numeral_value base 0 (put_digits fuel base x acc) ≡ numeral_value base x acc
  unfolding put_digits numeral_value
  put_digits-value zero x acc h = ap (λ k. numeral_value base k acc) (omega arith)
  put_digits-value (suc fuel) x acc h =
      let smaller : x / base < 2 ^ fuel = halved x (2 ^ fuel) (omega (arith, pow-suc 2 fuel)) in
      let joined = ap (λ k. numeral_value base k acc) (digits_join x) in
      elim (Bool-cases (x / base == 0)) [
        | inl last ↦
            let none_left : x / base ≡ 0 = ground arith in
            rw last (
              ap (λ k. numeral_value base (k * base + digit_value (digit (x % base))) acc)
                (sym none_left)
              ∙ joined)
        | inr more ↦
            rw more (put_digits-value fuel (x / base) (digit (x % base) ∷ acc) smaller ∙ joined)
      ]

  -- At most a digit for each power of the base.
  length-put_digits :
      (k fuel x : ℕ) (acc : List ℕ)
      → x < base ^ suc k
      → length (put_digits fuel base x acc) ≤ suc k + length acc
  unfolding put_digits
  length-put_digits k zero x acc h = omega arith
  length-put_digits zero (suc fuel) x acc h =
      let small : x < base =
        omega (arith, pow-suc base 0, ap (λ (q : ℕ). q * base) (pow-zero base)) in
      let last : (x / base == 0) ≡ true = (==_iff _ _).1 (div-eq_of_lt small) in
      rw last (omega arith)
  length-put_digits (suc k) (suc fuel) x acc h =
      let smaller : x / base < base ^ suc k =
        (div-lt_iff_lt-mul (omega arith)).1 (omega (arith, pow-suc base (suc k))) in
      elim (Bool-cases (x / base == 0)) [
        | inl last ↦ rw last (omega arith)
        | inr more ↦
            let rest = length-put_digits k fuel (x / base) (digit (x % base) ∷ acc) smaller in
            rw more (omega arith)
      ]

sign_bound : (xx : ℕ) → ltb xx half_word ≡ false → half_word ≤ xx
sign_bound xx h = ground arith

sign_test : (xx : ℕ) → ltb xx half_word ≡ true → ltb (half_word - 1) xx ≡ false
sign_test xx h = ground arith

-- `printint(xx, 10, 1)` prints a minus sign exactly for a negative number, and then one to ten bytes,
-- each from `0` to `9`, which read back as its magnitude.
pub int_bytes-decimal :
    (xx : ℕ)
    → xx < word
    → (ds : List ℕ) × (int_bytes xx 10 true ≡ (if ltb xx half_word then ds else b'-' ∷ ds))
      × (numeral_value 10 0 ds ≡ (if ltb xx half_word then xx else word - xx))
      × AllDigits ds
      × (1 ≤ length ds)
      × (length ds ≤ 10)
unfolding int_bytes numeral_value
int_bytes-decimal xx h = elim (Bool-cases (ltb xx half_word)) [
  | inl pos ↦
      let not_neg : ltb (half_word - 1) xx ≡ false = sign_test xx pos in
      (
        put_digits 32 10 xx [],
        rw (pos, not_neg),
        rw pos (put_digits-value 10 (omega arith) (omega arith) 32 xx [] h),
        put_digits-AllDigits 32 xx [] no_digit,
        put_digits-some 31 10 xx,
        length-put_digits 10 (omega arith) (omega arith) 9 32 xx [] (omega arith),
      )
  | inr neg ↦
      let big : half_word ≤ xx = sign_bound xx neg in
      let is_neg : ltb (half_word - 1) xx ≡ true = lt→ltb _ _ (omega arith) in
      let down : sub32 0 xx ≡ word - xx = omega arith in
      (
        put_digits 32 10 (sub32 0 xx) [],
        rw (neg, is_neg),
        rw (neg, down)
            (put_digits-value 10 (omega arith) (omega arith) 32 (word - xx) [] (omega arith)),
        put_digits-AllDigits 32 (sub32 0 xx) [] no_digit,
        put_digits-some 31 10 (sub32 0 xx),
        length-put_digits 10 (omega arith) (omega arith) 9 32 (sub32 0 xx) [] (omega arith),
      )
]

-- `printint(x, 16, 0)` prints at most eight digits, which read back as the number.
pub int_bytes-hex :
    (x : ℕ)
    → x < word
    → (numeral_value 16 0 (int_bytes x 16 false) ≡ x) × (length (int_bytes x 16 false) ≤ 8)
unfolding int_bytes numeral_value
int_bytes-hex x h = (
  put_digits-value 16 (omega arith) (omega arith) 32 x [] h,
  length-put_digits 16 (omega arith) (omega arith) 7 32 x [] (omega arith),
)
