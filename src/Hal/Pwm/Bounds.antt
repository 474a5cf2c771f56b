-- ===== src/Hal/Pwm/Bounds.antt =====
-- The numbers and the paths of hal_pwm.c.
use emberlite.Common.{
  ℕ, zero, suc, ◌*◌, ◌/◌, ◌%◌, ◌^◌, ◌≤◌, ◌<◌, ◌≡◌, refl, ap, ◌∙◌, arith, Option, none, some, List,
  [], ◌∷◌, ◌++◌, ltb, ◌==◌, ◌||◌, if◌then◌else◌, length, length-append, take, min, literal,
}
use native.Mathlib.Nat.{mul-le-mul_left, div-eq_of_lt, div-le_self, le-div_iff_mul-le}
use emberlite.Hal.Text.{decimal}
use emberlite.Hal.Text.Digits.{length-decimal}
use emberlite.Hal.Pwm.{duty_ns, period_of, pwm_dir_of, pwm_handle, pwm_path}

-- What duty_ns makes of the product.
abbrev duty_of : ℕ → ℕ → ℕ
duty_of period x =
    let duty = x % 2 ^ 64 / 1000000 % 2 ^ 32 in if ltb period duty then period else duty

duty_of-exact :
    (period x : ℕ) → period < 2 ^ 32 → x ≤ period * 1000000 → duty_of period x ≡ x / 1000000
duty_of-exact period x h b = ground arith

-- For a period of 32 bits, the time on is the share of the period, rounded down, of at most a million
-- millionths: the product does not overflow 64 bits, the cast loses nothing, and it is at most the
-- period.
pub duty_ns-le-period :
    (period percent : ℕ)
    → period < 2 ^ 32
    → (duty_ns period percent ≡ period * min percent 1000000 / 1000000)
      × (duty_ns period percent ≤ period)
unfolding duty_ns
duty_ns-le-period period percent h =
    let share = ap (λ n. duty_of period (period * n)) pct in
    let exact = duty_of-exact period (period * min percent 1000000) h bounded in
    (share ∙ exact, omega (arith, share, exact, bounded))
  where
    pct : (if ltb 1000000 percent then 1000000 else percent) ≡ min percent 1000000
    pct = ground arith

    bounded : period * min percent 1000000 ≤ period * 1000000
    bounded = mul-le-mul_left period (omega arith)

-- What period_of makes of the quotient.
abbrev accepted : ℕ → Option ℕ
accepted period = if period == 0 || ltb 0xFFFFFFFF period then none else some (period % 2 ^ 32)

accepted-some : (q : ℕ) → 1 ≤ q → q ≤ 1000000000 → accepted q ≡ some q
accepted-some q h l = ground arith

-- A frequency that is not 0 is refused only above 10^9 Hz; else its period is 10^9 / hz, which fits 32
-- bits and is not 0.
pub period_of-range :
    (hz : ℕ)
    → 0 < hz
    → (1000000000 < hz → period_of hz ≡ none)
      × (hz ≤ 1000000000
          → (period_of hz ≡ some (1000000000 / hz))
            × (0 < 1000000000 / hz)
            × (1000000000 / hz < 2 ^ 32))
unfolding period_of
period_of-range hz h = (
  λ over. ap accepted (div-eq_of_lt over),
  λ under.
      let one_at_least = (le-div_iff_mul-le h).1 (omega (arith, under)) in
      (
        accepted-some (1000000000 / hz) one_at_least (div-le_self 1000000000 hz),
        omega (arith, one_at_least),
        omega (arith, div-le_self 1000000000 hz),
      ),
)

take-short : (n : ℕ) (xs : List ℕ) → length xs ≤ n → take n xs ≡ xs
take-short zero [] h = refl
take-short zero (x ∷ xs) h = absurd (omega (arith, h))
take-short (suc n) [] h = refl
take-short (suc n) (x ∷ xs) h = ap (◌∷◌ x) (take-short n xs (omega (arith, h)))

-- For a chip's path that fits its field, and a file name of at most eleven bytes, no path of the
-- channel is cut.
pub pwm_path-uncut :
    (chip_path : List ℕ) (channel : ℕ) (name : List ℕ)
    → length chip_path < 256
    → length name ≤ 11
    → pwm_path (pwm_handle chip_path channel) name
      ≡ (chip_path ++ (literal "/pwm" ++ decimal channel)) ++ name
unfolding pwm_path pwm_handle pwm_dir_of
pwm_path-uncut chip_path channel name h l =
    ap (λ d. take 399 (d ++ name)) dir
    ∙ take-short 399 (whole ++ name) (omega (arith, length-append whole name, short))
  where
    whole : List ℕ
    whole = chip_path ++ (literal "/pwm" ++ decimal channel)

    short : length whole ≤ 270
    short =
        omega (
          arith,
          length-append chip_path (literal "/pwm" ++ decimal channel),
          length-decimal channel,
        )

    dir : take 319 whole ≡ whole
    dir = take-short 319 whole (omega (arith, short))
