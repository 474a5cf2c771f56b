-- ===== src/Hal/Text/Digits.antt =====
-- How long the decimal text of a number is.
use emberlite.Common.{
  ℕ, zero, suc, ◌+◌, ◌/◌, ◌%◌, ◌≤◌, arith, Bool, true, false, List, [], ◌∷◌, ltb, if◌then◌else◌,
  length,
}
use emberlite.Hal.Text.{digits, decimal}

length-digits : (fuel n : ℕ) (acc : List ℕ) → length (digits fuel n acc) ≤ fuel + length acc
unfolding digits
length-digits zero n acc = omega arith
length-digits (suc fuel) n acc =
    shorter (ltb n 10) (length-digits fuel (n / 10) ((48 + n % 10) ∷ acc))
  where
    shorter :
        (b : Bool)
        → length (digits fuel (n / 10) ((48 + n % 10) ∷ acc)) ≤ fuel + suc (length acc)
        → length (if b then (48 + n % 10) ∷ acc else digits fuel (n / 10) ((48 + n % 10) ∷ acc))
          ≤ suc fuel + length acc
    shorter true h = omega arith
    shorter false h = omega (arith, h)

pub length-decimal : (n : ℕ) → length (decimal n) ≤ 10
unfolding decimal
length-decimal n = omega (arith, length-digits 10 n [])
