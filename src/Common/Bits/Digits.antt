-- ===== src/Common/Bits/Digits.antt =====
-- An operation on binary digits, lowest first, by an equation for the lowest digit.
use Prim.Native.Nat.{ℕ, zero, suc, ◌+◌, ◌-◌, ◌*◌, ◌/◌, ◌%◌, ◌≤◌, digits, bitwise}
use mathlib.Core.Path.{◌≡◌, refl, ap, ◌∙◌}
use native.Mathlib.Omega.{arith}

-- `tail` gives what is left of the second number when the first has run out.
module _ (tail : ℕ → ℕ) (op : ℕ → ℕ → ℕ) where
  -- A count beyond the first number adds no digits.
  more_digits :
      (count extra a b : ℕ)
      → a ≤ count
      → digits tail op (count + extra) a b ≡ digits tail op count a b
  more_digits zero zero zero b small = refl
  more_digits zero (suc extra) zero b small =
      ap (λ k. digits tail op k 0 b) {x = 0 + suc extra} {y = suc extra} (omega arith)
  more_digits zero extra (suc a) b small = absurd (omega arith)
  more_digits (suc count) extra a b small =
      ap (λ k. digits tail op k a b) {x = suc count + extra} {y = suc (count + extra)} (omega arith)
      ∙ lowest a small (λ x below. more_digits count extra x (b / 2) below)
    where
      lowest :
          (a : ℕ)
          → a ≤ suc count
          → ((x : ℕ)
              → x ≤ count
              → digits tail op (count + extra) x (b / 2) ≡ digits tail op count x (b / 2))
          → digits tail op (suc (count + extra)) a b ≡ digits tail op (suc count) a b
      lowest zero small deeper = refl
      lowest (suc a) small deeper =
          ap (λ d. d * 2 + op (suc a % 2) (b % 2)) (deeper (suc a / 2) (omega arith))

  -- If the tail agrees with the operation on a first digit 0, the lowest digit splits off.
  pub bitwise_lowest :
      ((b : ℕ) → tail b ≡ tail (b / 2) * 2 + op 0 (b % 2))
      → (a b : ℕ) → bitwise tail op a b ≡ bitwise tail op (a / 2) (b / 2) * 2 + op (a % 2) (b % 2)
  bitwise_lowest agrees zero b = agrees b
  bitwise_lowest agrees (suc a) b =
      ap (λ d. d * 2 + op (suc a % 2) (b % 2))
        (ap (λ k. digits tail op k (suc a / 2) (b / 2)) {x = a} {y = suc a / 2 + (a - suc a / 2)}
            (omega arith)
          ∙ more_digits (suc a / 2) (a - suc a / 2) (suc a / 2) (b / 2) (omega arith))
