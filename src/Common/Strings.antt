-- ===== src/Common/Strings.antt =====
-- `<string.h>` on C strings and char arrays. A string is the list of its bytes, and a read at or past
-- the end of the list is the terminator 0.
use Prim.Native.Char.{code}
use Prim.Native.String.{String}
use Prim.Native.Nat.{ℕ, zero, suc, ◌≤◌}
use mathlib.Core.Path.{◌≡◌, refl, ap}
use mathlib.Core.Logic.{◌↔◌}
use mathlib.Core.Bool.{Bool, true, false}
use mathlib.Core.List.{List, [], ◌∷◌}
use native.Mathlib.Omega.{arith}
use emberlite.Common.Tests.{◌==◌, if◌then◌else◌}
use emberlite.Common.Lists.{length, replicate}

-- `s[0]`, and `s + 1`.
abbrev pub first : List ℕ → ℕ
first [] = 0
first (c ∷ s) = c

abbrev pub rest : List ℕ → List ℕ
rest [] = []
rest (c ∷ s) = s

-- A literal: its characters' codes, which are its bytes.
abbrev pub literal : String → List ℕ
literal String.[] = []
literal (String.◌∷◌ c s) = code c ∷ literal s

-- The bytes before the terminator, `n` at most.
abbrev pub c_str : ℕ → List ℕ → List ℕ
c_str zero s = []
c_str (suc n) s = if first s == 0 then [] else first s ∷ c_str n (rest s)

-- `strncmp(a, b, n) == 0`.
abbrev pub strncmp_eq : ℕ → List ℕ → List ℕ → Bool
strncmp_eq zero a b = true
strncmp_eq (suc n) a b =
    if first a == first b
    then (if first a == 0 then true else strncmp_eq n (rest a) (rest b))
    else false

-- `strncpy(dst, src, n)`: a shorter source is padded with zeros. The bytes of `dst` behind the `n`th
-- stay; `dst` has room for `n` bytes.
abbrev pub strncpy : List ℕ → List ℕ → ℕ → List ℕ
strncpy dst src zero = dst
strncpy [] src (suc n) = []
strncpy (d ∷ dst) src (suc n) = first src ∷ strncpy dst (if first src == 0 then [] else rest src) n

-- `strncmp` compares the texts.
pub strncmp_eq-c_str : (n : ℕ) (a b : List ℕ) → (strncmp_eq n a b ≡ true) ↔ (c_str n a ≡ c_str n b)
strncmp_eq-c_str zero a b = (λ _. refl, λ _. refl)
strncmp_eq-c_str (suc n) a b = ground (arith, strncmp_eq-c_str n (rest a) (rest b))

pub length-c_str-le : (n : ℕ) (s : List ℕ) → length (c_str n s) ≤ n
length-c_str-le zero s = omega arith
length-c_str-le (suc n) s = ground (arith, length-c_str-le n (rest s))

-- A text that ends before the limit is the same text under any larger limit.
pub c_str-suc : (n : ℕ) (s : List ℕ) → length (c_str (suc n) s) ≤ n → c_str (suc n) s ≡ c_str n s
c_str-suc zero s h = ground arith
c_str-suc (suc n) s h = ground (arith, c_str-suc n (rest s))

pub c_str-nil : (n : ℕ) → c_str n [] ≡ []
c_str-nil zero = refl
c_str-nil (suc n) = refl

c_str-zeros : (n k : ℕ) → c_str n (replicate k 0) ≡ []
c_str-zeros zero k = refl
c_str-zeros (suc n) zero = refl
c_str-zeros (suc n) (suc k) = refl

pub length-strncpy : (dst src : List ℕ) (n : ℕ) → length (strncpy dst src n) ≡ length dst
length-strncpy dst src zero = refl
length-strncpy [] src (suc n) = refl
length-strncpy (d ∷ dst) src (suc n) = ap suc (length-strncpy dst _ n)

-- Copying `n` bytes into a zeroed array one longer keeps the text, and terminates it.
pub c_str-strncpy :
    (n : ℕ) (src : List ℕ) → c_str (suc n) (strncpy (replicate (suc n) 0) src n) ≡ c_str n src
c_str-strncpy zero src = refl
c_str-strncpy (suc n) src =
    ground (arith, c_str-strncpy n (rest src), c_str-strncpy n [], c_str-nil n)
