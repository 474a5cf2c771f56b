-- ===== src/Crypto/Crc/Build.antt =====
-- The tables of crc.c: after `ensure_table` entry `i` is the register's state after 8 steps from `i`.
use emberlite.Common.{
  ℕ, zero, suc, ◌+◌, ◌≤◌, ◌<◌, ◌≡◌, refl, ◌∙◌, arith, true, List, length, get_or, set, length-set,
  get_or-set_self, get_or-set_ne, Bool-cases, inl, inr,
}
use native.Mathlib.Decide.{ℕ_discrete}
use emberlite.Crypto.Crc.{Table, fill_table, ensure_table}

module _ (entry : ℕ → ℕ) where
  pub length-fill_table : (left i : ℕ) (t : List ℕ) → length (fill_table entry left i t) ≡ length t
  unfolding fill_table
  length-fill_table zero i t = refl
  length-fill_table (suc left) i t =
      length-fill_table left (i + 1) (set t i (entry i)) ∙ length-set t i (entry i)

  fill_table_outside :
      (left i j : ℕ) (t : List ℕ) → j < i → get_or (fill_table entry left i t) j 0 ≡ get_or t j 0
  unfolding fill_table
  fill_table_outside zero i j t h = refl
  fill_table_outside (suc left) i j t h =
      fill_table_outside left (i + 1) j (set t i (entry i)) (omega arith)
      ∙ get_or-set_ne t i j (entry i) 0 (omega arith)

  fill_table_inside :
      (left i j : ℕ) (t : List ℕ)
      → i ≤ j
      → j < i + left
      → i + left ≤ length t
      → get_or (fill_table entry left i t) j 0 ≡ entry j
  unfolding fill_table
  fill_table_inside zero i j t h k room = absurd (omega arith)
  fill_table_inside (suc left) i j t h k room = elim (ℕ_discrete i j) [
    | yes e ↦ rw (← e) (
        fill_table_outside left (i + 1) i (set t i (entry i)) (omega arith)
        ∙ get_or-set_self t i (entry i) 0 (omega arith))
    | no ne ↦
        fill_table_inside left (i + 1) j (set t i (entry i)) (omega arith) (omega arith)
          (rw length-set (omega arith))
  ]

  -- A static table: 256 entries, which are right once the flag is up.
  pub record IsTable (t : Table) : Type 0 where
    pub size : length t.entries ≡ 256
    pub built : t.ready ≡ true → (i : ℕ) → i < 256 → get_or t.entries i 0 ≡ entry i

  pub ensure_table-IsTable :
      {t : Table}
      → IsTable t
      → IsTable (ensure_table entry t) × ((ensure_table entry t).ready ≡ true)
  unfolding ensure_table
  ensure_table-IsTable {t} v = elim (Bool-cases t.ready) [
    | inl up ↦ simp up (v, refl)
    | inr down ↦ rw down (
      record {
        size = length-fill_table 256 0 t.entries ∙ v.size;
        built = λ _ i h.
            fill_table_inside 256 0 i t.entries (omega arith) (omega arith) (omega (arith, v.size));
      },
      refl,
    )
  ]
