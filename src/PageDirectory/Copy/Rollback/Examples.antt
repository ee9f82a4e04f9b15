-- ===== src/PageDirectory/Copy/Rollback/Examples.antt =====
-- A table for entry 6 cannot be had.
use custom_os_kernel.Base.{
  ℕ, ◌<◌, ◌≤◌, ◌≡◌, refl, ap, ◌⊎◌, Bool, true, false, none, some, if◌then◌else◌, arith, ◌==◌,
}
use custom_os_kernel.Base.Int.{neg}
use custom_os_kernel.PageDirectory.{Tables, entry_present}
use custom_os_kernel.PageDirectory.Copy.{Copying, pd_deep_copy}
use custom_os_kernel.PageDirectory.Copy.Rollback.{pd_deep_copy-Unsaved}

abbrev parent : ℕ → ℕ
parent i = if i == 6 then 2097159 else 0

abbrev no_tables : Tables
no_tables b = none

clear : (j : ℕ) → 4 ≤ j → j < 6 → entry_present (parent j) ≡ false
clear j ge lt =
    let e : (j == 6) ≡ false = ground (arith, lt) in
    ap (λ (b : Bool). entry_present (if b then 2097159 else 0)) e

pd_deep_copy-Unsaved_example :
    (c' : Copying ℕ) × (pd_deep_copy 4
        (λ i. 0)
        (λ i j. true)
        (λ i. 3735928559)
        (λ i. 0)
        parent
        no_tables
        (λ b. b)
        25165824
      ≡ some (neg 2, c'))
    × ((j : ℕ) → 4 ≤ j → j < 6 → c'.directory j ≡ 3735928559)
    × ((j : ℕ) → (j < 4) ⊎ (6 ≤ j) → c'.directory j ≡ 0)
    × (c'.pages ≡ (λ b. b))
pd_deep_copy-Unsaved_example =
    pd_deep_copy-Unsaved 4 (λ i. 0) (λ i j. true) parent 6 refl refl (λ i. 3735928559) (λ i. 0)
      no_tables (λ b. b) 25165824 (omega arith) (omega arith) clear
