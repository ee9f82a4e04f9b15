-- ===== src/Base/Count.antt =====
-- How often a list of numbers holds one, for the lists that the models keep of nodes.
use Prim.Native.Nat.{ℕ, suc, ◌+◌}
use mathlib.Core.Path.{◌≡◌}
use mathlib.Core.List.{List, [], ◌∷◌, ◌++◌}
use native.Mathlib.Omega.{arith}
use custom_os_kernel.Base.Tests.{if◌then◌else◌, ◌==◌}

abbrev pub count : ℕ → List ℕ → ℕ
count a [] = 0
count a (b ∷ bs) = if b == a then suc (count a bs) else count a bs

-- One for the number itself.
abbrev pub one_at : ℕ → ℕ → ℕ
one_at a b = if a == b then 1 else 0

pub count-append : (b : ℕ) (xs ys : List ℕ) → count b (xs ++ ys) ≡ count b xs + count b ys
count-append b [] ys = omega arith
count-append b (x ∷ xs) ys = ground (arith, count-append b xs ys)

pub count-snoc : (b : ℕ) (xs : List ℕ) (a : ℕ) → count b (xs ++ (a ∷ [])) ≡ count b xs + one_at a b
count-snoc b xs a = ground (arith, count-append b xs (a ∷ []))
