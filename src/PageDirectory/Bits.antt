-- ===== src/PageDirectory/Bits.antt =====
-- Bitwise or of words, and the entries that it makes of a page's address and its flags.
use custom_os_kernel.Base.{
  ℕ, zero, suc, ◌+◌, ◌*◌, ◌/◌, ◌%◌, ◌^◌, ◌<◌, ◌≤◌, ◌≡◌, ap, subst, ◌∙◌, arith, if◌then◌else◌, ◌==◌,
}
use native.Mathlib.Nat.{mul_left_comm}

twice-pow : (q k : ℕ) → q * 2 ^ suc k ≡ 2 * (q * 2 ^ k)
twice-pow q k = ap (λ x. q * x) (omega arith) ∙ mul_left_comm q 2 (2 ^ k)

-- Bitwise or of the lowest `bits` bits.
unfoldable pub bit_or : (bits : ℕ) → ℕ → ℕ → ℕ
bit_or zero a b = 0
bit_or (suc n) a b = (if a % 2 + b % 2 == 0 then 0 else 1) + 2 * bit_or n (a / 2) (b / 2)

or-zero : (n a : ℕ) → a < 2 ^ n → bit_or n a 0 ≡ a
unfolding bit_or
or-zero zero a lt = ground arith
or-zero (suc n) a lt =
    let rest : bit_or n (a / 2) 0 ≡ a / 2 = or-zero n (a / 2) (omega arith) in ground (arith, rest)

-- A multiple of 2^k and flags of k bits add up.
or-disjoint :
    (n k q b : ℕ) → k ≤ n → q * 2 ^ k < 2 ^ n → b < 2 ^ k → bit_or n (q * 2 ^ k) b ≡ q * 2 ^ k + b
unfolding bit_or
or-disjoint n zero q b le lt flags =
    let no_flags : b ≡ 0 = omega (arith, flags) in
    rw no_flags (or-zero n (q * 2 ^ 0) lt ∙ omega arith)
or-disjoint zero (suc k) q b le lt flags = absurd (omega arith)
or-disjoint (suc n) (suc k) q b le lt flags =
    let twice : q * 2 ^ suc k ≡ 2 * (q * 2 ^ k) = twice-pow q k in
    let half : q * 2 ^ suc k / 2 ≡ q * 2 ^ k = omega (arith, twice) in
    let rest : bit_or n (q * 2 ^ suc k / 2) (b / 2) ≡ q * 2 ^ k + b / 2 =
      rw half (or-disjoint n k q (b / 2) (omega arith) (omega (arith, twice)) (omega arith)) in
    ground (arith, rest, twice)

-- An aligned address below 2^32 and flags below 4096.
pub or-entry : (a f : ℕ) → a < 2 ^ 32 → a % 4096 ≡ 0 → f < 4096 → bit_or 32 a f ≡ a + f
or-entry a f lt low flags =
    let whole : a / 4096 * 2 ^ 12 ≡ a = omega arith in
    subst (λ x. bit_or 32 x f ≡ x + f) whole
      (or-disjoint 32 12 (a / 4096) f (omega arith) (rw whole lt) flags)
