-- ===== src/FrameManager/Bins.antt =====
-- The bin that a request gets.
use custom_os_kernel.Base.{
  ℕ, zero, suc, ◌-◌, ◌^◌, ◌≤◌, ◌<◌, ◌≡◌, refl, Bool-cases, inl, inr, some, arith, ltb, leb, ◌&&◌,
  false, ◌||◌, ◌==◌,
}
use native.Mathlib.Nat.{pow-le-pow_right}
use custom_os_kernel.Base.Int.{pos}
use custom_os_kernel.FrameManager.{bin_loop, choose_bin}

-- The bin is the smallest one that holds so many pages.
abbrev pub Fits : ℕ → ℕ → Type 0
Fits num_pages j = (num_pages ≤ 2 ^ j) × ((k : ℕ) → k < j → 2 ^ k < num_pages)

pub bin_loop-Fits :
    (j num_pages : ℕ) → 0 < num_pages → num_pages ≤ 2 ^ j → Fits num_pages (bin_loop j num_pages)
unfolding bin_loop
bin_loop-Fits zero n some_pages le = (le, λ k lt. absurd (omega arith))
bin_loop-Fits (suc j) n some_pages le = elim (Bool-cases (leb n (2 ^ suc j) && ltb (2 ^ j) n)) [
  | inl e ↦ rw e (
    le,
    λ k lt.
        let below : 2 ^ k ≤ 2 ^ j =
          pow-le-pow_right {n = 2} (omega arith) {i = k} {j = j} (omega (arith, lt)) in
        let more : 2 ^ j < n = ground (arith, e) in omega (arith, below, more),
  )
  | inr e ↦ rw e (bin_loop-Fits j n some_pages (ground (arith, e)))
]

-- A request of at least one page and no more than the largest bin holds is given the smallest bin
-- that holds it.
pub choose_bin-Fits :
    (num_bins num_pages : ℕ)
    → 0 < num_pages
    → num_pages ≤ 2 ^ (num_bins - 1)
    → (j : ℕ) × (choose_bin num_bins num_pages ≡ (pos 0, some j)) × Fits num_pages j
unfolding choose_bin
choose_bin-Fits num_bins n some_pages le =
    let taken : (ltb (2 ^ (num_bins - 1)) n || n == 0) ≡ false = ground arith in
    (bin_loop (num_bins - 1) n, rw taken refl, bin_loop-Fits (num_bins - 1) n some_pages le)
