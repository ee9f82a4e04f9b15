-- ===== src/FrameManager/Free.antt =====
-- Which addresses the free frames of kern/virtual_mem_mgmt/frame_manager.c cover, and how that
-- changes with the bins.
use custom_os_kernel.Base.{
  ℕ, zero, suc, ◌+◌, ◌*◌, ◌≤◌, ◌<◌, ◌≡◌, refl, List, [], ◌∷◌, ◌++◌, if◌then◌else◌, arith, ◌==◌, ltb,
  leb, ◌&&◌, count, inl, inr, Bool-cases, false,
}
use custom_os_kernel.FrameManager.{Frame}
use custom_os_kernel.FrameManager.Ops.{FrameManager, set_at}

-- One where the frame holds the address, and how many frames of a list and of the first bins hold it.
abbrev pub in_frame : ℕ → Frame → ℕ
in_frame x f = if leb f.addr x && ltb x (f.addr + 4096 * f.num_pages) then 1 else 0

abbrev pub in_list : ℕ → (ℕ → Frame) → List ℕ → ℕ
in_list x frames [] = 0
in_list x frames (p ∷ ps) = in_frame x (frames p) + in_list x frames ps

abbrev pub in_bins : ℕ → (ℕ → Frame) → (ℕ → List ℕ) → ℕ → ℕ
in_bins x frames bins zero = 0
in_bins x frames bins (suc n) = in_bins x frames bins n + in_list x frames (bins n)

-- How many free frames hold the address.
abbrev pub free_at : ℕ → FrameManager → ℕ
free_at x fm = in_bins x fm.frames fm.frame_bins fm.num_bins

pub in_list-append :
    (x : ℕ) (frames : ℕ → Frame) (ps qs : List ℕ)
    → in_list x frames (ps ++ qs) ≡ in_list x frames ps + in_list x frames qs
in_list-append x frames [] qs = omega arith
in_list-append x frames (p ∷ ps) qs = omega (arith, in_list-append x frames ps qs)

in_list-same :
    (x : ℕ) (frames frames' : ℕ → Frame) (ps : List ℕ)
    → ((a : ℕ) → 0 < count a ps → in_frame x (frames' a) ≡ in_frame x (frames a))
    → in_list x frames' ps ≡ in_list x frames ps
in_list-same x frames frames' [] same = refl
in_list-same x frames frames' (p ∷ ps) same =
    let first = same p (ground arith) in
    let rest = in_list-same x frames frames' ps (λ a h. same a (ground (arith, h))) in
    omega (arith, first, rest)

-- Frames that no bin holds do not count.
pub in_bins-same :
    (x : ℕ) (frames frames' : ℕ → Frame) (bins : ℕ → List ℕ) (n : ℕ)
    → ((j a : ℕ) → 0 < count a (bins j) → in_frame x (frames' a) ≡ in_frame x (frames a))
    → in_bins x frames' bins n ≡ in_bins x frames bins n
in_bins-same x frames frames' bins zero same = refl
in_bins-same x frames frames' bins (suc n) same = omega (
  arith,
  in_bins-same x frames frames' bins n same,
  in_list-same x frames frames' (bins n) (same n),
)

module _ (x : ℕ) (frames : ℕ → Frame) (bins : ℕ → List ℕ) (k : ℕ) (ps : List ℕ) where
  in_bins-above : (n : ℕ) → n ≤ k → in_bins x frames (set_at k ps bins) n ≡ in_bins x frames bins n
  in_bins-above zero le = refl
  in_bins-above (suc n) le =
      let off : (n == k) ≡ false = ground arith in
      rw off (omega (arith, in_bins-above n (omega arith)))

  -- A bin that is replaced.
  pub in_bins-set :
      (n : ℕ)
      → k < n
      → in_bins x frames (set_at k ps bins) n + in_list x frames (bins k)
        ≡ in_bins x frames bins n + in_list x frames ps
  in_bins-set zero lt = absurd (omega arith)
  in_bins-set (suc n) lt = elim (Bool-cases (n == k)) [
    | inl e ↦
        let at : n ≡ k = ground arith in rw e (rw at (omega (arith, in_bins-above k (omega arith))))
    | inr e ↦ rw e (omega (arith, in_bins-set n (ground arith)))
  ]
