-- ===== src/FrameManager/Runs.antt =====
-- The buddy allocator of kern/virtual_mem_mgmt/frame_manager.c on one block of two pages.
use custom_os_kernel.Base.{
  ℕ, ◌≤◌, ◌≡◌, refl, List, [], ◌∷◌, Option, none, some, arith, ◌==◌, count, Bool-cases, inl, inr,
}
use custom_os_kernel.Base.Int.{ℤ, pos}
use custom_os_kernel.FrameManager.{Frame, frame_init, frame_dealloc, bin_loop}
use custom_os_kernel.PageDirectory.Bits.{bit_or}
use custom_os_kernel.FrameManager.Ops.{
  FrameManager, empty_manager, registered, fm_init, fm_alloc, request_split, split_head, take_head,
}
use custom_os_kernel.FrameManager.Dealloc.{
  fm_dealloc, give_back, remove_buddy, request_join, join_end,
}
use custom_os_kernel.FrameManager.Free.{free_at}
use custom_os_kernel.FrameManager.Split.{IsValid, Fresh}
use custom_os_kernel.FrameManager.Alloc.{AllocEnds, alloc-Taken}
use custom_os_kernel.FrameManager.Init.{between, user_end, init-Free}

abbrev no_frames : ℕ → Frame
no_frames a = frame_init 0 0 0 0 0 0

three_addrs-Distinct : (a : ℕ) → count a (100 ∷ 200 ∷ 300 ∷ []) ≤ 1
three_addrs-Distinct a = ground arith

init-Free_example :
    (fm : FrameManager) × (fm_init 16777216 4099 no_frames 2 (100 ∷ 200 ∷ 300 ∷ [])
      ≡ some (pos 0, some fm))
    × IsValid fm
    × ((x : ℕ) → free_at x fm ≡ between 16777216 (user_end 16777216 4099) x)
init-Free_example =
    init-Free 16777216 4099 2 no_frames (100 ∷ 200 ∷ 300 ∷ []) (omega arith) (omega arith)
      (omega arith) three_addrs-Distinct (omega arith)

-- Two pages, in one frame.
abbrev two_pages : FrameManager
two_pages = registered (empty_manager no_frames 2) 100 (frame_init 16777216 2 frame_dealloc 1 0 0)

abbrev six_addrs : List ℕ
six_addrs = 200 ∷ 300 ∷ 400 ∷ 500 ∷ 600 ∷ 700 ∷ []

two_pages-IsValid : IsValid two_pages
two_pages-IsValid = record {
  block = λ k a held. elim (Bool-cases (k == 1)) [
    | inl e ↦
        let at : k ≡ 1 = ground arith in
        let is : a ≡ 100 = ground (arith, held, at) in
        rw (at, is) (record { free = refl; bin = refl; size = refl; fits = omega arith })
    | inr e ↦ absurd (ground (arith, held, e))
  ];
  once = λ k a. ground arith;
}

six_addrs-Fresh : Fresh two_pages six_addrs
six_addrs-Fresh = record { unused = λ k a held. ground (arith, held); distinct = λ a. ground arith }

alloc-Taken_example : AllocEnds two_pages 1 six_addrs
alloc-Taken_example =
    alloc-Taken two_pages 1 six_addrs two_pages-IsValid six_addrs-Fresh (omega arith) (omega arith)
      (omega arith) (omega arith)

-- The reply, the address and the two bins.
abbrev seen :
    Option (ℤ × Option ℕ × FrameManager × List ℕ) → Option (ℤ × Option ℕ × List ℕ × List ℕ)
seen none = none
seen (some (s, a, fm, addrs)) = some (s, a, fm.frame_bins 0, fm.frame_bins 1)

-- One page splits the frame and takes its left half.
one_page : seen (fm_alloc two_pages 1 six_addrs) ≡ some (pos 0, some 16777216, 300 ∷ [], [])
unfolding fm_alloc request_split split_head take_head bin_loop
one_page = refl

abbrev given_back : Option (ℤ × Option ℕ × FrameManager × List ℕ) → Option (ℤ × FrameManager)
given_back none = none
given_back (some (s, a, fm, addrs)) = fm_dealloc fm 16777216

abbrev bins_of : Option (ℤ × FrameManager) → Option (ℤ × List ℕ × List ℕ)
bins_of none = none
bins_of (some (s, fm)) = some (s, fm.frame_bins 0, fm.frame_bins 1)

-- Given back, it joins its buddy to the frame of two pages.
one_page_back : bins_of (given_back (fm_alloc two_pages 1 six_addrs)) ≡ some (pos 0, [], 100 ∷ [])
unfolding fm_alloc request_split split_head take_head fm_dealloc give_back remove_buddy request_join
    join_end bin_loop bit_or
one_page_back = refl
