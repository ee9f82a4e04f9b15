-- ===== src/FrameManager.antt =====
-- kern/virtual_mem_mgmt/frame_manager.c: the loops of the buddy allocator that choose a bin for a
-- request and that carve user memory into frames.
pub mod Bins
pub mod Carve
pub mod Ops
pub mod Dealloc
pub mod Free
pub mod Split
pub mod Take
pub mod Alloc
pub mod Init
mod Runs
mod Examples
use custom_os_kernel.Base.{
  ℕ, zero, suc, ◌+◌, ◌-◌, ◌*◌, ◌%◌, ◌^◌, Bool, true, false, ◌&&◌, ◌||◌, Option, none, some, List,
  [], ◌∷◌, ◌++◌, if◌then◌else◌, ◌==◌, ltb, leb,
}
use custom_os_kernel.Base.Int.{ℤ, pos, neg}

-- `frame_t`; a pointer of 0 is NULL.
pub record Frame : Type 0 where
  pub addr : ℕ
  pub num_pages : ℕ
  pub status : ℕ
  pub i : ℕ
  pub buddy : ℕ
  pub parent : ℕ

abbrev pub frame_dealloc : ℕ
frame_dealloc = 1

abbrev pub frame_init : (addr num_pages status i buddy parent : ℕ) → Frame
frame_init addr num_pages status i buddy parent = record {
  addr = addr;
  num_pages = num_pages;
  status = status;
  i = i;
  buddy = buddy;
  parent = parent;
}

-- The loop of `fm_alloc` from bin `j` down. `TWO_POW` shifts an int: for at most 31 bins it is a power
-- of two, and the kernel has 15.
unfoldable pub bin_loop : (j : ℕ) → (num_pages : ℕ) → ℕ
bin_loop zero num_pages = zero
bin_loop (suc j) num_pages =
    if leb num_pages (2 ^ suc j) && ltb (2 ^ j) num_pages then suc j else bin_loop j num_pages

-- The bin of a request, or the status of one that is refused.
unfoldable pub choose_bin : (num_bins num_pages : ℕ) → ℤ × Option ℕ
choose_bin num_bins num_pages =
    if ltb (2 ^ (num_bins - 1)) num_pages || num_pages == 0
    then (neg 1, none)
    else (pos 0, some (bin_loop (num_bins - 1) num_pages))

-- What is left to carve.
pub record Rest : Type 0 where
  pub frames : List Frame
  pub pages_remaining : ℕ
  pub p_addr : ℕ

-- The inner loop of `fm_init_user_space`: frames of bin `i`, while there are pages for one. `none` is
-- a loop that needs more rounds. `TWO_POW` is as in `bin_loop`.
unfoldable pub carve_bin : (rounds : ℕ) → (i : ℕ) → Rest → Option Rest
carve_bin zero i r = none
carve_bin (suc k) i r = elim (leb (2 ^ i) r.pages_remaining) [
  | false ↦ some r
  | true ↦ carve_bin k i (record {
    frames = r.frames ++ (frame_init r.p_addr (2 ^ i) frame_dealloc i 0 0 ∷ []);
    pages_remaining = r.pages_remaining - 2 ^ i;
    p_addr = (r.p_addr + 4096 * 2 ^ i) % 2 ^ 32;
  })
]

-- The outer loop, from bin `n - 1` down to bin 0.
unfoldable pub carve_bins : (n : ℕ) → Rest → Option Rest
carve_bins zero r = some r
carve_bins (suc n) r = elim (carve_bin (r.pages_remaining + 1) n r) [
  | none ↦ none
  | some r' ↦ carve_bins n r'
]

-- The frames that `fm_init_user_space` makes, in the order in which it links them to their bins.
unfoldable pub fm_init_user_space :
    (user_mem_start : ℕ) → (num_bins num_pages : ℕ) → ℤ × Option (List Frame)
fm_init_user_space user_mem_start num_bins num_pages =
    if num_pages == 0
    then (neg 1, none)
    else elim (carve_bins num_bins
        (record { frames = []; pages_remaining = num_pages; p_addr = user_mem_start })) [
          | none ↦ (neg 1, none)
          | some r ↦ (pos 0, some r.frames)
        ]
