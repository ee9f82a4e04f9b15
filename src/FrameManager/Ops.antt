-- ===== src/FrameManager/Ops.antt =====
-- kern/virtual_mem_mgmt/frame_manager.c: the operations of the buddy allocator. A node is named by
-- the address of the frame that it is made with and keeps. The three hash tables are the maps from
-- keys to nodes that HashTable.Map shows them to be, where malloc serves them. The calls hold
-- the mutex of the frame manager from their start to their end. A result `none` is a panic, a failed
-- assertion, a frame that malloc does not give, or a loop that needs more rounds.
use custom_os_kernel.Base.{
  ℕ, zero, suc, ◌+◌, ◌-◌, ◌*◌, ◌/◌, ◌%◌, ◌^◌, Bool, true, false, ◌||◌, Option, none, some, List, [],
  ◌∷◌, ◌++◌, if◌then◌else◌, ◌==◌, ltb, leb, count,
}
use custom_os_kernel.Base.Int.{ℤ, pos, negsuc, neg}
use custom_os_kernel.PageDirectory.Bits.{bit_or}
use custom_os_kernel.FrameManager.{Frame, frame_init, frame_dealloc, bin_loop, fm_init_user_space}

abbrev pub frame_alloc : ℕ
frame_alloc = 0

abbrev pub frame_parent : ℕ
frame_parent = 2

-- `frame_manager_t`, with the frames in memory by their addresses.
pub record FrameManager : Type 0 where
  pub frames : ℕ → Frame
  pub allocated : ℕ → Option ℕ
  pub deallocated : ℕ → Option ℕ
  pub parents : ℕ → Option ℕ
  pub frame_bins : ℕ → List ℕ
  pub num_bins : ℕ

abbrev pub set_at {ℓ} : {A : Type ℓ} → ℕ → A → (ℕ → A) → ℕ → A
set_at k v f j = if j == k then v else f j

-- `ht_put`, which keeps an entry that is there, and what `ht_remove` leaves.
abbrev pub put_node : ℕ → ℕ → (ℕ → Option ℕ) → ℕ → Option ℕ
put_node k v t = elim (t k) [ none ↦ set_at k (some v) t | some w ↦ t ]

abbrev pub drop_node : ℕ → (ℕ → Option ℕ) → ℕ → Option ℕ
drop_node k t = set_at k none t

abbrev pub set_status : ℕ → ℕ → (ℕ → Frame) → ℕ → Frame
set_status p s frames = set_at p (record (frames p) { status = s }) frames

-- `ll_unlink_node`
abbrev pub unlinked : ℕ → List ℕ → List ℕ
unlinked a [] = []
unlinked a (b ∷ bs) = if b == a then bs else b ∷ unlinked a bs

abbrev pub unlink_node : ℕ → List ℕ → Option (List ℕ)
unlink_node a bs = if count a bs == 0 then none else some (unlinked a bs)

abbrev pub parent_key : Frame → ℕ
parent_key f = bit_or 32 f.addr f.i

-- The two frames that `request_split` makes of the frame at `p`, at the addresses `l` and `r`.
abbrev pub left_half : Frame → ℕ → ℕ → ℕ → Frame
left_half f p i r = frame_init f.addr (f.num_pages / 2) frame_dealloc (i - 1) r p

abbrev pub right_half : Frame → ℕ → ℕ → ℕ → Frame
right_half f p i l =
    frame_init ((f.addr + f.num_pages / 2 * 4096) % 2 ^ 32) (f.num_pages / 2) frame_dealloc (i - 1)
      l p

-- `request_split` from where bin `i` holds the frame at `p` in front of `ps`.
abbrev pub split_frame : FrameManager → (l r : ℕ) → (i p : ℕ) → (ps : List ℕ) → FrameManager
split_frame fm l r i p ps =
    let f = fm.frames p in
    let lf = left_half f p i r in
    let rf = right_half f p i l in
    record fm {
      frames = set_at r rf (set_at l lf (set_status p frame_parent fm.frames));
      deallocated = put_node rf.addr r (put_node lf.addr l (drop_node f.addr fm.deallocated));
      parents = put_node (parent_key f) p fm.parents;
      frame_bins =
          set_at (i - 1) (set_at i ps fm.frame_bins (i - 1) ++ (l ∷ r ∷ []))
            (set_at i ps fm.frame_bins);
    }

unfoldable pub split_head :
    FrameManager → (i : ℕ) → (addrs : List ℕ) → List ℕ → Option (ℤ × FrameManager × List ℕ)
split_head fm i addrs [] = none
split_head fm i [] (p ∷ ps) = none
split_head fm i (l ∷ []) (p ∷ ps) = none
split_head fm i (l ∷ r ∷ addrs) (p ∷ ps) =
    if (fm.frames p).status == frame_dealloc
    then some (pos 0, split_frame fm l r i p ps, addrs)
    else none

abbrev pub then_split : ℕ → Option (ℤ × FrameManager × List ℕ) → Option (ℤ × FrameManager × List ℕ)
then_split i none = none
then_split i (some (negsuc e, fm, addrs)) = some (neg 2, fm, addrs)
then_split i (some (pos n, fm, addrs)) = split_head fm i addrs (fm.frame_bins i)

abbrev pub is_empty : List ℕ → Bool
is_empty [] = true
is_empty (x ∷ xs) = false

-- `addrs` are the addresses that malloc gives for frames, in the order of the calls.
unfoldable pub request_split :
    (rounds : ℕ) → FrameManager → (i : ℕ) → (addrs : List ℕ) → Option (ℤ × FrameManager × List ℕ)
request_split zero fm i addrs = none
request_split (suc k) fm i addrs =
    let above = request_split k fm (i + 1) addrs in
    if leb fm.num_bins i || i == 0
    then some (neg 1, fm, addrs)
    else if is_empty (fm.frame_bins i)
    then then_split i above
    else split_head fm i addrs (fm.frame_bins i)

-- `fm_alloc` from where bin `j` holds a frame.
unfoldable pub take_head :
    FrameManager
    → (j : ℕ) → (addrs : List ℕ) → List ℕ
    → Option (ℤ × Option ℕ × FrameManager × List ℕ)
take_head fm j addrs [] = none
take_head fm j addrs (p ∷ ps) =
    let f = fm.frames p in
    if f.status == frame_dealloc
    then some (
      pos 0,
      some f.addr,
      record fm {
        frames = set_status p frame_alloc fm.frames;
        deallocated = drop_node f.addr fm.deallocated;
        allocated = put_node f.addr p fm.allocated;
        frame_bins = set_at j ps fm.frame_bins;
      },
      addrs,
    )
    else none

abbrev pub then_take :
    ℕ → Option (ℤ × FrameManager × List ℕ) → Option (ℤ × Option ℕ × FrameManager × List ℕ)
then_take j none = none
then_take j (some (negsuc e, fm, addrs)) = some (neg 2, none, fm, addrs)
then_take j (some (pos n, fm, addrs)) = take_head fm j addrs (fm.frame_bins j)

-- The second result is what is written to `p_addr`.
unfoldable pub fm_alloc :
    FrameManager
    → (num_pages : ℕ) → (addrs : List ℕ) → Option (ℤ × Option ℕ × FrameManager × List ℕ)
fm_alloc fm num_pages addrs =
    let j = bin_loop (fm.num_bins - 1) num_pages in
    if ltb (2 ^ (fm.num_bins - 1)) num_pages || num_pages == 0
    then some (neg 1, none, fm, addrs)
    else if is_empty (fm.frame_bins j)
    then then_take j (request_split (fm.num_bins + 1) fm (j + 1) addrs)
    else take_head fm j addrs (fm.frame_bins j)

-- What `fm_init_user_space` does with a frame that it made, at the address `a`.
abbrev pub registered : FrameManager → ℕ → Frame → FrameManager
registered fm a f = record fm {
  frames = set_at a f fm.frames;
  frame_bins = set_at f.i (fm.frame_bins f.i ++ (a ∷ [])) fm.frame_bins;
  deallocated = put_node f.addr a fm.deallocated;
}

unfoldable pub register_all : FrameManager → (addrs : List ℕ) → List Frame → Option FrameManager
register_all fm addrs [] = some fm
register_all fm [] (f ∷ fs) = none
register_all fm (a ∷ addrs) (f ∷ fs) = register_all (registered fm a f) addrs fs

-- `frames` is what stands in memory before.
abbrev pub empty_manager : (ℕ → Frame) → (num_bins : ℕ) → FrameManager
empty_manager frames num_bins = record {
  frames = frames;
  allocated = λ k. none;
  deallocated = λ k. none;
  parents = λ k. none;
  frame_bins = λ j. [];
  num_bins = num_bins;
}

-- The page frames of the machine above the kernel that 32 bits address.
abbrev pub user_frames : (user_mem_start machine_phys_frames : ℕ) → ℕ
user_frames start n =
    let addressable = (2 ^ 32 - start) / 4096 in
    if ltb (n - start / 4096) addressable then n - start / 4096 else addressable

abbrev pub served : Option FrameManager → Option (ℤ × Option FrameManager)
served none = none
served (some fm) = some (pos 0, some fm)

abbrev pub then_register :
    FrameManager → List ℕ → ℤ × Option (List Frame) → Option (ℤ × Option FrameManager)
then_register fm addrs (s, none) = none
then_register fm addrs (s, some fs) = served (register_all fm addrs fs)

-- `mutex_init` on a mutex that is not NULL does not fail.
unfoldable pub fm_init :
    (user_mem_start machine_phys_frames : ℕ)
    → (frames : ℕ → Frame) → (num_bins : ℕ) → (addrs : List ℕ) → Option (ℤ × Option FrameManager)
fm_init start n frames num_bins addrs =
    if ltb n (start / 4096)
    then some (neg 1, none)
    else then_register (empty_manager frames num_bins) addrs
        (fm_init_user_space start num_bins (user_frames start n))
