-- ===== src/FrameManager/Dealloc.antt =====
-- kern/virtual_mem_mgmt/frame_manager.c: frames are given back, and join their buddies.
use custom_os_kernel.Base.{
  ℕ, zero, suc, ◌+◌, Bool, ◌&&◌, ◌||◌, not, Option, none, some, [], ◌∷◌, ◌++◌, if◌then◌else◌, ◌==◌,
}
use custom_os_kernel.Base.Int.{ℤ, pos, negsuc, neg}
use custom_os_kernel.FrameManager.{Frame, frame_dealloc}
use custom_os_kernel.FrameManager.Ops.{
  frame_alloc, frame_parent, set_at, put_node, drop_node, set_status, unlink_node, parent_key,
  FrameManager,
}

-- A buddy that is there and free.
abbrev pub has_free_buddy : FrameManager → Frame → Bool
has_free_buddy fm f = not (f.buddy == 0) && (fm.frames f.buddy).status == frame_dealloc

-- The buddy leaves the table and bin `i`.
unfoldable pub remove_buddy : FrameManager → (i : ℕ) → Frame → Option FrameManager
remove_buddy fm i b = elim (fm.deallocated b.addr) [
  | none ↦ none
  | some node ↦ elim (unlink_node node (fm.frame_bins i)) [
    | none ↦ none
    | some ns ↦ some (record fm {
      deallocated = drop_node b.addr fm.deallocated;
      frame_bins = set_at i ns fm.frame_bins;
    })
  ]
]

-- The frame becomes free, from the table of parents or from that of allocated frames, where `node` was found.
abbrev pub back_in_bin : FrameManager → (node p : ℕ) → FrameManager
back_in_bin fm node p =
    let f = fm.frames p in
    record fm {
      frames = set_status p frame_dealloc fm.frames;
      deallocated = put_node f.addr node fm.deallocated;
      frame_bins = set_at f.i (fm.frame_bins f.i ++ (node ∷ [])) fm.frame_bins;
    }

-- The end of `request_join` where the buddy is not free.
unfoldable pub join_end : FrameManager → (node p : ℕ) → Option (ℤ × FrameManager)
join_end fm node p = elim (fm.deallocated (fm.frames p).addr) [
  | some w ↦ none
  | none ↦ some (pos 0, back_in_bin fm node p)
]

abbrev pub then_join : Option (ℤ × FrameManager) → Option (ℤ × FrameManager)
then_join none = none
then_join (some (pos n, fm)) = some (pos 0, fm)
then_join (some (negsuc e, fm)) = none

-- The buddy goes, then the parent is joined.
abbrev pub join_with :
    (FrameManager → Option (ℤ × FrameManager)) → Option FrameManager → Option (ℤ × FrameManager)
join_with up none = none
join_with up (some fm) = up fm

unfoldable pub request_join : (rounds : ℕ) → FrameManager → (frame : ℕ) → Option (ℤ × FrameManager)
request_join zero fm p = none
request_join (suc k) fm p =
    let f = fm.frames p in
    let b = fm.frames f.buddy in
    let fm' = record fm { parents = drop_node (parent_key f) fm.parents } in
    let joined =
      join_with (λ fm2. then_join (request_join k fm2 f.parent)) (remove_buddy fm' f.i b) in
    if p == 0
    then some (neg 1, fm)
    else if f.status == frame_parent
    then elim (fm.parents (parent_key f)) [
      | none ↦ none
      | some node ↦
          if not (has_free_buddy fm f)
          then join_end fm' node p
          else if f.parent == b.parent && not (f.parent == 0)
          then joined
          else none
    ]
    else none

-- The assertion on the buddy.
abbrev pub buddy_agrees : FrameManager → (p : ℕ) → Bool
buddy_agrees fm p =
    let f = fm.frames p in
    let b = fm.frames f.buddy in
    f.buddy == 0
    || (b.parent == f.parent && b.i == f.i && b.num_pages == f.num_pages && b.buddy == p)

-- The reply of `request_join` is dropped.
abbrev pub then_done : Option (ℤ × FrameManager) → Option (ℤ × FrameManager)
then_done none = none
then_done (some (s, fm)) = some (pos 0, fm)

unfoldable pub give_back : FrameManager → (p : ℕ) → Option (ℤ × FrameManager)
give_back fm p =
    let f = fm.frames p in
    if (f.status == frame_alloc) && buddy_agrees fm p
    then if has_free_buddy fm f
      then join_with (λ fm2. then_done (request_join (fm.num_bins + 1) fm2 f.parent))
          (remove_buddy fm (fm.frames f.buddy).i (fm.frames f.buddy))
      else some (pos 0, back_in_bin fm p p)
    else none

unfoldable pub fm_dealloc : FrameManager → (p_addr : ℕ) → Option (ℤ × FrameManager)
fm_dealloc fm p_addr = elim (fm.allocated p_addr) [
  | none ↦ some (neg 2, fm)
  | some p ↦ give_back (record fm { allocated = drop_node p_addr fm.allocated }) p
]
