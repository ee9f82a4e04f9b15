-- ===== src/VirtualMem/Examples.antt =====
-- The calls of virtual_mem_mgmt.c on a directory that maps one page.
use custom_os_kernel.Base.{
  ◌*◌, ℕ, ◌≤◌, ◌<◌, ◌≡◌, refl, none, some, Option, List, [], ◌∷◌, true, false, arith, ◌==◌,
  if◌then◌else◌, ltb,
}
use custom_os_kernel.Base.Int.{ℤ, pos, neg}
use custom_os_kernel.FrameManager.{frame_init, frame_dealloc, bin_loop}
use custom_os_kernel.FrameManager.Ops.{
  FrameManager, frame_alloc, put_node, drop_node, empty_manager, registered, fm_alloc,
  request_split, split_head, take_head,
}
use custom_os_kernel.FrameManager.Dealloc.{
  back_in_bin, fm_dealloc, give_back, remove_buddy, request_join, join_end,
}
use custom_os_kernel.PageDirectory.{
  pde_index, pd_get_mapping, pd_begin_mapping, pd_create_mapping, enter_table, pd_commit_mapping,
  commit_tasks, pd_remove_mapping,
}
use custom_os_kernel.PageDirectory.Bits.{bit_or}
use custom_os_kernel.PageDirectory.Frames.{Counted, pd_alloc_frame, pd_dealloc_frame, remove_frame}
use custom_os_kernel.PageDirectory.Inv.{WellFormed}
use custom_os_kernel.VirtualMem.{
  Memory, Supply, Outcome, vmm_new_user_page, any_mapped, back_pages, remember, map_pages,
  create_pages,
}
use custom_os_kernel.VirtualMem.Calls.{syscall_new_pages, new_pages-Mapped}
use custom_os_kernel.VirtualMem.Remove.{
  GivenBack, nothing, gives, vmm_clear_user_space, vmm_remove_user_page, remove_pages,
  clear_user_space-Unmaps,
}

-- One table, which maps the page at 16777216 to the frame at 33554432, user read and write.
abbrev mapped_memory : Memory
mapped_memory = record {
  pd = record {
    directory = λ i. if i == 4 then 8199 else 0;
    mapping_tasks = some [];
    batch_enabled = false;
  };
  frames = record { num_pages = 0; p_addr_list = [] };
  tables = λ b. if b == 8192 then some (λ j. if j == 0 then 33554439 else 0) else none;
  fm =
      registered (empty_manager (λ a. frame_init 0 0 0 0 0 0) 2) 100
        (frame_init 50331648 2 frame_dealloc 1 0 0);
  addrs = 200 ∷ 300 ∷ [];
  cleared = [];
}

abbrev all_served : Supply
all_served = record {
  metadata = true;
  node = true;
  memalign = λ i. 12288;
  room = λ i. record { task = true; node = true };
}

mapped-WellFormed : WellFormed mapped_memory.pd.directory mapped_memory.tables
mapped-WellFormed = record {
  backed = λ i p. ((λ j. if j == 0 then 33554439 else 0), ground arith);
  apart = λ i j ne p q. absurd (ne (ground arith));
}

-- Two pages from the one that is mapped.
new_pages-Mapped_example :
    syscall_new_pages 16777216 all_served mapped_memory 16777216 (pos (2 * 4096))
    ≡ some (if ltb 16777216 16777216 then neg 1 else neg 2, mapped_memory)
unfolding pd_get_mapping
new_pages-Mapped_example =
    new_pages-Mapped 16777216 all_served mapped_memory 16777216 2 0 mapped-WellFormed (omega arith)
      (omega arith) (omega arith) (omega arith) (some 33554439, refl)

-- The frame at 33554432 is allocated and remembered; a second one is remembered that is not allocated.
abbrev held_fm : FrameManager
held_fm = record mapped_memory.fm {
  frames =
      λ a. if a == 500 then frame_init 33554432 1 frame_alloc 0 0 0 else mapped_memory.fm.frames a;
  allocated = put_node 33554432 500 mapped_memory.fm.allocated;
}

abbrev held_memory : Memory
held_memory = record mapped_memory {
  frames = record {
    num_pages = 2;
    p_addr_list =
        (record { p_addr = 33554432; num_pages = 1 })
        ∷ (record { p_addr = 4096; num_pages = 1 })
        ∷ [];
  };
  fm = held_fm;
}

abbrev freed_fm : FrameManager
freed_fm = back_in_bin (record held_fm { allocated = drop_node 33554432 held_fm.allocated }) 500 500

held-GivenBack : GivenBack held_fm held_memory.frames.p_addr_list freed_fm
unfolding fm_dealloc give_back
held-GivenBack = gives {s = pos 0} refl (gives {s = neg 2} refl nothing)

clear_user_space-Unmaps_example :
    (m' : Memory) × (vmm_clear_user_space 4 held_memory ≡ some (pos 0, m'))
    × (m'.fm ≡ freed_fm)
    × (m'.frames.p_addr_list ≡ [])
    × Counted m'.frames
    × ((v : ℕ) → 4 ≤ pde_index v → pd_get_mapping (some m'.pd) m'.tables v ≡ some (neg 2, none))
    × ((j : ℕ) → j < 4 → m'.pd.directory j ≡ held_memory.pd.directory j)
clear_user_space-Unmaps_example = clear_user_space-Unmaps 4 held_memory freed_fm held-GivenBack

-- The reply, the entry of an address, the frames and what was cleared.
abbrev seen : ℕ → Outcome → Option (ℤ × Option (ℤ × Option ℕ) × ℕ × List (ℕ × ℕ))
seen v none = none
seen v (some (s, m)) =
    some (s, pd_get_mapping (some m.pd) m.tables v, m.frames.num_pages, m.cleared)

-- A new page behind the one that is mapped gets the flags of a first and last page.
one_new_page :
    seen 16781312 (vmm_new_user_page all_served mapped_memory 16781312 1)
    ≡ some (pos 0, some (pos 0, some 50333191), 1, (16781312, 4096) ∷ [])
unfolding vmm_new_user_page any_mapped pd_get_mapping back_pages fm_alloc bin_loop request_split
    split_head take_head remember pd_alloc_frame map_pages pd_begin_mapping create_pages
    pd_create_mapping enter_table bit_or pd_commit_mapping commit_tasks
one_new_page = refl

abbrev removed : ℕ → Outcome → Outcome
removed v none = none
removed v (some (s, m)) = vmm_remove_user_page 16777216 1 all_served m v

-- Removed again, it is not mapped.
one_page_removed :
    seen 16781312 (removed 16781312 (vmm_new_user_page all_served mapped_memory 16781312 1))
    ≡ some (pos 0, some (neg 3, none), 0, (16781312, 4096) ∷ [])
unfolding vmm_new_user_page any_mapped pd_get_mapping back_pages fm_alloc bin_loop request_split
    split_head take_head remember pd_alloc_frame map_pages pd_begin_mapping create_pages
    pd_create_mapping enter_table bit_or pd_commit_mapping commit_tasks vmm_remove_user_page
    remove_pages pd_remove_mapping pd_dealloc_frame remove_frame fm_dealloc give_back remove_buddy
    request_join join_end
one_page_removed = refl
