-- ===== src/VirtualMem.antt =====
-- kern/virtual_mem_mgmt/virtual_mem_mgmt.c: user memory, out of the page directory and the frame
-- manager. What malloc and memalign answer are parameters, by the number of the page. A result
-- `none` is a panic, a run that uses a page table that is not allocated, or a reply that does not come.
-- The contents of pages are left out, but for the calls that clear them; so are flushes of the TLB.

pub mod Refuse
pub mod Remove
pub mod Calls
pub mod Copy
mod Examples
use custom_os_kernel.Base.{
  ℕ, zero, suc, ◌+◌, ◌-◌, ◌*◌, ◌/◌, ◌%◌, ◌^◌, Bool, true, false, not, ◌&&◌, ◌||◌, Option, none,
  some, List, [], ◌∷◌, ◌++◌, if◌then◌else◌, ◌==◌, ltb, leb, add32, sub32,
}
use custom_os_kernel.Base.Int.{ℤ, pos, negsuc, neg}
use custom_os_kernel.FrameManager.Ops.{FrameManager, fm_alloc}
use custom_os_kernel.FrameManager.Dealloc.{fm_dealloc}
use custom_os_kernel.MemSection.{MemSection, ms_get_bounding_addr, ms_get_bounding_section}
use custom_os_kernel.PageDirectory.{
  PageDirectory, Tables, Room, add_flags, remove_flags, is_page_aligned, pd_get_mapping,
  pd_begin_mapping, pd_abort_mapping, pd_commit_mapping, pd_create_mapping, pd_remove_mapping,
}
use custom_os_kernel.PageDirectory.Frames.{Frames, pd_alloc_frame, pd_dealloc_frame}

-- What the calls work on: the page directory with its frames, the page tables, the frame manager, the
-- addresses that malloc will give it for frames, and what was cleared: an address and a number of bytes.
pub record Memory : Type 0 where
  pub pd : PageDirectory
  pub frames : Frames
  pub tables : Tables
  pub fm : FrameManager
  pub addrs : List ℕ
  pub cleared : List (ℕ × ℕ)

-- What malloc and memalign answer.
pub record Supply : Type 0 where
  pub metadata : Bool
  pub node : Bool
  pub memalign : ℕ → ℕ
  pub room : ℕ → Room

abbrev pub Outcome : Type 0
Outcome = Option (ℤ × Memory)

-- `USER_WR`, and the flags of a page of `n` pages.
abbrev pub user_wr : ℕ
user_wr = 7

abbrev pub page_flags : (i n : ℕ) → ℕ
page_flags i n =
    add_flags (add_flags user_wr (if i == 0 then 512 else 0)) (if i == n - 1 then 1024 else 0)

-- `IS_USER_START` and `IS_USER_END`
abbrev pub is_user_start : ℕ → Bool
is_user_start pte = pte / 512 % 2 == 1

abbrev pub is_user_end : ℕ → Bool
is_user_end pte = pte / 1024 % 2 == 1

-- The loop that looks for a page that is mapped.
unfoldable pub any_mapped : (left : ℕ) → PageDirectory → Tables → (v_addr : ℕ) → Option Bool
any_mapped zero pd tables v = some false
any_mapped (suc k) pd tables v = elim (pd_get_mapping (some pd) tables v) [
  | none ↦ none
  | some (pos zero, e) ↦ some true
  | some (pos (suc s), e) ↦ any_mapped k pd tables (add32 v 4096)
  | some (negsuc s, e) ↦ any_mapped k pd tables (add32 v 4096)
]

-- A loop over pages, with the flags of each; a section that is missing ends it with -3.
unfoldable pub create_pages :
    Supply
    → (flags : ℕ → ℕ → Option (ℕ × ℕ)) → (left i : ℕ) → PageDirectory
    → Tables
    → (v_addr p_addr : ℕ) → Option (ℤ × PageDirectory × Tables)
create_pages s flags zero i pd tables v p = some (pos 0, pd, tables)
create_pages s flags (suc k) i pd tables v p = elim (flags i v) [
  | none ↦ some (neg 3, pd, tables)
  | some (pte_f, pde_f) ↦
      elim (pd_create_mapping (s.memalign i) (s.room i) pd tables v p pte_f pde_f) [
        | none ↦ none
        | some (negsuc e, pd', tables') ↦ some (neg 4, pd', tables')
        | some (pos n, pd', tables') ↦
            create_pages s flags k (i + 1) pd' tables' (add32 v 4096) (add32 p 4096)
      ]
]

-- The frame goes back to the frame manager, and is forgotten, in whatever order; the replies are dropped.
abbrev pub without_frame : Memory → ℤ × Option ℕ × Option Frames → Option Memory
without_frame m (s, w, none) = none
without_frame m (s, w, some fs) = some (record m { frames = fs })

abbrev pub with_manager : Memory → Option (ℤ × FrameManager) → Option Memory
with_manager m none = none
with_manager m (some (s, fm')) = some (record m { fm = fm' })

unfoldable pub give_up : (p_addr : ℕ) → Memory → Option Memory
give_up p m = elim (with_manager m (fm_dealloc m.fm p)) [
  | none ↦ none
  | some m' ↦ without_frame m' (pd_dealloc_frame (some m.frames) p false)
]

abbrev pub replied : ℤ → Option Memory → Outcome
replied s none = none
replied s (some m) = some (s, m)

-- How the loop ends: the batch is aborted and the frame given up, or it is committed and the pages are
-- cleared.
abbrev pub finish : Memory → (base bytes p_addr : ℕ) → Option (ℤ × PageDirectory × Tables) → Outcome
finish m base bytes p none = none
finish m base bytes p (some (negsuc e, pd, tables)) =
    let (pd', tables') = pd_abort_mapping pd tables in
    replied (negsuc e) (give_up p (record m { pd = pd'; tables = tables' }))
finish m base bytes p (some (pos n, pd, tables)) = elim (pd_commit_mapping pd tables) [
  | none ↦ none
  | some (pd', tables') ↦
      some (
        pos 0,
        record m { pd = pd'; tables = tables'; cleared = m.cleared ++ ((base, bytes) ∷ []) },
      )
]

-- From where the frame is remembered. `failed` is the status where no batch can begin.
abbrev pub begun :
    Supply
    → (flags : ℕ → ℕ → Option (ℕ × ℕ)) → (failed : ℤ) → (base num_pages bytes p_addr : ℕ) → Memory
    → ℤ × Option PageDirectory
    → Outcome
begun s flags failed base n bytes p m (negsuc e, pd) = replied failed (give_up p m)
begun s flags failed base n bytes p m (pos k, none) = none
begun s flags failed base n bytes p m (pos k, some pd) =
    finish m base bytes p (create_pages s flags n 0 pd m.tables base p)

unfoldable pub map_pages :
    Supply
    → (flags : ℕ → ℕ → Option (ℕ × ℕ)) → (failed : ℤ) → (base num_pages bytes p_addr : ℕ) → Memory
    → Outcome
map_pages s flags failed base n bytes p m =
    begun s flags failed base n bytes p m (pd_begin_mapping (some m.pd))

-- The frame that was allocated is remembered, or given back.
abbrev pub remembered :
    Supply
    → (flags : ℕ → ℕ → Option (ℕ × ℕ)) → (failed : ℤ) → (base num_pages bytes p_addr : ℕ) → Memory
    → ℤ × Option Frames
    → Outcome
remembered s flags failed base n bytes p m (st, none) = none
remembered s flags failed base n bytes p m (negsuc e, some fs) =
    replied (neg 3) (with_manager (record m { frames = fs }) (fm_dealloc m.fm p))
remembered s flags failed base n bytes p m (pos k, some fs) =
    map_pages s flags failed base n bytes p (record m { frames = fs })

unfoldable pub remember :
    Supply
    → (flags : ℕ → ℕ → Option (ℕ × ℕ)) → (failed : ℤ) → (base num_pages bytes p_addr : ℕ) → Memory
    → Outcome
remember s flags failed base n bytes p m =
    remembered s flags failed base n bytes p m
      (pd_alloc_frame s.metadata s.node (some m.frames) p n)

abbrev pub then_remember :
    Supply
    → (flags : ℕ → ℕ → Option (ℕ × ℕ)) → (failed : ℤ) → (base num_pages bytes : ℕ) → Memory
    → Option (ℤ × Option ℕ × FrameManager × List ℕ)
    → Outcome
then_remember s flags failed base n bytes m none = none
then_remember s flags failed base n bytes m (some (st, none, fm', addrs')) =
    some (neg 2, record m { fm = fm'; addrs = addrs' })
then_remember s flags failed base n bytes m (some (st, some p, fm', addrs')) =
    remember s flags failed base n bytes p (record m { fm = fm'; addrs = addrs' })

-- Frames are allocated for the pages from `base`.
unfoldable pub back_pages :
    Supply
    → (flags : ℕ → ℕ → Option (ℕ × ℕ)) → (failed : ℤ) → (base num_pages bytes : ℕ) → Memory
    → Outcome
back_pages s flags failed base n bytes m =
    then_remember s flags failed base n bytes m (fm_alloc m.fm n m.addrs)

abbrev pub user_flags : ℕ → ℕ → ℕ → Option (ℕ × ℕ)
user_flags n i v = some (page_flags i n, user_wr)

abbrev pub unless_mapped : Outcome → Memory → Option Bool → Outcome
unless_mapped go m none = none
unless_mapped go m (some true) = some (neg 3, m)
unless_mapped go m (some false) = go

unfoldable pub vmm_new_user_page : Supply → Memory → (base num_pages : ℕ) → Outcome
vmm_new_user_page s m base n =
    if n == 0 || ltb 65535 n
    then some (neg 1, m)
    else if ltb (sub32 (add32 base (n * 4096)) 1) base
    then some (neg 2, m)
    else unless_mapped (back_pages s (user_flags n) (neg 4) base n (n * 4096) m) m
        (any_mapped n m.pd m.tables base)

-- The flags of the section that holds a page, or the default ones; `none` where the search fails.
abbrev pub flags_of : ℤ × Option MemSection → Option (ℕ × ℕ)
flags_of (negsuc e, ms) = none
flags_of (pos k, none) = some (5, 5)
flags_of (pos k, some ms) = some (ms.pte_f, ms.pde_f)

abbrev pub section_flags : List MemSection → ℕ → ℕ → Option (ℕ × ℕ)
section_flags secs i v = flags_of (ms_get_bounding_section (some secs) v (add32 v 4095) true)

-- The bounds, aligned outwards to pages: where mapping starts, and how many pages it takes.
abbrev pub section_pages : (low high : ℕ) → ℕ × ℕ
section_pages low high =
    let start = low / 4096 * 4096 in
    let last = sub32 ((high + 4095) % 2 ^ 32 / 4096 * 4096) 1 in
    (start, add32 (sub32 last start) 1 / 4096)

abbrev pub map_bounds : Supply → Memory → List MemSection → ℤ × Option (ℕ × ℕ) → Outcome
map_bounds s m secs (st, none) = none
map_bounds s m secs (st, some (low, high)) =
    let start = (section_pages low high).0 in
    let n = (section_pages low high).1 in
    if n == 0
    then some (pos 0, m)
    else back_pages s (section_flags secs) (neg 3) start n (n * 4096 / 4) m

unfoldable pub vmm_map_sections : Supply → Memory → (secs : List MemSection) → Outcome
vmm_map_sections s m [] = some (neg 1, m)
vmm_map_sections s m (sec ∷ secs) =
    map_bounds s m (sec ∷ secs) (ms_get_bounding_addr (some (sec ∷ secs)) true)
