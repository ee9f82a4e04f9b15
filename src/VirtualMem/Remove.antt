-- ===== src/VirtualMem/Remove.antt =====
-- kern/virtual_mem_mgmt/virtual_mem_mgmt.c: pages are removed, and user memory is cleared.
use custom_os_kernel.Base.{
  ℕ, zero, suc, ◌+◌, ◌≤◌, ◌<◌, ◌≡◌, ◌∙◌, ap, refl, Bool, true, not, ◌||◌, Option, none, some, List,
  [], ◌∷◌, if◌then◌else◌, ltb, add32, sub32,
}
use custom_os_kernel.Base.Int.{ℤ, pos, negsuc, neg}
use custom_os_kernel.FrameManager.Ops.{FrameManager}
use custom_os_kernel.FrameManager.Dealloc.{fm_dealloc}
use custom_os_kernel.PageDirectory.{
  PageDirectory, Tables, pde_index, remove_flags, is_page_aligned, pd_get_mapping, pd_begin_mapping,
  pd_abort_mapping, pd_commit_mapping, pd_remove_mapping,
}
use custom_os_kernel.PageDirectory.Frames.{
  FrameMetadata, Frames, Counted, pd_alloc_frame, pd_dealloc_frame,
}
use custom_os_kernel.PageDirectory.Clear.{pd_dealloc_all_frames, pd_clear_user_space, clear-Unmaps}
use custom_os_kernel.VirtualMem.{Memory, Supply, Outcome, is_user_start, is_user_end}

-- The entry that is stored through the pointer, or the old value.
abbrev pub stored_entry : ℕ → ℤ × Option ℕ → ℕ
stored_entry old (s, none) = old
stored_entry old (s, some e) = e

-- Whether the loop goes on, once the page at `v` was removed.
abbrev pub after_page :
    (PageDirectory → Tables → Option (ℤ × PageDirectory × Tables))
    → Bool
    → Option (ℤ × Option PageDirectory × Tables)
    → Option (ℤ × PageDirectory × Tables)
after_page go last none = none
after_page go last (some (s, none, tables)) = none
after_page go last (some (negsuc e, some pd, tables)) = some (neg 4, pd, tables)
after_page go last (some (pos k, some pd, tables)) =
    if last then some (pos 0, pd, tables) else go pd tables

-- The loop from page `i` on, at `v`; `pte` is the entry that was read last. Each round goes a page up, and
-- the page at 0 is a panic, so 2 ^ 20 rounds are enough.
unfoldable pub remove_pages :
    (rounds : ℕ)
    → Supply
    → (i : ℕ) → PageDirectory
    → Tables
    → (v_addr pte : ℕ) → Option (ℤ × PageDirectory × Tables)
remove_pages zero s i pd tables v pte = none
remove_pages (suc k) s i pd tables v pte =
    if ltb v (sub32 v 4096) then none else elim (pd_get_mapping (some pd) tables v) [
      | none ↦ none
      | some reply ↦
          let pte' = stored_entry pte reply in
          after_page (λ pd' tables'. remove_pages k s (i + 1) pd' tables' (add32 v 4096) pte')
            (is_user_end pte') (pd_remove_mapping (s.room i) (some pd) tables v)
    ]

abbrev pub aborted : ℤ → Memory → Outcome
aborted s m =
    let ended = pd_abort_mapping m.pd m.tables in
    some (s, record m { pd = ended.0; tables = ended.1 })

abbrev pub committed : Memory → Option (PageDirectory × Tables) → Outcome
committed m none = none
committed m (some (pd, tables)) = some (pos 0, record m { pd = pd; tables = tables })

abbrev pub frames_or : Frames → Option Frames → Frames
frames_or fs none = fs
frames_or fs (some fs') = fs'

-- The frame is given back; where the frame manager refuses it, it is remembered again.
abbrev pub after_dealloc : Supply → Memory → (p_addr size : ℕ) → Option (ℤ × FrameManager) → Outcome
after_dealloc s m p size none = none
after_dealloc s m p size (some (negsuc e, fm')) = aborted (neg 6) (record m {
  fm = fm';
  frames = frames_or m.frames (pd_alloc_frame s.metadata s.node (some m.frames) p size).1;
})
after_dealloc s m p size (some (pos k, fm')) =
    committed (record m { fm = fm' }) (pd_commit_mapping m.pd m.tables)

abbrev pub after_forget : Supply → Memory → (p_addr : ℕ) → ℤ × Option ℕ × Option Frames → Outcome
after_forget s m p (pos k, some size, some fs) =
    after_dealloc s (record m { frames = fs }) p size (fm_dealloc m.fm p)
after_forget s m p (pos k, some size, none) = none
after_forget s m p (pos k, none, fs) = none
after_forget s m p (negsuc e, size, fs) = aborted (neg 5) m

abbrev pub after_remove :
    Supply → Memory → (p_addr : ℕ) → Option (ℤ × PageDirectory × Tables) → Outcome
after_remove s m p none = none
after_remove s m p (some (negsuc e, pd, tables)) =
    aborted (neg 4) (record m { pd = pd; tables = tables })
after_remove s m p (some (pos k, pd, tables)) =
    after_forget s (record m { pd = pd; tables = tables }) p
      (pd_dealloc_frame (some m.frames) p true)

-- The reply of `pd_begin_mapping` is dropped.
abbrev pub begun_pd : PageDirectory → ℤ × Option PageDirectory → PageDirectory
begun_pd pd (s, none) = pd
begun_pd pd (s, some pd') = pd'

abbrev pub remove_from :
    (rounds : ℕ) → Supply → Memory → (base : ℕ) → Option (ℤ × Option ℕ) → Outcome
remove_from rounds s m base none = none
remove_from rounds s m base (some (negsuc e, pte)) = some (neg 2, m)
remove_from rounds s m base (some (pos k, none)) = none
remove_from rounds s m base (some (pos k, some pte)) =
    if not (is_user_start pte)
    then some (neg 3, m)
    else after_remove s m (remove_flags pte)
        (remove_pages rounds s 0 (begun_pd m.pd (pd_begin_mapping (some m.pd))) m.tables base 0)

unfoldable pub vmm_remove_user_page :
    (user_mem_start rounds : ℕ) → Supply → Memory → (base : ℕ) → Outcome
vmm_remove_user_page start rounds s m base =
    if ltb base start || not (is_page_aligned base)
    then some (neg 1, m)
    else remove_from rounds s m base (pd_get_mapping (some m.pd) m.tables base)

-- The frames go back one by one; the replies are dropped.
unfoldable pub give_all : FrameManager → List FrameMetadata → Option FrameManager
give_all fm [] = some fm
give_all fm (f ∷ fs) = elim (fm_dealloc fm f.p_addr) [
  | none ↦ none
  | some (s, fm') ↦ give_all fm' fs
]

abbrev pub cleared_memory :
    Memory → Frames → ℤ × PageDirectory × Tables → Option FrameManager → Outcome
cleared_memory m fs (s, pd, tables) none = none
cleared_memory m fs (s, pd, tables) (some fm') =
    some (pos 0, record m { pd = pd; frames = fs; tables = tables; fm = fm' })

unfoldable pub vmm_clear_user_space : (kernel_pdes : ℕ) → Memory → Outcome
vmm_clear_user_space kernel_pdes m =
    let all = pd_dealloc_all_frames (some m.frames) true in
    cleared_memory m (frames_or m.frames all.2) (pd_clear_user_space kernel_pdes m.pd m.tables)
      (give_all m.fm all.1)

-- The frame manager comes from the first to the second by `fm_dealloc` of each of these frames, in their
-- order.
pub data GivenBack : FrameManager → List FrameMetadata → FrameManager → Type 0 where
  nothing : {fm : FrameManager} → GivenBack fm [] fm
  gives :
      {fm fm1 fm2 : FrameManager} {f : FrameMetadata} {fs : List FrameMetadata} {s : ℤ}
      → fm_dealloc fm f.p_addr ≡ some (s, fm1)
      → GivenBack fm1 fs fm2
      → GivenBack fm (f ∷ fs) fm2

abbrev then_rest : List FrameMetadata → Option (ℤ × FrameManager) → Option FrameManager
then_rest fs none = none
then_rest fs (some (s, fm)) = give_all fm fs

give_all-GivenBack :
    {fm fm' : FrameManager} {fs : List FrameMetadata}
    → GivenBack fm fs fm'
    → give_all fm fs ≡ some fm'
unfolding give_all
give_all-GivenBack nothing = refl
give_all-GivenBack (gives {fs = rest} e g) = ap (then_rest rest) e ∙ give_all-GivenBack g

-- Where fm_dealloc of each remembered frame in turn ends, with success or refused, clearing user space
-- returns 0 and leaves the frame manager to which all of these calls lead. Afterwards no frame is
-- remembered and the pages are counted, no address from the kernel's entries on is mapped, and the
-- kernel's entries are as before.
pub clear_user_space-Unmaps :
    (kernel_pdes : ℕ) (m : Memory) (fm' : FrameManager)
    → GivenBack m.fm m.frames.p_addr_list fm'
    → (m' : Memory) × (vmm_clear_user_space kernel_pdes m ≡ some (pos 0, m'))
      × (m'.fm ≡ fm')
      × (m'.frames.p_addr_list ≡ [])
      × Counted m'.frames
      × ((v : ℕ)
          → kernel_pdes ≤ pde_index v
          → pd_get_mapping (some m'.pd) m'.tables v ≡ some (neg 2, none))
      × ((j : ℕ) → j < kernel_pdes → m'.pd.directory j ≡ m.pd.directory j)
unfolding vmm_clear_user_space pd_dealloc_all_frames
clear_user_space-Unmaps kernel_pdes m fm' given =
    let (pd', tables', run, unmapped, kept) = clear-Unmaps kernel_pdes m.pd m.tables in
    let fs : Frames = record { num_pages = 0; p_addr_list = [] } in
    (
      record m { pd = pd'; frames = fs; tables = tables'; fm = fm' },
      ap (λ o. cleared_memory m fs o (give_all m.fm m.frames.p_addr_list)) run
          ∙ ap (cleared_memory m fs (pos 0, pd', tables')) (give_all-GivenBack given),
      refl,
      refl,
      refl,
      unmapped,
      kept,
    )
