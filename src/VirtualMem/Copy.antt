-- ===== src/VirtualMem/Copy.antt =====
-- kern/virtual_mem_mgmt/virtual_mem_mgmt.c: the address space of the running process is copied to a
-- new directory, which is not NULL.
mod Examples
use custom_os_kernel.Base.{
  ℕ, ◌+◌, ◌*◌, ◌-◌, ◌<◌, ◌≤◌, ◌≡◌, refl, sym, ap, ◌∙◌, Bool, true, false, Option, none, some, List,
  arith, add32, ◌∷◌,
}
use custom_os_kernel.Base.Int.{ℤ, pos, negsuc, neg}
use custom_os_kernel.FrameManager.Ops.{FrameManager, fm_alloc}
use custom_os_kernel.FrameManager.Dealloc.{fm_dealloc}
use custom_os_kernel.PageDirectory.{PageDirectory, Table}
use custom_os_kernel.PageDirectory.Copy.{Copying, pd_deep_copy}
use custom_os_kernel.PageDirectory.Copy.Lookup.{AddressSpaceCopied, CanCopy}
use custom_os_kernel.PageDirectory.Copy.Mappings.{pd_deep_copy-AddressSpaceCopied}
use custom_os_kernel.PageDirectory.Frames.{Frames, pd_alloc_frame}
use custom_os_kernel.VirtualMem.{Memory, with_manager, give_up}

-- What malloc and memalign answer, and what stands in the array of saved entries before.
pub record CopySupply : Type 0 where
  pub metadata : Bool
  pub node : Bool
  pub memalign : ℕ → ℕ
  pub buffer : ℕ → ℕ → Bool
  pub backup : ℕ → ℕ

module _ {ℓ} {A : Type ℓ} (kernel_pdes : ℕ) (s : CopySupply) where
  abbrev pub given_up : (failed : ℤ) → (ℕ → A) → Option Memory → Option (ℤ × Memory × (ℕ → A))
  given_up failed pages none = none
  given_up failed pages (some m) = some (failed, m, pages)

  abbrev pub copied_to : Memory → Copying A → Memory
  copied_to m c = record m { pd = record m.pd { directory = c.directory }; tables = c.tables }

  abbrev pub after_copy :
      (p_addr : ℕ) → Memory → Option (ℤ × Copying A) → Option (ℤ × Memory × (ℕ → A))
  after_copy p m none = none
  after_copy p m (some (pos n, c)) = some (pos 0, copied_to m c, c.pages)
  after_copy p m (some (negsuc e, c)) = given_up (neg 5) c.pages (give_up p (copied_to m c))

  abbrev pub after_frame :
      (src : PageDirectory)
      → (ℕ → A)
      → (p_addr : ℕ) → Memory
      → ℤ × Option Frames
      → Option (ℤ × Memory × (ℕ → A))
  after_frame src pages p m (st, none) = none
  after_frame src pages p m (negsuc e, some fs) =
      given_up (neg 4) pages (with_manager (record m { frames = fs }) (fm_dealloc m.fm p))
  after_frame src pages p m (pos n, some fs) =
      after_copy p (record m { frames = fs })
        (pd_deep_copy kernel_pdes s.memalign s.buffer s.backup m.pd.directory src.directory m.tables
          pages p)

  abbrev pub after_alloc :
      (src : PageDirectory)
      → (num_pages : ℕ) → (ℕ → A)
      → Memory
      → Option (ℤ × Option ℕ × FrameManager × List ℕ)
      → Option (ℤ × Memory × (ℕ → A))
  after_alloc src n pages m none = none
  after_alloc src n pages m (some (st, none, fm', addrs')) =
      some (neg 3, record m { fm = fm'; addrs = addrs' }, pages)
  after_alloc src n pages m (some (st, some p, fm', addrs')) =
      after_frame src pages p (record m { fm = fm'; addrs = addrs' })
        (pd_alloc_frame s.metadata s.node (some m.frames) p n)

  -- The directory of the running process with its number of pages, if there is one; `m` holds the
  -- new directory.
  unfoldable pub vmm_deep_copy :
      Option (PageDirectory × ℕ) → Memory → (ℕ → A) → Option (ℤ × Memory × (ℕ → A))
  vmm_deep_copy none m pages = some (neg 2, m, pages)
  vmm_deep_copy (some (src, n)) m pages = after_alloc src n pages m (fm_alloc m.fm n m.addrs)

-- The new directory is a copy on the frame at `p`, which it remembers.
pub record CopiedTo {ℓ} {A : Type ℓ} (kernel_pdes p n : ℕ) (src : PageDirectory) (m : Memory)
    (pages : ℕ → A) (m' : Memory) (pages' : ℕ → A) : Type ℓ where
  pub copied :
      AddressSpaceCopied kernel_pdes p (p + 4096 * n) src m.pd m.tables pages m'.pd m'.tables pages'
  pub frame : m'.frames.p_addr_list ≡ record { p_addr = p; num_pages = n } ∷ m.frames.p_addr_list
  pub counted : m'.frames.num_pages ≡ add32 m.frames.num_pages n

-- Where the frame manager gives a frame at p for the n pages of the running process, the new tables
-- and buffers are there, the user pages of the directory number n at most and lie outside the new
-- frame, and the metadata and its list node can be had, the copy returns 0. A user address that the
-- source maps is mapped in the new directory with the same flags, to a page of the new frame that
-- holds what the page of the source did; an address that the source does not map is not mapped,
-- where the new directory had no entry for it. The mappings of the source, the kernel entries of
-- the new directory and all pages outside the new frame are as before. The new directory remembers
-- the frame, and the frame manager is as the allocation left it.
pub vmm_deep_copy-CopiedTo {ℓ} :
    {A : Type ℓ}
    → (kernel_pdes : ℕ) → (s : CopySupply) → (src : PageDirectory) → (pt : ℕ → Table) → (n p : ℕ)
    → (st : ℤ) → (fm' : FrameManager) → (addrs' : List ℕ) → (m : Memory) → (pages : ℕ → A)
    → (s.metadata ≡ true)
    → (s.node ≡ true)
    → fm_alloc m.fm n m.addrs ≡ some (st, some p, fm', addrs')
    → CanCopy kernel_pdes s.memalign s.buffer p (p + 4096 * n) src.directory pt m.tables
    → (m' : Memory) × (pages' : ℕ → A) × (vmm_deep_copy kernel_pdes s (some (src, n)) m pages
        ≡ some (pos 0, m', pages'))
      × CopiedTo kernel_pdes p n src m pages m' pages'
      × (m'.fm ≡ fm')
unfolding vmm_deep_copy pd_alloc_frame
vmm_deep_copy-CopiedTo kernel_pdes s src pt n p st fm' addrs' m pages metadata node taken can =
    let (c, e, copied) =
      pd_deep_copy-AddressSpaceCopied kernel_pdes s.memalign s.buffer p (p + 4096 * n) s.backup src
        m.pd pt m.tables pages can in
    let fs : Frames = record {
      num_pages = add32 m.frames.num_pages n;
      p_addr_list = record { p_addr = p; num_pages = n } ∷ m.frames.p_addr_list;
    } in
    let m0 : Memory = record m { fm = fm'; addrs = addrs' } in
    let remembered : pd_alloc_frame s.metadata s.node (some m.frames) p n ≡ (pos 0, some fs) =
      rw (metadata, node) refl in
    (
      copied_to kernel_pdes s (record m0 { frames = fs }) c,
      c.pages,
      ap (after_alloc kernel_pdes s src n pages m) taken
          ∙ ap (after_frame kernel_pdes s src pages p m0) remembered
          ∙ ap (after_copy kernel_pdes s p (record m0 { frames = fs })) e,
      record { copied = copied; frame = refl; counted = refl },
      refl,
    )
