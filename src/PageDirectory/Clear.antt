-- ===== src/PageDirectory/Clear.antt =====
-- kern/virtual_mem_mgmt/page_directory.c: a page directory is cleared of user memory and destroyed.
use custom_os_kernel.Base.{
  ℕ, zero, suc, ◌+◌, ◌-◌, ◌≤◌, ◌<◌, ◌≡◌, ◌∙◌, Bool, refl, false, Bool-cases, inl, inr, Option, none,
  some, List, [], if◌then◌else◌, ◌==◌, arith, length,
}
use custom_os_kernel.Base.Int.{ℤ, pos, neg}
use custom_os_kernel.PageDirectory.{
  PageDirectory, Tables, entry_present, remove_flags, put, put_table, pde_index, pd_get_mapping,
}
use custom_os_kernel.PageDirectory.Frames.{FrameMetadata, Frames}

-- The frames that are remembered, from the first one on, are what is written to the two arrays.
-- `wanted` says that `addr_list` is not NULL.
unfoldable pub pd_dealloc_all_frames :
    Option Frames → (wanted : Bool) → ℤ × List FrameMetadata × Option Frames
pd_dealloc_all_frames none wanted = (neg 1, [], none)
pd_dealloc_all_frames (some pd) wanted =
    if wanted
    then (pos 0, pd.p_addr_list, some (record { num_pages = 0; p_addr_list = [] }))
    else (neg 1, [], some pd)

-- The loop over the entries from `i` on: an entry that is present is reset and its table freed.
unfoldable pub clear_entries : (left i : ℕ) → (ℕ → ℕ) → Tables → (ℕ → ℕ) × Tables
clear_entries zero i directory tables = (directory, tables)
clear_entries (suc k) i directory tables =
    if entry_present (directory i)
    then clear_entries k (i + 1) (put i 0 directory)
        (put_table (remove_flags (directory i)) none tables)
    else clear_entries k (i + 1) directory tables

-- `kernel_pdes` is how many entries the kernel has, from the first one on.
unfoldable pub pd_clear_user_space :
    (kernel_pdes : ℕ) → PageDirectory → Tables → ℤ × PageDirectory × Tables
pd_clear_user_space kernel_pdes pd tables =
    let after = clear_entries (1024 - kernel_pdes) kernel_pdes pd.directory tables in
    (pos 0, record pd { directory = after.0 }, after.1)

-- The loop of `pd_destroy`, which frees the tables and keeps the entries.
unfoldable pub free_tables : (left i : ℕ) → (ℕ → ℕ) → Tables → Tables
free_tables zero i directory tables = tables
free_tables (suc k) i directory tables = free_tables k (i + 1) directory (
    if entry_present (directory i)
    then put_table (remove_flags (directory i)) none tables
    else tables)

-- The directory itself is freed with its list; what is left is the tables. `none` is the panic on frames
-- that are still remembered.
unfoldable pub pd_destroy : (kernel_pdes : ℕ) → PageDirectory → Frames → Tables → Option Tables
pd_destroy kernel_pdes pd fs tables =
    if length fs.p_addr_list == 0
    then some (free_tables (1024 - kernel_pdes) kernel_pdes pd.directory tables)
    else none

-- What the loop leaves of the entries.
clear_entries-at :
    (left i : ℕ) (directory : ℕ → ℕ) (tables : Tables) (j : ℕ)
    → (j < i → (clear_entries left i directory tables).0 j ≡ directory j)
      × (i ≤ j → j < i + left → entry_present ((clear_entries left i directory tables).0 j) ≡ false)
      × (entry_present (directory j) ≡ false
          → entry_present ((clear_entries left i directory tables).0 j) ≡ false)
unfolding clear_entries
clear_entries-at zero i directory tables j = (λ lt. refl, λ le lt. absurd (omega arith), λ h. h)
clear_entries-at (suc k) i directory tables j = elim (Bool-cases (entry_present (directory i))) [
  | inl e ↦
      let (before, after, absent) =
        clear_entries-at k (i + 1) (put i 0 directory)
          (put_table (remove_flags (directory i)) none tables) j in
      rw (e, clear_entries)
        (
          λ lt. let off : (j == i) ≡ false = ground arith in before (omega arith) ∙ rw off refl,
          λ le lt. elim (Bool-cases (j == i)) [
            | inl at ↦ absent (rw at refl)
            | inr off ↦ after (ground (arith, off, le)) (omega arith)
          ],
          λ h. absent (elim (Bool-cases (j == i)) [ inl at ↦ rw at refl | inr off ↦ rw off h ]),
        )
  | inr e ↦
      let (before, after, absent) = clear_entries-at k (i + 1) directory tables j in
      rw (e, clear_entries)
        (
          λ lt. before (omega arith),
          λ le lt. elim (Bool-cases (j == i)) [
            | inl at ↦ absent (let is : j ≡ i = ground arith in rw is e)
            | inr off ↦ after (ground (arith, off, le)) (omega arith)
          ],
          absent,
        )
]

-- Clearing user space returns 0; afterwards no address from the kernel's entries on is mapped, and the
-- kernel's entries are as before.
pub clear-Unmaps :
    (kernel_pdes : ℕ) (pd : PageDirectory) (tables : Tables)
    → (pd' : PageDirectory) × (tables' : Tables) × (pd_clear_user_space kernel_pdes pd tables
        ≡ (pos 0, pd', tables'))
      × ((v : ℕ)
          → kernel_pdes ≤ pde_index v
          → pd_get_mapping (some pd') tables' v ≡ some (neg 2, none))
      × ((j : ℕ) → j < kernel_pdes → pd'.directory j ≡ pd.directory j)
unfolding pd_clear_user_space pd_get_mapping
clear-Unmaps kernel_pdes pd tables =
    let after = clear_entries (1024 - kernel_pdes) kernel_pdes pd.directory tables in
    (
      record pd { directory = after.0 },
      after.1,
      refl,
      λ v le.
          let gone =
            (clear_entries-at (1024 - kernel_pdes) kernel_pdes pd.directory tables (pde_index v)).1
              le (omega (arith, le)) in
          rw gone refl,
      λ j lt. (clear_entries-at (1024 - kernel_pdes) kernel_pdes pd.directory tables j).0 lt,
    )
