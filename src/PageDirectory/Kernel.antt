-- ===== src/PageDirectory/Kernel.antt =====
-- kern/virtual_mem_mgmt/page_directory.c: the mappings of the kernel, and new page directories.
pub mod Direct
mod Examples
use custom_os_kernel.Base.{
  ℕ, zero, suc, ◌+◌, ◌-◌, ◌*◌, ◌/◌, ◌%◌, ◌^◌, ◌<◌, ◌≤◌, ◌≡◌, ◌≢◌, ◌⊎◌, inl, inr, refl, sym, ap,
  subst, ◌∙◌, Bool, true, false, not, Option, none, some, [], if◌then◌else◌, arith, ◌==◌, ltb,
  Bool-cases,
}
use custom_os_kernel.Base.Int.{ℤ, pos, negsuc, neg}
use custom_os_kernel.PageDirectory.{
  PageDirectory, Tables, Room, entry_present, remove_flags, pde_index, pte_index, pd_get_mapping,
  pd_create_mapping,
}
use custom_os_kernel.PageDirectory.Inv.{WellFormed, found, OtherPage}
use custom_os_kernel.PageDirectory.Create.{Fresh}
use custom_os_kernel.PageDirectory.Map.{Mapped, create-Mapped}
use custom_os_kernel.PageDirectory.Frames.{Frames}

-- The variables of the file.
pub record KernelSpace : Type 0 where
  pub kernel_pde : ℕ → ℕ
  pub is_kernel_initialized : Bool

-- Present, writable, of the supervisor, and for a page also global.
abbrev pub kernel_pte_flags : ℕ
kernel_pte_flags = 259

abbrev pub kernel_pde_flags : ℕ
kernel_pde_flags = 3

-- The loop of `pd_init_kernel` over the pages from `i` on. `memalign` and `room` are what each call gets.
unfoldable pub map_kernel :
    (memalign : ℕ → ℕ)
    → (room : ℕ → Room) → (left i : ℕ) → PageDirectory
    → Tables
    → Option (ℤ × PageDirectory × Tables)
map_kernel memalign room zero i pd tables = some (pos 0, pd, tables)
map_kernel memalign room (suc k) i pd tables =
    elim (pd_create_mapping (memalign i) (room i) pd tables (i * 4096) (i * 4096) kernel_pte_flags
      kernel_pde_flags) [
        | none ↦ none
        | some (negsuc e, pd', tables') ↦ some (neg 1, pd', tables')
        | some (pos n, pd', tables') ↦ map_kernel memalign room k (i + 1) pd' tables'
      ]

abbrev pub kernel_mapped : Option (ℤ × PageDirectory × Tables) → Option (ℤ × KernelSpace × Tables)
kernel_mapped none = none
kernel_mapped (some (negsuc e, pd, tables)) =
    some (negsuc e, record { kernel_pde = pd.directory; is_kernel_initialized = false }, tables)
kernel_mapped (some (pos n, pd, tables)) =
    some (pos 0, record { kernel_pde = pd.directory; is_kernel_initialized = true }, tables)

-- A second call panics. The list of tasks of the temporary directory is not read outside a batch.
unfoldable pub pd_init_kernel :
    (num_kernel_pte : ℕ)
    → (memalign : ℕ → ℕ) → (room : ℕ → Room) → KernelSpace
    → Tables
    → Option (ℤ × KernelSpace × Tables)
pd_init_kernel num_kernel_pte memalign room k tables =
    if k.is_kernel_initialized
    then none
    else kernel_mapped (
        map_kernel memalign room (num_kernel_pte - 1) 1
          (record { directory = k.kernel_pde; mapping_tasks = none; batch_enabled = false }) tables)

-- Without the mappings of the kernel it panics.
unfoldable pub initialize_kernel :
    (kernel_pdes : ℕ) → KernelSpace → Option (ℕ → ℕ) → Option (ℤ × Option (ℕ → ℕ))
initialize_kernel kernel_pdes k none = some (neg 1, none)
initialize_kernel kernel_pdes k (some directory) =
    if k.is_kernel_initialized
    then some (pos 0, some (λ j. if ltb j kernel_pdes then k.kernel_pde j else directory j))
    else none

-- What memalign and malloc give for a new directory.
pub record NewDirectory : Type 0 where
  pub directory : Bool
  pub mapping_tasks : Bool
  pub p_addr_list : Bool

abbrev pub with_lists :
    NewDirectory → Option (ℤ × Option (ℕ → ℕ)) → Option (ℤ × Option (PageDirectory × Frames))
with_lists g none = none
with_lists g (some (s, none)) = some (neg 2, none)
with_lists g (some (s, some directory)) =
    if not g.mapping_tasks
    then some (neg 3, none)
    else if not g.p_addr_list
    then some (neg 4, none)
    else some (
      pos 0,
      some (
        record { directory = directory; mapping_tasks = some []; batch_enabled = false },
        record { num_pages = 0; p_addr_list = [] },
      ),
    )

-- The lists that malloc gives are never NULL, so they can be initialised.
unfoldable pub pd_init :
    (kernel_pdes : ℕ) → NewDirectory → KernelSpace → Option (ℤ × Option (PageDirectory × Frames))
pd_init kernel_pdes g k =
    if not g.directory
    then some (neg 1, none)
    else with_lists g (initialize_kernel kernel_pdes k (some (λ j. 0)))
