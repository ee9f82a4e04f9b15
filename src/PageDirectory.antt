-- ===== src/PageDirectory.antt =====
-- kern/virtual_mem_mgmt/page_directory.c: the mappings of a page directory. The kernel addresses
-- page tables directly, so memory is a partial function from the base of a page to its table, and
-- `none` is a page that is not allocated. The lists of a directory are the values that its linked
-- lists hold, in order. A result `none` is a run that uses a table that is not allocated, or a
-- variable that was never stored.
pub mod Bits
pub mod Inv
pub mod Create
pub mod Map
pub mod Batch
pub mod Whole
pub mod Frames
pub mod Access
mod Examples
pub mod Commit
pub mod Clear
pub mod Kernel
pub mod Copy
use custom_os_kernel.Base.{
  ℕ, ◌+◌, ◌-◌, ◌*◌, ◌/◌, ◌%◌, Bool, true, false, not, ◌||◌, ◌&&◌, Option, none, some, List, [], ◌∷◌,
  ◌++◌, if◌then◌else◌, ◌==◌,
}
use custom_os_kernel.Base.Int.{ℤ, pos, neg}
use custom_os_kernel.PageDirectory.Bits.{bit_or}

-- `mapping_task_t`; a resource of 0 is NULL.
pub record Task : Type 0 where
  pub v_addr : ℕ
  pub pte : ℕ
  pub resource : ℕ

-- `page_directory_t`, less its frames; `none` is a list pointer that is NULL.
pub record PageDirectory : Type 0 where
  pub directory : ℕ → ℕ
  pub mapping_tasks : Option (List Task)
  pub batch_enabled : Bool

abbrev pub Table : Type 0
Table = ℕ → ℕ

abbrev pub Tables : Type 0
Tables = ℕ → Option Table

-- The macros on entries and addresses.
abbrev pub add_flags : ℕ → ℕ → ℕ
add_flags v f = bit_or 32 v f

abbrev pub remove_flags : ℕ → ℕ
remove_flags v = v - v % 4096

abbrev pub is_page_aligned : ℕ → Bool
is_page_aligned a = a % 4096 == 0

-- `NTH_BIT` of bits 0, 1 and 2.
abbrev pub entry_present : ℕ → Bool
entry_present v = v % 2 == 1

abbrev pub rw_bit : ℕ → ℕ
rw_bit v = v / 2 % 2

abbrev pub mode_bit : ℕ → ℕ
mode_bit v = v / 4 % 2

-- The privilege and the access.
abbrev pub entry_permissions : ℕ → ℕ × ℕ
entry_permissions v = (mode_bit v, rw_bit v)

-- The top 10 bits, and the next 10 bits.
abbrev pub pde_index : ℕ → ℕ
pde_index v_addr = v_addr / 4194304 % 1024

abbrev pub pte_index : ℕ → ℕ
pte_index v_addr = v_addr / 4096 % 1024

-- A store to an entry.
abbrev pub put : ℕ → ℕ → Table → Table
put i x table j = if j == i then x else table j

abbrev pub put_table : ℕ → Option Table → Tables → Tables
put_table base t tables b = if b == base then t else tables b

-- `page_table[i] = x`
abbrev pub store : (base i x : ℕ) → Tables → Option Tables
store base i x tables = elim (tables base) [
  | none ↦ none
  | some table ↦ some (put_table base (some (put i x table)) tables)
]

unfoldable pub pd_get_mapping : Option PageDirectory → Tables → ℕ → Option (ℤ × Option ℕ)
pd_get_mapping none tables v_addr = some (neg 1, none)
pd_get_mapping (some pd) tables v_addr =
    let pde = pd.directory (pde_index v_addr) in
    if not (entry_present pde) then some (neg 2, none) else elim (tables (remove_flags pde)) [
      | none ↦ none
      | some table ↦
          if not (entry_present (table (pte_index v_addr)))
          then some (neg 3, none)
          else some (pos 0, some (table (pte_index v_addr)))
    ]

abbrev pub both_user : ℕ × ℕ → ℕ × ℕ → ℕ × ℕ
both_user (pd_priv, pd_access) (pt_priv, pt_access) =
    let priv = if pd_priv == 1 && pt_priv == 1 then 1 else 0 in
    (priv, if priv == 1 then (if pd_access == 1 && pt_access == 1 then 1 else 0) else 1)

unfoldable pub pd_get_permissions : Option PageDirectory → Tables → ℕ → Option (ℤ × Option (ℕ × ℕ))
pd_get_permissions none tables v_addr = some (neg 1, none)
pd_get_permissions (some pd) tables v_addr =
    let pde = pd.directory (pde_index v_addr) in
    if not (entry_present pde) then some (neg 2, none) else elim (tables (remove_flags pde)) [
      | none ↦ none
      | some table ↦
          let pte = table (pte_index v_addr) in
          if not (entry_present pte)
          then some (neg 3, none)
          else some (pos 0, some (both_user (entry_permissions pde) (entry_permissions pte)))
    ]

unfoldable pub pd_is_user_read_write : Option PageDirectory → Tables → ℕ → Option Bool
pd_is_user_read_write p tables v_addr = elim (pd_get_permissions p tables v_addr) [
  | none ↦ none
  | some (_, none) ↦ none
  | some (_, some (priv, access)) ↦ some (priv == 1 && access == 1)
]

unfoldable pub pd_is_user_readable : Option PageDirectory → Tables → ℕ → Option Bool
pd_is_user_readable p tables v_addr = elim (pd_get_permissions p tables v_addr) [
  | none ↦ none
  | some (_, none) ↦ none
  | some (_, some (priv, access)) ↦ some (priv == 1)
]

unfoldable pub pd_begin_mapping : Option PageDirectory → ℤ × Option PageDirectory
pd_begin_mapping none = (neg 1, none)
pd_begin_mapping (some pd) = elim pd.mapping_tasks [
  | none ↦ (neg 1, some pd)
  | some tasks ↦
      if pd.batch_enabled
      then (neg 2, some pd)
      else (pos 0, some (record pd { batch_enabled = true }))
]

-- The tasks of a list pointer; `ll_size` of NULL is negative, so the loops do not start.
abbrev pub tasks_of : Option (List Task) → List Task
tasks_of none = []
tasks_of (some tasks) = tasks

abbrev pub emptied : Option (List Task) → Option (List Task)
emptied none = none
emptied (some tasks) = some []

-- The loop of `pd_abort_mapping`.
abbrev pub abort_tasks : List Task → Tables → Tables
abort_tasks [] tables = tables
abort_tasks (t ∷ ts) tables =
    abort_tasks ts (if t.resource == 0 then tables else put_table t.resource none tables)

unfoldable pub pd_abort_mapping : PageDirectory → Tables → PageDirectory × Tables
pd_abort_mapping pd tables = (
  record pd { mapping_tasks = emptied pd.mapping_tasks; batch_enabled = false },
  abort_tasks (tasks_of pd.mapping_tasks) tables,
)

-- The loop of `pd_commit_mapping`.
unfoldable pub commit_tasks : (directory : ℕ → ℕ) → List Task → Tables → Option Tables
commit_tasks directory [] tables = some tables
commit_tasks directory (t ∷ ts) tables =
    elim (store (remove_flags (directory (pde_index t.v_addr))) (pte_index t.v_addr) t.pte tables) [
      | none ↦ none
      | some tables' ↦ commit_tasks directory ts tables'
    ]

unfoldable pub pd_commit_mapping : PageDirectory → Tables → Option (PageDirectory × Tables)
pd_commit_mapping pd tables = elim (commit_tasks pd.directory (tasks_of pd.mapping_tasks) tables) [
  | none ↦ none
  | some tables' ↦
      some (record pd { mapping_tasks = emptied pd.mapping_tasks; batch_enabled = false }, tables')
]

-- Where the entry is not present, `memalign` gives the base of a new table, 0 being NULL, which is
-- cleared and entered; the base is the resource.
unfoldable pub enter_table :
    (memalign : ℕ)
    → PageDirectory
    → Tables
    → (pde_i pde_flags : ℕ) → Option (ℕ × PageDirectory × Tables)
enter_table memalign pd tables pde_i pde_flags =
    if entry_present (pd.directory pde_i)
    then some (0, pd, tables)
    else if memalign == 0
    then none
    else some (
      memalign,
      record pd { directory = put pde_i (add_flags memalign pde_flags) pd.directory },
      put_table memalign (some (λ i. 0)) tables,
    )

-- What `malloc` of a task and `ll_add_last` answer.
pub record Room : Type 0 where
  pub task : Bool
  pub node : Bool

abbrev pub with_task : PageDirectory → Task → PageDirectory
with_task pd t = record pd { mapping_tasks = some (tasks_of pd.mapping_tasks ++ (t ∷ [])) }

-- A NULL list makes `ll_add_last` fail.
abbrev pub has_list : PageDirectory → Bool
has_list pd = elim pd.mapping_tasks [ none ↦ false | some _ ↦ true ]

unfoldable pub pd_create_mapping :
    (memalign : ℕ)
    → Room
    → PageDirectory
    → Tables
    → (v_addr p_addr pte_flags pde_flags : ℕ) → Option (ℤ × PageDirectory × Tables)
pd_create_mapping memalign room pd tables v_addr p_addr pte_flags pde_flags =
    if not (is_page_aligned v_addr) || not (is_page_aligned p_addr)
    then some (neg 1, pd, tables)
    else let pte = add_flags p_addr pte_flags in
      elim (enter_table memalign pd tables (pde_index v_addr) pde_flags) [
        | none ↦ some (neg 2, pd, tables)
        | some (resource, pd', tables') ↦
            if pd'.batch_enabled
            then if not room.task
              then some (neg 3, pd', tables')
              else if not (room.node && has_list pd')
              then some
                  (neg 4, pd', if resource == 0 then tables' else put_table resource none tables')
              else some (
                pos 0,
                with_task pd' (record { v_addr = v_addr; pte = pte; resource = resource }),
                tables',
              )
            else elim (store (remove_flags (pd'.directory (pde_index v_addr))) (pte_index v_addr)
                pte tables') [ none ↦ none | some tables'' ↦ some (pos 0, pd', tables'') ]
      ]

unfoldable pub pd_remove_mapping :
    Room → Option PageDirectory → Tables → (v_addr : ℕ) → Option (ℤ × Option PageDirectory × Tables)
pd_remove_mapping room none tables v_addr = some (neg 1, none, tables)
pd_remove_mapping room (some pd) tables v_addr =
    let pde = pd.directory (pde_index v_addr) in
    if not (is_page_aligned v_addr)
    then some (neg 1, some pd, tables)
    else if not (entry_present pde)
    then some (neg 2, some pd, tables)
    else elim (tables (remove_flags pde)) [
      | none ↦ none
      | some table ↦
          if not (entry_present (table (pte_index v_addr)))
          then some (neg 3, some pd, tables)
          else if pd.batch_enabled
          then if not room.task
            then some (neg 3, some pd, tables)
            else if not (room.node && has_list pd)
            then some (neg 4, some pd, tables)
            else some (
              pos 0,
              some (with_task pd (record { v_addr = v_addr; pte = 0; resource = 0 })),
              tables,
            )
          else some (
            pos 0,
            some pd,
            put_table (remove_flags pde) (some (put (pte_index v_addr) 0 table)) tables,
          )
    ]
