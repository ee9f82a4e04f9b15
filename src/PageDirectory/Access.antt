-- ===== src/PageDirectory/Access.antt =====
-- Who may use a page, and what a batch that is aborted leaves.
use custom_os_kernel.Base.{
  ℕ, ◌%◌, ◌≡◌, refl, true, false, ◌&&◌, Bool, none, some, [], ◌∷◌, arith, ◌==◌,
}
use custom_os_kernel.Base.Int.{pos}
use custom_os_kernel.PageDirectory.{
  PageDirectory, Tables, Task, entry_present, add_flags, remove_flags, pde_index, pte_index,
  mode_bit, rw_bit, both_user, entry_permissions, put, put_table, pd_get_mapping,
  pd_get_permissions, pd_is_user_read_write, pd_is_user_readable, pd_create_mapping,
  pd_abort_mapping, enter_table,
}
use custom_os_kernel.PageDirectory.Inv.{WellFormed}
use custom_os_kernel.PageDirectory.Create.{
  Fresh, PresentFlags, add_flags-present, remove_flags-add_flags,
}
use custom_os_kernel.PageDirectory.Map.{get-entry}
use custom_os_kernel.PageDirectory.Batch.{batched, plenty}

-- The bit is set in both entries of an address.
abbrev pub both_set : (ℕ → ℕ) → ℕ → ℕ → Bool
both_set bit pde pte = (bit pde == 1) && (bit pte == 1)

permissions-found :
    (pd : PageDirectory) (tables : Tables) (v : ℕ) (table : ℕ → ℕ) (pte : ℕ)
    → entry_present (pd.directory (pde_index v)) ≡ true
    → tables (remove_flags (pd.directory (pde_index v))) ≡ some table
    → entry_present (table (pte_index v)) ≡ true
    → table (pte_index v) ≡ pte
    → pd_get_permissions (some pd) tables v
      ≡ some (
        pos 0,
        some (both_user (entry_permissions (pd.directory (pde_index v))) (entry_permissions pte)),
      )
unfolding pd_get_permissions
permissions-found pd tables v table pte here its entry is_pte = rw (here, its, entry, is_pte) refl

-- On a well-formed directory where a lookup of an address finds an entry, the address is readable
-- for the user exactly where the mode bit is set in both of its entries, and writable exactly where
-- the write bit is set in both as well.
pub user_access-both_set :
    (pd : PageDirectory) (tables : Tables) (v_addr pte : ℕ)
    → WellFormed pd.directory tables
    → pd_get_mapping (some pd) tables v_addr ≡ some (pos 0, some pte)
    → (pd_is_user_readable (some pd) tables v_addr
        ≡ some (both_set mode_bit (pd.directory (pde_index v_addr)) pte))
      × (pd_is_user_read_write (some pd) tables v_addr
          ≡ some (
              both_set mode_bit (pd.directory (pde_index v_addr)) pte
              && both_set rw_bit (pd.directory (pde_index v_addr)) pte))
unfolding pd_is_user_readable pd_is_user_read_write
user_access-both_set pd tables v pte wf got =
    let (table, here, its, entry, is_pte) = get-entry pd tables wf v pte got in
    let e = permissions-found pd tables v table pte here its entry is_pte in
    (rw (e, pd_is_user_readable) (ground arith), rw (e, pd_is_user_read_write) (ground arith))

-- Where a lookup of an address finds no directory entry, both questions read variables that were
-- never stored.
pub user_access-unmapped :
    (pd : PageDirectory) (tables : Tables) (v_addr : ℕ)
    → entry_present (pd.directory (pde_index v_addr)) ≡ false
    → (pd_is_user_readable (some pd) tables v_addr ≡ none)
      × (pd_is_user_read_write (some pd) tables v_addr ≡ none)
unfolding pd_is_user_readable pd_is_user_read_write pd_get_permissions
user_access-unmapped pd tables v absent =
    (rw (absent, pd_is_user_readable) refl, rw (absent, pd_is_user_read_write) refl)

-- In a new batch, a mapping whose address has no directory entry enters a table; aborting the batch
-- frees the table and keeps the entry, so a lookup of the address uses a table that is not allocated.
pub create-abort :
    (memalign : ℕ) (dir : ℕ → ℕ) (tables : Tables) (v_addr p_addr pte_flags pde_flags : ℕ)
    → entry_present (dir (pde_index v_addr)) ≡ false
    → Fresh memalign tables
    → v_addr % 4096 ≡ 0
    → p_addr % 4096 ≡ 0
    → PresentFlags pde_flags
    → (pd : PageDirectory) × (tables1 : Tables) × (pd_create_mapping memalign plenty
          (batched dir [])
          tables
          v_addr
          p_addr
          pte_flags
          pde_flags
        ≡ some (pos 0, pd, tables1))
      × (pd_get_mapping
            (some (pd_abort_mapping pd tables1).0)
            (pd_abort_mapping pd tables1).1
            v_addr
          ≡ none)
unfolding pd_create_mapping enter_table pd_abort_mapping pd_get_mapping
create-abort memalign dir tables v p f g absent fresh va pa flags =
    let i = pde_index v in
    let x = add_flags memalign g in
    let task : Task = record { v_addr = v; pte = add_flags p f; resource = memalign } in
    let va' : (v % 4096 == 0) ≡ true = ground arith in
    let pa' : (p % 4096 == 0) ≡ true = ground arith in
    let given : (memalign == 0) ≡ false = ground (arith, fresh.not_null) in
    let itself : (i == i) ≡ true = ground arith in
    let base_itself : (memalign == memalign) ≡ true = ground arith in
    let here : entry_present (put i x dir i) ≡ true =
      rw itself (add_flags-present memalign g fresh.aligned fresh.word flags) in
    let base : remove_flags (put i x dir i) ≡ memalign =
      rw itself (remove_flags-add_flags memalign g fresh.aligned fresh.word flags) in
    (
      batched (put i x dir) (task ∷ []),
      put_table memalign (some (λ j. 0)) tables,
      rw (va', pa', absent, given) refl,
      rw (given, here, base, base_itself) refl,
    )
