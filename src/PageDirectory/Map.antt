-- ===== src/PageDirectory/Map.antt =====
-- What mapping and unmapping a page does to the lookups of every page, outside a batch.
use custom_os_kernel.Base.{
  ℕ, ◌+◌, ◌%◌, ◌^◌, ◌<◌, ◌≡◌, ◌≢◌, Option, refl, sym, ◌∙◌, ap, true, false, Bool-cases, inl, inr,
  none, some, arith, ◌==◌,
}
use custom_os_kernel.Base.Int.{pos, neg}
use custom_os_kernel.PageDirectory.{
  PageDirectory, Table, Tables, put_table, Room, entry_present, add_flags, remove_flags, pde_index,
  pte_index, enter_table, pd_get_mapping, pd_create_mapping, pd_remove_mapping,
}
use custom_os_kernel.PageDirectory.Inv.{
  WellFormed, found, OtherPage, stored, stored-WellFormed, stored-get, stored-get_absent,
  stored-get_other,
}
use custom_os_kernel.PageDirectory.Create.{
  Fresh, PresentFlags, Entered, add_flags-eq, add_flags-present, enter_table-Entered,
}

-- A successful mapping of the page of `v` to the entry `pte`, for which at most the table at
-- `memalign` is new.
pub record Mapped (memalign : ℕ) (pd : PageDirectory) (tables : Tables) (v pte : ℕ)
    (pd' : PageDirectory) (tables' : Tables) : Type 0 where
  pub wf : WellFormed pd'.directory tables'
  pub get : pd_get_mapping (some pd') tables' v ≡ some (pos 0, some pte)
  pub batch : pd'.batch_enabled ≡ pd.batch_enabled
  pub unused : (b : ℕ) → b ≢ memalign → tables b ≡ none → tables' b ≡ none
  pub others :
      (w : ℕ)
      → OtherPage v w
      → found (pd_get_mapping (some pd') tables' w) ≡ found (pd_get_mapping (some pd) tables w)

-- A store to a table that is there allocates none.
put_table-none :
    (directory : ℕ → ℕ) (tables : Tables) (i b : ℕ) (table : Table) (new : Option Table)
    → tables (remove_flags (directory i)) ≡ some table
    → tables b ≡ none
    → put_table (remove_flags (directory i)) new tables b ≡ none
put_table-none directory tables i b table new its away =
    elim (Bool-cases (b == remove_flags (directory i))) [
      | inl e ↦
          let at : b ≡ remove_flags (directory i) = ground (arith, e) in
          absurd (none-ne_some (sym away ∙ ap tables at ∙ its))
      | inr e ↦ rw e away
    ]
  where
    none-ne_some : none ≢ some table
    none-ne_some = cc

-- The store, once the entry of the address has its table.
create-after :
    (memalign : ℕ) (room : Room) (pd : PageDirectory) (tables : Tables) (v p f g : ℕ) (resource : ℕ)
    (pd' : PageDirectory) (tables' : Tables)
    → enter_table memalign pd tables (pde_index v) g ≡ some (resource, pd', tables')
    → Entered memalign pd tables (pde_index v) pd' tables'
    → pd'.batch_enabled ≡ false
    → v % 4096 ≡ 0
    → p % 4096 ≡ 0
    → p < 2 ^ 32
    → PresentFlags f
    → (tables'' : Tables) × (pd_create_mapping memalign room pd tables v p f g
        ≡ some (pos 0, pd', tables''))
      × Mapped memalign pd tables v (p + f) pd' tables''
unfolding pd_create_mapping
create-after memalign room pd tables v p f g resource pd' tables' run e off va pa lt pf =
    let (table, its) = e.wf.backed (pde_index v) e.here in
    let x = add_flags p f in
    let va' : (v % 4096 == 0) ≡ true = ground arith in
    let pa' : (p % 4096 == 0) ≡ true = ground arith in
    (
      stored pd' tables' e.wf v x table e.here its,
      rw (va', pa', run, its) (simp off refl),
      record {
        wf = stored-WellFormed pd' tables' e.wf v x table e.here its;
        get =
            stored-get pd' tables' e.wf v x table e.here its (add_flags-present p f pa lt pf)
            ∙ ap (λ y. some (pos 0, some y)) (add_flags-eq p f pa lt pf);
        batch = e.batch;
        unused = λ b ne q.
            put_table-none pd'.directory tables' (pde_index v) b table (some _) its
              (e.unused b ne q);
        others =
            λ w o. ap found (stored-get_other pd' tables' e.wf v x table e.here its w o) ∙ e.same w;
      },
    )

-- Outside a batch, on a well-formed directory, with aligned addresses, flags of a present entry and a
-- fresh page from memalign, creating a mapping returns 0 and leaves a well-formed directory outside a
-- batch, where a lookup of the address finds the physical address with its flags, and a lookup of an
-- address on any other page finds what it found. No table is allocated but on the fresh page.
pub create-Mapped :
    (memalign : ℕ) (room : Room) (pd : PageDirectory) (tables : Tables)
    (v_addr p_addr pte_flags pde_flags : ℕ)
    → WellFormed pd.directory tables
    → Fresh memalign tables
    → pd.batch_enabled ≡ false
    → v_addr % 4096 ≡ 0
    → p_addr % 4096 ≡ 0
    → p_addr < 2 ^ 32
    → PresentFlags pte_flags
    → PresentFlags pde_flags
    → (pd' : PageDirectory) × (tables' : Tables) × (pd_create_mapping memalign room pd tables v_addr
          p_addr pte_flags pde_flags
        ≡ some (pos 0, pd', tables'))
      × Mapped memalign pd tables v_addr (p_addr + pte_flags) pd' tables'
create-Mapped memalign room pd tables v p f g wf fresh off va pa lt pf pg =
    let (resource, pd', tables', run, e) =
      enter_table-Entered memalign pd tables (pde_index v) g wf fresh pg in
    let (tables'', done, m) =
      create-after memalign room pd tables v p f g resource pd' tables' run e (e.batch ∙ off) va pa
        lt pf in
    (pd', tables'', done, m)

-- Where a lookup finds an entry, both entries are present.
pub get-entry :
    (pd : PageDirectory) (tables : Tables)
    → WellFormed pd.directory tables
    → (v pte : ℕ) → pd_get_mapping (some pd) tables v ≡ some (pos 0, some pte)
    → (table : ℕ → ℕ) × (entry_present (pd.directory (pde_index v)) ≡ true)
      × (tables (remove_flags (pd.directory (pde_index v))) ≡ some table)
      × (entry_present (table (pte_index v)) ≡ true)
      × (table (pte_index v) ≡ pte)
unfolding pd_get_mapping
get-entry pd tables wf v pte got = elim (Bool-cases (entry_present (pd.directory (pde_index v)))) [
  | inl here ↦
      let (table, its) = wf.backed (pde_index v) here in
      elim (Bool-cases (entry_present (table (pte_index v)))) [
        | inl p ↦ (table, here, its, p, ground (arith, here, its, p, got))
        | inr p ↦ ground (arith, here, its, p, got)
      ]
  | inr away ↦ ground (arith, got)
]

-- Outside a batch, on a well-formed directory where a lookup of an aligned address finds an entry,
-- removing the mapping returns 0 and leaves a well-formed directory, where a lookup of the address
-- returns -3, and a lookup of an address on any other page what it returned.
pub remove-get :
    (room : Room) (pd : PageDirectory) (tables : Tables) (v_addr pte : ℕ)
    → WellFormed pd.directory tables
    → pd.batch_enabled ≡ false
    → v_addr % 4096 ≡ 0
    → pd_get_mapping (some pd) tables v_addr ≡ some (pos 0, some pte)
    → (tables' : Tables) × (pd_remove_mapping room (some pd) tables v_addr
        ≡ some (pos 0, some pd, tables'))
      × WellFormed pd.directory tables'
      × (pd_get_mapping (some pd) tables' v_addr ≡ some (neg 3, none))
      × ((w : ℕ)
          → OtherPage v_addr w
          → pd_get_mapping (some pd) tables' w ≡ pd_get_mapping (some pd) tables w)
unfolding pd_remove_mapping
remove-get room pd tables v pte wf off va got =
    let (table, here, its, entry, _) = get-entry pd tables wf v pte got in
    let va' : (v % 4096 == 0) ≡ true = ground arith in
    (
      stored pd tables wf v 0 table here its,
      rw (va', here, its, entry, off) refl,
      stored-WellFormed pd tables wf v 0 table here its,
      stored-get_absent pd tables wf v 0 table here its refl,
      λ w o. stored-get_other pd tables wf v 0 table here its w o,
    )
