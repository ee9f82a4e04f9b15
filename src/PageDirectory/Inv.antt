-- ===== src/PageDirectory/Inv.antt =====
-- Well-formed page directories, and what a store to a page table does to the mappings.
use custom_os_kernel.Base.{
  ℕ, ◌≡◌, ◌≢◌, refl, true, false, Option, none, some, ◌⊎◌, inl, inr, arith, ◌==◌, Bool-cases,
}
use custom_os_kernel.Base.Int.{ℤ, pos, neg}
use custom_os_kernel.PageDirectory.{
  PageDirectory, Table, Tables, entry_present, remove_flags, pde_index, pte_index, put, put_table,
  store, pd_get_mapping,
}

-- Every present entry has its table, and no two share one.
pub record WellFormed (directory : ℕ → ℕ) (tables : Tables) : Type 0 where
  pub backed :
      (i : ℕ)
      → entry_present (directory i) ≡ true
      → (table : Table) × (tables (remove_flags (directory i)) ≡ some table)
  pub apart :
      (i j : ℕ)
      → i ≢ j
      → entry_present (directory i) ≡ true
      → entry_present (directory j) ≡ true
      → remove_flags (directory i) ≢ remove_flags (directory j)

-- The entry that a lookup finds.
abbrev pub found : Option (ℤ × Option ℕ) → Option ℕ
found none = none
found (some (s, e)) = e

-- Two addresses on different pages.
abbrev pub OtherPage : ℕ → ℕ → Type 0
OtherPage v w = (pde_index w ≢ pde_index v) ⊎ (pte_index w ≢ pte_index v)

module _ (pd : PageDirectory) (tables : Tables) (wf : WellFormed pd.directory tables) (v x : ℕ)
    (table : Table) (here : entry_present (pd.directory (pde_index v)) ≡ true)
    (its : tables (remove_flags (pd.directory (pde_index v))) ≡ some table) where
  abbrev base : ℕ
  base = remove_flags (pd.directory (pde_index v))

  -- Memory once the entry of `v` is `x`.
  abbrev pub stored : Tables
  stored = put_table base (some (put (pte_index v) x table)) tables

  pub store-ok : store base (pte_index v) x tables ≡ some stored
  store-ok = rw (its, store) refl

  pub stored-WellFormed : WellFormed pd.directory stored
  stored-WellFormed = record {
    backed = λ i p. elim (Bool-cases (remove_flags (pd.directory i) == base)) [
      | inl e ↦ (put (pte_index v) x table, rw e refl)
      | inr e ↦ let (t, q) = wf.backed i p in (t, rw e q)
    ];
    apart = wf.apart;
  }

  -- A lookup of the address finds `x`, where `x` is present.
  pub stored-get : entry_present x ≡ true → pd_get_mapping (some pd) stored v ≡ some (pos 0, some x)
  unfolding pd_get_mapping
  stored-get p = ground arith

  pub stored-get_absent :
      entry_present x ≡ false → pd_get_mapping (some pd) stored v ≡ some (neg 3, none)
  unfolding pd_get_mapping
  stored-get_absent p = ground arith

  -- A lookup of an address on another page finds what it found.
  pub stored-get_other :
      (w : ℕ)
      → OtherPage v w
      → pd_get_mapping (some pd) stored w ≡ pd_get_mapping (some pd) tables w
  unfolding pd_get_mapping
  stored-get_other w other = elim (Bool-cases (entry_present (pd.directory (pde_index w)))) [
    | inr absent ↦ ground arith
    | inl p ↦ elim (Bool-cases (pde_index w == pde_index v)) [
      | inl e ↦
          let same : pde_index w ≡ pde_index v = ground arith in
          let other_pte : (pte_index w == pte_index v) ≡ false = ground arith in
          rw same (ground (arith, other_pte))
      | inr e ↦
          let ne : (remove_flags (pd.directory (pde_index w)) == base) ≡ false =
            ground (arith, wf.apart (pde_index w) (pde_index v) (ground arith) p here) in
          rw ne refl
    ]
  ]
