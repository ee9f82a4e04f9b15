-- ===== src/PageDirectory/Copy/Lookup.antt =====
-- What lookups find in the tables of a source and of its copy.
use custom_os_kernel.Base.{
  ℕ, ◌+◌, ◌*◌, ◌-◌, ◌%◌, ◌^◌, ◌<◌, ◌≤◌, ◌≡◌, ◌≢◌, refl, sym, ap, ◌∙◌, ◌⊎◌, inl, inr, Bool, true,
  false, none, some, Bool-cases,
}
use custom_os_kernel.PageDirectory.{
  PageDirectory, Table, Tables, entry_present, remove_flags, pde_index, pte_index, pd_get_mapping,
}
use custom_os_kernel.PageDirectory.Inv.{found}
use custom_os_kernel.PageDirectory.Copy.Entries.{PageCopied, FramesOutside}
use custom_os_kernel.PageDirectory.Copy.Directory.{FreshTables, TableOf, total}

-- A table of the source, and the table that is its copy.
module _ {ℓ} {A : Type ℓ} (old new : Table) (p p' : ℕ) (pages pages' : ℕ → A)
    (of : TableOf old p p' pages new pages') where
  pub copied_present : (k : ℕ) → k < 1024 → entry_present (new k) ≡ entry_present (old k)
  copied_present k lt = elim (Bool-cases (entry_present (old k))) [
    | inl q ↦ let page = of.each k lt q in page.here ∙ sym q
    | inr n ↦ ap (λ x. entry_present x) (of.absent k n) ∙ sym n
  ]

module _ (pd : PageDirectory) (tables : Tables) (v : ℕ) where
  abbrev at_v : ℕ
  at_v = pd.directory (pde_index v)

  pub found-absent : entry_present at_v ≡ false → found (pd_get_mapping (some pd) tables v) ≡ none
  unfolding pd_get_mapping
  found-absent n = rw n refl

  module _ (t : Table) (p : entry_present at_v ≡ true)
      (e : tables (remove_flags at_v) ≡ some t) where
    pub found-entry :
        entry_present (t (pte_index v)) ≡ true
        → found (pd_get_mapping (some pd) tables v) ≡ some (t (pte_index v))
    unfolding pd_get_mapping
    found-entry q = rw (p, e, q) refl

    pub found-no_entry :
        entry_present (t (pte_index v)) ≡ false → found (pd_get_mapping (some pd) tables v) ≡ none
    unfolding pd_get_mapping
    found-no_entry n = rw (p, e, n) refl

  -- What is found stands in a table.
  pub found-some :
      (t : Table)
      → (entry_present at_v ≡ true → tables (remove_flags at_v) ≡ some t)
      → (x : ℕ) → found (pd_get_mapping (some pd) tables v) ≡ some x
      → (entry_present at_v ≡ true)
        × (entry_present (t (pte_index v)) ≡ true)
        × (t (pte_index v) ≡ x)
  found-some t its x e = elim (Bool-cases (entry_present at_v)) [
    | inr n ↦ absurd (none-ne_some (sym (found-absent n) ∙ e))
    | inl p ↦ elim (Bool-cases (entry_present (t (pte_index v)))) [
      | inr n ↦ absurd (none-ne_some (sym (found-no_entry t p (its p) n) ∙ e))
      | inl q ↦ (p, q, some-inj (sym (found-entry t p (its p) q) ∙ e))
    ]
  ]
    where
      none-ne_some : {n : ℕ} → none ≢ some n
      none-ne_some = cc

      some-inj : {m n : ℕ} → some m ≡ some n → m ≡ n
      some-inj q = cc

-- `dest'` is a copy of the user part of `src`, whose pages are in [start, end); nothing of `src`, of
-- the rest of `dest` and of the other pages changes.
pub record AddressSpaceCopied {ℓ} {A : Type ℓ} (kernel_pdes start end : ℕ)
    (src dest : PageDirectory) (tables : Tables) (pages : ℕ → A) (dest' : PageDirectory)
    (tables' : Tables) (pages' : ℕ → A) : Type ℓ where
  pub mapped :
      (v x : ℕ)
      → kernel_pdes ≤ pde_index v
      → found (pd_get_mapping (some src) tables v) ≡ some x
      → (x' : ℕ) × (found (pd_get_mapping (some dest') tables' v) ≡ some x')
        × PageCopied x start end pages x' pages'
  pub unmapped :
      (v : ℕ)
      → kernel_pdes ≤ pde_index v
      → found (pd_get_mapping (some src) tables v) ≡ none
      → entry_present (dest.directory (pde_index v)) ≡ false
      → found (pd_get_mapping (some dest') tables' v) ≡ none
  pub kernel : (j : ℕ) → j < kernel_pdes → dest'.directory j ≡ dest.directory j
  pub source : (v : ℕ) → pd_get_mapping (some src) tables' v ≡ pd_get_mapping (some src) tables v
  pub kept : (b : ℕ) → (b < start) ⊎ (end ≤ b) → pages' b ≡ pages b

-- The source's tables are `pt`; memory is there for the copy.
pub record CanCopy (kernel_pdes : ℕ) (memalign : ℕ → ℕ) (buffer : ℕ → ℕ → Bool) (start end : ℕ)
    (src : ℕ → ℕ) (pt : ℕ → Table) (tables : Tables) : Type 0 where
  pub kernel : (1 ≤ kernel_pdes) × (kernel_pdes ≤ 1024)
  pub backed : (i : ℕ) → entry_present (src i) ≡ true → tables (remove_flags (src i)) ≡ some (pt i)
  pub fresh : FreshTables memalign tables
  pub rooms : (i j : ℕ) → buffer i j ≡ true
  pub aligned : start % 4096 ≡ 0
  pub fits : start + 4096 * total src pt (1024 - kernel_pdes) kernel_pdes ≤ end
  pub word : end < 2 ^ 32
  pub outside : (i : ℕ) → entry_present (src i) ≡ true → FramesOutside start end (pt i)
