-- ===== src/PageDirectory/Copy/Directory.antt =====
-- What `pd_deep_copy` makes of a directory when memory is there.
use custom_os_kernel.Base.{
  ℕ, zero, suc, ◌+◌, ◌*◌, ◌%◌, ◌^◌, ◌<◌, ◌≤◌, ◌≡◌, ◌≢◌, ◌⊎◌, true, false, none, some, if◌then◌else◌,
}
use custom_os_kernel.PageDirectory.{Table, Tables, entry_present, add_flags}
use custom_os_kernel.PageDirectory.Copy.{Copying, extract_flags}
use custom_os_kernel.PageDirectory.Copy.Entries.{num_present, PageCopied}

-- How many pages the tables `pt` of the entries from `i` on map.
unfoldable pub total : (src : ℕ → ℕ) → (pt : ℕ → Table) → (left i : ℕ) → ℕ
total src pt zero i = 0
total src pt (suc k) i =
    (if entry_present (src i) then num_present (pt i) 1024 0 else 0) + total src pt k (i + 1)

-- The table `new` maps what `old` does, with the same flags and contents, to frames in [p, p').
pub record TableOf {ℓ} {A : Type ℓ} (old : Table) (p p' : ℕ) (pages : ℕ → A) (new : Table)
    (pages' : ℕ → A) : Type ℓ where
  pub absent : (k : ℕ) → entry_present (old k) ≡ false → new k ≡ 0
  pub each :
      (k : ℕ)
      → k < 1024
      → entry_present (old k) ≡ true
      → PageCopied (old k) p p' pages (new k) pages'

-- What memalign gives for the entries: tables that are not in use.
pub record FreshTables (memalign : ℕ → ℕ) (tables : Tables) : Type 0 where
  pub not_null : (i : ℕ) → i < 1024 → memalign i ≢ 0
  pub aligned : (i : ℕ) → i < 1024 → memalign i % 4096 ≡ 0
  pub word : (i : ℕ) → i < 1024 → memalign i < 2 ^ 32
  pub unused : (i : ℕ) → i < 1024 → tables (memalign i) ≡ none
  pub apart : (i j : ℕ) → i < 1024 → j < 1024 → i ≢ j → memalign i ≢ memalign j

module _ {ℓ} {A : Type ℓ} (memalign : ℕ → ℕ) (src : ℕ → ℕ) (pt : ℕ → Table) where
  -- The entries from `i` on are copied to the frames from `p_addr` on, and nothing else changes.
  pub record DirectoryCopied (left i : ℕ) (c c' : Copying A) : Type ℓ where
    pub advanced : c'.p_addr ≡ c.p_addr + 4096 * total src pt left i
    pub absent : (j : ℕ) → entry_present (src j) ≡ false → c'.directory j ≡ c.directory j
    pub below : (j : ℕ) → j < i → c'.directory j ≡ c.directory j
    pub entry :
        (j : ℕ)
        → i ≤ j
        → j < i + left
        → entry_present (src j) ≡ true
        → c'.directory j ≡ add_flags (memalign j) (extract_flags (src j))
    pub table :
        (j : ℕ)
        → i ≤ j
        → j < i + left
        → entry_present (src j) ≡ true
        → (new : Table) × (c'.tables (memalign j) ≡ some new)
          × TableOf (pt j) c.p_addr c'.p_addr c.pages new c'.pages
    pub others :
        (b : ℕ) → ((j : ℕ) → i ≤ j → j < i + left → b ≢ memalign j) → c'.tables b ≡ c.tables b
    pub kept : (b : ℕ) → (b < c.p_addr) ⊎ (c'.p_addr ≤ b) → c'.pages b ≡ c.pages b
