-- ===== src/PageDirectory/Copy.antt =====
-- kern/virtual_mem_mgmt/page_directory.c: an address space is copied. The contents of physical pages
-- are a function from the base of a frame; a page is reached through its entry, so writing through a
-- changed entry writes to the frame of that entry. Flushes of the TLB are left out; the directories and
-- the entry that are passed are never NULL.
pub mod Page
pub mod Entries
pub mod Directory
pub mod Rounds
pub mod Lookup
pub mod Mappings
pub mod Rollback
use custom_os_kernel.Base.{
  ℕ, zero, suc, ◌+◌, ◌-◌, ◌*◌, ◌%◌, Bool, true, false, not, ◌||◌, ◌&&◌, Option, none, some,
  if◌then◌else◌, ◌==◌, leb, ltb, add32,
}
use custom_os_kernel.Base.Int.{ℤ, pos, negsuc, neg}
use custom_os_kernel.PageDirectory.{
  PageDirectory, Table, Tables, entry_present, add_flags, remove_flags, put, put_table,
}
use custom_os_kernel.PageDirectory.Clear.{free_tables}

-- `EXTRACT_FLAGS`
abbrev pub extract_flags : ℕ → ℕ
extract_flags v = v % 4096

-- The address of a page by its two indexes.
abbrev pub get_page_address : (pd_i pt_i : ℕ) → ℕ
get_page_address pd_i pt_i = pd_i * 4194304 + pt_i * 4096

-- What a copy of a table works on: the new table, the pages, and the next free frame.
pub record Copied {ℓ} (A : Type ℓ) : Type ℓ where
  pub table : Table
  pub pages : ℕ → A
  pub p_addr : ℕ

-- What the copy of a directory works on: its entries and those that are saved for a rollback, the
-- tables, the pages, and the next free frame.
pub record Copying {ℓ} (A : Type ℓ) : Type ℓ where
  pub directory : ℕ → ℕ
  pub backup : ℕ → ℕ
  pub tables : Tables
  pub pages : ℕ → A
  pub p_addr : ℕ

module _ {ℓ} {A : Type ℓ} where
  abbrev pub put_page : ℕ → A → (ℕ → A) → ℕ → A
  put_page a x pages b = if b == a then x else pages b

  -- `buffer` says whether malloc gives one. The entry is `pte`, which is restored.
  unfoldable pub p_copy : (buffer : Bool) → (pte v_addr p_addr : ℕ) → (ℕ → A) → ℤ × (ℕ → A)
  p_copy buffer pte v_addr p_addr pages =
      if v_addr == 0
      then (neg 1, pages)
      else if buffer
      then (
        pos 0,
        put_page (remove_flags (add_flags p_addr (extract_flags pte))) (pages (remove_flags pte))
            pages,
      )
      else (neg 2, pages)

  -- The entry `i` was copied.
  abbrev pub with_entry : (i entry : ℕ) → Copied A → (ℕ → A) → Copied A
  with_entry i entry c pages = record {
    table = put i (add_flags c.p_addr (extract_flags entry)) c.table;
    pages = pages;
    p_addr = add32 c.p_addr 4096;
  }

  abbrev pub after_p_copy :
      (Copied A → ℤ × Copied A) → (i entry : ℕ) → Copied A → ℤ × (ℕ → A) → ℤ × Copied A
  after_p_copy rest i entry c (negsuc e, pages) =
      (neg 1, record c { pages = pages; p_addr = add32 c.p_addr 4096 })
  after_p_copy rest i entry c (pos n, pages) = rest (with_entry i entry c pages)

  -- The loop over the entries from `i` on; `buffer` is what malloc gives for each.
  unfoldable pub pt_copy :
      (buffer : ℕ → Bool) → (src : Table) → (pd_i left i : ℕ) → Copied A → ℤ × Copied A
  pt_copy buffer src pd_i zero i c = (pos 0, c)
  pt_copy buffer src pd_i (suc k) i c = elim (entry_present (src i)) [
    | false ↦ pt_copy buffer src pd_i k (i + 1) c
    | true ↦
        after_p_copy (pt_copy buffer src pd_i k (i + 1)) i (src i) c
          (p_copy (buffer i) (src i) (get_page_address pd_i i) c.p_addr c.pages)
  ]

  -- The reply of `pt_copy` is dropped.
  abbrev pub copied_table :
      (buffer : ℕ → Bool) → (i : ℕ) → (pt : Table) → (pages : ℕ → A) → (p_addr : ℕ) → Copied A
  copied_table buffer i pt pages p_addr =
      (pt_copy buffer pt i 1024 0 (record { table = λ j. 0; pages = pages; p_addr = p_addr })).1

  -- The table of entry `i` was copied to a new one, which is entered.
  abbrev pub with_table : (memalign i entry : ℕ) → Copying A → Copied A → Copying A
  with_table memalign i entry c after = record {
    directory = put i (add_flags memalign (extract_flags entry)) c.directory;
    backup = put i (c.directory i) c.backup;
    tables = put_table memalign (some after.table) c.tables;
    pages = after.pages;
    p_addr = after.p_addr;
  }

  -- The new tables below entry `i` are freed, and all entries below it are set to what was saved; the
  -- kernel has entries, 4 of them, so the loop of the source ends.
  abbrev pub rolled_back : (kernel_pdes i : ℕ) → Copying A → Copying A
  rolled_back kernel_pdes i c = record c {
    tables = free_tables (i - kernel_pdes) kernel_pdes c.directory c.tables;
    directory = λ j. if leb kernel_pdes j && ltb j i then c.backup j else c.directory j;
  }

  -- The loop over the entries from `i` on. `none` is an entry whose table is not allocated.
  unfoldable pub copy_entries :
      (kernel_pdes : ℕ)
      → (memalign : ℕ → ℕ) → (buffer : ℕ → ℕ → Bool) → (src : ℕ → ℕ) → (left i : ℕ) → Copying A
      → Option (ℤ × Copying A)
  copy_entries kernel_pdes memalign buffer src zero i c = some (pos 0, c)
  copy_entries kernel_pdes memalign buffer src (suc k) i c = elim (entry_present (src i)) [
    | false ↦ copy_entries kernel_pdes memalign buffer src k (i + 1) c
    | true ↦ elim (memalign i == 0) [
      | true ↦ some (neg 2, rolled_back kernel_pdes i c)
      | false ↦ elim (c.tables (remove_flags (src i))) [
        | none ↦ none
        | some pt ↦
            copy_entries kernel_pdes memalign buffer src k (i + 1)
              (with_table (memalign i) i (src i) c (copied_table (buffer i) i pt c.pages c.p_addr))
      ]
    ]
  ]

  -- `backup` is what stands in the array of saved entries before.
  unfoldable pub pd_deep_copy :
      (kernel_pdes : ℕ)
      → (memalign : ℕ → ℕ) → (buffer : ℕ → ℕ → Bool) → (backup : ℕ → ℕ) → (dest src : ℕ → ℕ)
      → Tables
      → (ℕ → A)
      → (p_addr_start : ℕ) → Option (ℤ × Copying A)
  pd_deep_copy kernel_pdes memalign buffer backup dest src tables pages p_addr_start =
      copy_entries kernel_pdes memalign buffer src (1024 - kernel_pdes) kernel_pdes (record {
        directory = dest;
        backup = backup;
        tables = tables;
        pages = pages;
        p_addr = p_addr_start;
      })
