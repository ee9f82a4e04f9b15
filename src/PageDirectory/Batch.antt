-- ===== src/PageDirectory/Batch.antt =====
-- A batch of mappings: what is committed is what the mappings would have stored at once.
use custom_os_kernel.Base.{
  ℕ, ◌%◌, ◌≡◌, refl, true, false, Bool-cases, inl, inr, some, List, [], ◌∷◌, ◌++◌, arith, ◌==◌,
}
use custom_os_kernel.Base.Int.{pos}
use custom_os_kernel.PageDirectory.{
  PageDirectory, Table, Tables, Task, Room, entry_present, add_flags, remove_flags, pde_index,
  pte_index, put, put_table, enter_table, commit_tasks, pd_begin_mapping, pd_create_mapping,
  pd_commit_mapping,
}
use custom_os_kernel.PageDirectory.Inv.{WellFormed}
use custom_os_kernel.PageDirectory.Create.{
  Fresh, PresentFlags, add_flags-present, remove_flags-add_flags,
}
use custom_os_kernel.PageDirectory.Commit.{
  AllPresent, AllPresent-append, store-at, commit-append, commit-unused, commit-enter,
}

-- A directory in a batch with these tasks, and the same outside a batch.
abbrev pub batched : (ℕ → ℕ) → List Task → PageDirectory
batched dir ts = record { directory = dir; mapping_tasks = some ts; batch_enabled = true }

abbrev pub direct : (ℕ → ℕ) → PageDirectory
direct dir = record { directory = dir; mapping_tasks = some []; batch_enabled = false }

-- `tables` lacks what the tasks have to store, and `tables'` has it.
pub record Ahead (dir : ℕ → ℕ) (ts : List Task) (tables tables' : Tables) : Type 0 where
  pub all : AllPresent dir ts
  pub commit : commit_tasks dir ts tables ≡ some tables'

-- A batch starts with nothing to commit.
pub begin-Ahead :
    (dir : ℕ → ℕ) (tables : Tables)
    → (pd_begin_mapping (some (direct dir)) ≡ (pos 0, some (batched dir [])))
      × Ahead dir [] tables tables
unfolding pd_begin_mapping commit_tasks
begin-Ahead dir tables = (refl, record { all = tt; commit = refl })

-- Committing the tasks stores what they lack.
pub commit-Ahead :
    (dir : ℕ → ℕ) (ts : List Task) (tables tables' : Tables)
    → Ahead dir ts tables tables'
    → pd_commit_mapping (batched dir ts) tables ≡ some (direct dir, tables')
unfolding pd_commit_mapping
commit-Ahead dir ts tables tables' a = rw (a.commit, pd_commit_mapping) refl

abbrev pub plenty : Room
plenty = record { task = true; node = true }

module _ (memalign v p f g : ℕ) (va : v % 4096 ≡ 0) (pa : p % 4096 ≡ 0) where
  abbrev task_of : ℕ → Task
  task_of resource = record { v_addr = v; pte = add_flags p f; resource = resource }

  -- The last part of the call, in a batch and outside.
  create-entered :
      (dir dir1 : ℕ → ℕ) (ts : List Task) (resource : ℕ) (tables tables' tables1 tables1' : Tables)
      → enter_table memalign (batched dir ts) tables (pde_index v) g
        ≡ some (resource, batched dir1 ts, tables1)
      → enter_table memalign (direct dir) tables' (pde_index v) g
        ≡ some (resource, direct dir1, tables1')
      → entry_present (dir1 (pde_index v)) ≡ true
      → (table : Table) → tables1' (remove_flags (dir1 (pde_index v))) ≡ some table
      → Ahead dir1 ts tables1 tables1'
      → (ts1 : List Task) × (tables2' : Tables) × (pd_create_mapping memalign plenty
            (batched dir ts)
            tables
            v
            p
            f
            g
          ≡ some (pos 0, batched dir1 ts1, tables1))
        × (pd_create_mapping memalign plenty (direct dir) tables' v p f g
            ≡ some (pos 0, direct dir1, tables2'))
        × Ahead dir1 ts1 tables1 tables2'
  unfolding pd_create_mapping
  create-entered dir dir1 ts resource tables tables' tables1 tables1' run run' here table its a =
      let va' : (v % 4096 == 0) ≡ true = ground arith in
      let pa' : (p % 4096 == 0) ≡ true = ground arith in
      let stored = store-at _ (pte_index v) (add_flags p f) tables1' table its in
      (
        ts ++ (task_of resource ∷ []),
        put_table (remove_flags (dir1 (pde_index v)))
            (some (put (pte_index v) (add_flags p f) table)) tables1',
        rw (va', pa', run) refl,
        rw (va', pa', run', its) refl,
        record {
          all = AllPresent-append dir1 ts (task_of resource) a.all here;
          commit = commit-append dir1 ts (task_of resource) tables1 tables1' _ a.commit stored;
        },
      )

  -- In a batch that lacks what its tasks have to store, and in the directory that has it, which is
  -- well formed, creating a mapping of aligned addresses returns 0, where the flags of the directory
  -- entry are those of a present entry, memalign gives a fresh page, and malloc has room. The
  -- directories stay the same, and the batch lacks only what its tasks have to store.
  pub create-Ahead :
      (dir : ℕ → ℕ) (ts : List Task) (tables tables' : Tables)
      → Ahead dir ts tables tables'
      → WellFormed dir tables'
      → Fresh memalign tables'
      → PresentFlags g
      → (dir1 : ℕ → ℕ) × (tables1 : Tables) × (ts1 : List Task) × (tables1' : Tables)
        × (pd_create_mapping memalign plenty (batched dir ts) tables v p f g
            ≡ some (pos 0, batched dir1 ts1, tables1))
        × (pd_create_mapping memalign plenty (direct dir) tables' v p f g
            ≡ some (pos 0, direct dir1, tables1'))
        × Ahead dir1 ts1 tables1 tables1'
  unfolding enter_table
  create-Ahead dir ts tables tables' a wf fresh flags =
      let i = pde_index v in
      elim (Bool-cases (entry_present (dir i))) [
        | inl here ↦
            let (table, its) = wf.backed i here in
            let (ts1, t1', run, run', a1) =
              create-entered dir dir ts 0 tables tables' tables tables' (rw here refl)
                (rw here refl) here table its a in
            (dir, tables, ts1, t1', run, run', a1)
        | inr absent ↦
            let x = add_flags memalign g in
            let given : (memalign == 0) ≡ false = ground (arith, fresh.not_null) in
            let itself : (i == i) ≡ true = ground arith in
            let base_itself : (memalign == memalign) ≡ true = ground arith in
            let here : entry_present (put i x dir i) ≡ true =
              rw itself (add_flags-present memalign g fresh.aligned fresh.word flags) in
            let base : remove_flags (put i x dir i) ≡ memalign =
              rw itself (remove_flags-add_flags memalign g fresh.aligned fresh.word flags) in
            let (done, all) =
              commit-enter dir ts tables tables' i x memalign (some (λ j. 0)) a.all absent
                (commit-unused dir ts tables tables' memalign a.commit fresh.unused) a.commit in
            let (ts1, t1', run, run', a1) =
              create-entered dir (put i x dir) ts memalign tables tables'
                (put_table memalign (some (λ j. 0)) tables)
                (put_table memalign (some (λ j. 0)) tables') (rw (absent, given) refl)
                (rw (absent, given) refl) here (λ j. 0) (rw (base, base_itself) refl)
                (record { all = all; commit = done }) in
            (put i x dir, put_table memalign (some (λ j. 0)) tables, ts1, t1', run, run', a1)
      ]
