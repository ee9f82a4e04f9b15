-- ===== src/PageDirectory/Whole.antt =====
-- Whole batches: kern/virtual_mem_mgmt/page_directory.c, from the begin to the commit.
use custom_os_kernel.Base.{
  ℕ, zero, suc, ◌%◌, ◌^◌, ◌<◌, ◌≡◌, ◌≢◌, ◌∙◌, refl, sym, ap, subst, Option, none, some, List, [],
  ◌∷◌,
}
use custom_os_kernel.Base.Int.{ℤ, pos, negsuc}
use custom_os_kernel.PageDirectory.{
  PageDirectory, Tables, Task, pd_begin_mapping, pd_create_mapping, pd_commit_mapping,
}
use custom_os_kernel.PageDirectory.Inv.{WellFormed}
use custom_os_kernel.PageDirectory.Create.{Fresh, PresentFlags}
use custom_os_kernel.PageDirectory.Map.{create-Mapped}
use custom_os_kernel.PageDirectory.Batch.{
  Ahead, batched, direct, plenty, begin-Ahead, create-Ahead, commit-Ahead,
}

-- The arguments of a call of `pd_create_mapping`, and what memalign gives in it.
pub record Request : Type 0 where
  pub memalign : ℕ
  pub v_addr : ℕ
  pub p_addr : ℕ
  pub pte_flags : ℕ
  pub pde_flags : ℕ

abbrev pub Runs : Type 0
Runs = Option (PageDirectory × Tables)

-- The next call, after one that returned 0.
abbrev on_success : (PageDirectory → Tables → Runs) → Option (ℤ × PageDirectory × Tables) → Runs
on_success go none = none
on_success go (some (pos zero, pd, tables)) = go pd tables
on_success go (some (pos (suc k), pd, tables)) = none
on_success go (some (negsuc e, pd, tables)) = none

-- These calls in turn, each of which returns 0.
abbrev pub create_all : List Request → PageDirectory → Tables → Runs
create_all [] pd tables = some (pd, tables)
create_all (r ∷ rs) pd tables =
    on_success (create_all rs)
      (pd_create_mapping r.memalign plenty pd tables r.v_addr r.p_addr r.pte_flags r.pde_flags)

abbrev commit_after : Runs → Runs
commit_after none = none
commit_after (some (pd, tables)) = pd_commit_mapping pd tables

abbrev begin_then : List Request → Tables → ℤ × Option PageDirectory → Runs
begin_then rs tables (s, none) = none
begin_then rs tables (pos zero, some pd) = commit_after (create_all rs pd tables)
begin_then rs tables (pos (suc k), some pd) = none
begin_then rs tables (negsuc e, some pd) = none

-- The same calls between a begin, which returns 0, and a commit.
abbrev pub create_in_batch : List Request → PageDirectory → Tables → Runs
create_in_batch rs pd tables = begin_then rs tables (pd_begin_mapping (some pd))

-- Aligned addresses, flags of present entries, and a fresh page.
pub record Proper (r : Request) (tables : Tables) : Type 0 where
  pub fresh : Fresh r.memalign tables
  pub v_aligned : r.v_addr % 4096 ≡ 0
  pub p_aligned : r.p_addr % 4096 ≡ 0
  pub word : r.p_addr < 2 ^ 32
  pub pte_present : PresentFlags r.pte_flags
  pub pde_present : PresentFlags r.pde_flags

abbrev pub Avoid : ℕ → List Request → Type 0
Avoid base [] = Unit
Avoid base (r ∷ rs) = (r.memalign ≢ base) × Avoid base rs

-- Each call is proper, and no two get the same page.
abbrev pub AllProper : List Request → Tables → Type 0
AllProper [] tables = Unit
AllProper (r ∷ rs) tables = Proper r tables × Avoid r.memalign rs × AllProper rs tables

still-AllProper :
    (base : ℕ) (rs : List Request) (tables tables' : Tables)
    → ((b : ℕ) → b ≢ base → tables b ≡ none → tables' b ≡ none)
    → Avoid base rs
    → AllProper rs tables
    → AllProper rs tables'
still-AllProper base [] tables tables' kept away proper = tt
still-AllProper base (r ∷ rs) tables tables' kept away proper = (
  record {
    fresh = record {
      not_null = proper.0.fresh.not_null;
      aligned = proper.0.fresh.aligned;
      word = proper.0.fresh.word;
      unused = kept r.memalign away.0 proper.0.fresh.unused;
    };
    v_aligned = proper.0.v_aligned;
    p_aligned = proper.0.p_aligned;
    word = proper.0.word;
    pte_present = proper.0.pte_present;
    pde_present = proper.0.pde_present;
  },
  proper.1,
  still-AllProper base rs tables tables' kept away.1 proper.2,
)

-- The state after a call that succeeds.
abbrev state_in :
    PageDirectory × Tables → Option (ℤ × PageDirectory × Tables) → PageDirectory × Tables
state_in d none = d
state_in d (some (s, pd, tables)) = (pd, tables)

-- Outside a batch, a proper call leaves a well-formed directory, and frees no page.
direct-WellFormed :
    (r : Request) (dir dir1 : ℕ → ℕ) (tables tables1 : Tables)
    → WellFormed dir tables
    → Proper r tables
    → pd_create_mapping r.memalign plenty
        (direct dir)
        tables
        r.v_addr
        r.p_addr
        r.pte_flags
        r.pde_flags
      ≡ some (pos 0, direct dir1, tables1)
    → WellFormed dir1 tables1 × ((b : ℕ) → b ≢ r.memalign → tables b ≡ none → tables1 b ≡ none)
direct-WellFormed r dir dir1 tables tables1 wf ok run =
    let (pd', tables', ran, mapped) =
      create-Mapped r.memalign plenty (direct dir) tables r.v_addr r.p_addr r.pte_flags r.pde_flags
        wf ok.fresh refl ok.v_aligned ok.p_aligned ok.word ok.pte_present ok.pde_present in
    let same : (pd', tables') ≡ (direct dir1, tables1) =
      ap (state_in (pd', tables')) (sym ran ∙ run) in
    subst
      (λ x.
        WellFormed x.0.directory x.1 × ((b : ℕ) → b ≢ r.memalign → tables b ≡ none → x.1 b ≡ none))
      same (mapped.wf, mapped.unused)

all-Ahead :
    (rs : List Request) (dir : ℕ → ℕ) (ts : List Task) (tables tables' : Tables)
    → Ahead dir ts tables tables'
    → WellFormed dir tables'
    → AllProper rs tables'
    → (dir1 : ℕ → ℕ) × (ts1 : List Task) × (tables1 : Tables) × (tables1' : Tables) × (create_all rs
          (batched dir ts)
          tables
        ≡ some (batched dir1 ts1, tables1))
      × (create_all rs (direct dir) tables' ≡ some (direct dir1, tables1'))
      × Ahead dir1 ts1 tables1 tables1'
all-Ahead [] dir ts tables tables' a wf proper = (dir, ts, tables, tables', refl, refl, a)
all-Ahead (r ∷ rs) dir ts tables tables' a wf proper =
    let ok = proper.0 in
    let (dir1, tables1, ts1, tables1', run, run', a1) =
      create-Ahead r.memalign r.v_addr r.p_addr r.pte_flags r.pde_flags ok.v_aligned ok.p_aligned
        dir ts tables tables' a wf ok.fresh ok.pde_present in
    let (wf1, kept) = direct-WellFormed r dir dir1 tables' tables1' wf ok run' in
    let (dir2, ts2, tables2, tables2', rest, rest', a2) =
      all-Ahead rs dir1 ts1 tables1 tables1' a1 wf1
        (still-AllProper r.memalign rs tables' tables1' kept proper.1 proper.2) in
    (
      dir2,
      ts2,
      tables2,
      tables2',
      ap (on_success (create_all rs)) run ∙ rest,
      ap (on_success (create_all rs)) run' ∙ rest',
      a2,
    )

-- On a well-formed directory outside a batch, where malloc has room, any calls that create mappings, of
-- aligned addresses, with flags of present entries and a fresh page from memalign for each, all return 0
-- in a batch as outside one, and after the commit the batch leaves the directory and the tables that
-- the calls leave without a batch.
pub create_in_batch-create_all :
    (rs : List Request) (dir : ℕ → ℕ) (tables : Tables)
    → WellFormed dir tables
    → AllProper rs tables
    → (r : PageDirectory × Tables) × (create_in_batch rs (direct dir) tables ≡ some r)
      × (create_all rs (direct dir) tables ≡ some r)
create_in_batch-create_all rs dir tables wf proper =
    let (begun, a) = begin-Ahead dir tables in
    let (dir1, ts1, tables1, tables1', run, run', a1) =
      all-Ahead rs dir [] tables tables a wf proper in
    (
      (direct dir1, tables1'),
      ap (begin_then rs tables) begun
          ∙ ap commit_after run
          ∙ commit-Ahead dir1 ts1 tables1 tables1' a1,
      run',
    )
