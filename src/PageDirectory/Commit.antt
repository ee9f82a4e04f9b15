-- ===== src/PageDirectory/Commit.antt =====
-- The stores of `pd_commit_mapping`, task by task.
use custom_os_kernel.Base.{
  ℕ, ◌≡◌, ◌≢◌, refl, sym, ◌∙◌, ap, subst, true, false, Bool-cases, inl, inr, Option, none, some,
  Option-cases, List, [], ◌∷◌, ◌++◌, arith, ◌==◌,
}
use mathlib.Core.Option.{some-injective}
use mathlib.Core.Path.{fun_ext}
use custom_os_kernel.PageDirectory.{
  Table, Tables, Task, entry_present, remove_flags, pde_index, pte_index, put, put_table, store,
  commit_tasks,
}

-- The store of one task.
abbrev pub step : (ℕ → ℕ) → Task → Tables → Option Tables
step dir t tables =
    store (remove_flags (dir (pde_index t.v_addr))) (pte_index t.v_addr) t.pte tables

abbrev pub AllPresent : (ℕ → ℕ) → List Task → Type 0
AllPresent dir [] = Unit
AllPresent dir (t ∷ ts) = (entry_present (dir (pde_index t.v_addr)) ≡ true) × AllPresent dir ts

pub AllPresent-append :
    (dir : ℕ → ℕ) (ts : List Task) (t : Task)
    → AllPresent dir ts
    → entry_present (dir (pde_index t.v_addr)) ≡ true
    → AllPresent dir (ts ++ (t ∷ []))
AllPresent-append dir [] t a p = (p, tt)
AllPresent-append dir (s ∷ ts) t a p = (a.0, AllPresent-append dir ts t a.1 p)

pub store-at :
    (b i x : ℕ) (tables : Tables) (table : Table)
    → tables b ≡ some table
    → store b i x tables ≡ some (put_table b (some (put i x table)) tables)
store-at b i x tables table e = rw (e, store) refl

step-inv :
    (dir : ℕ → ℕ) (t : Task) (tables tables' : Tables)
    → step dir t tables ≡ some tables'
    → (table : Table) × (tables (remove_flags (dir (pde_index t.v_addr))) ≡ some table)
      × (tables'
          ≡ put_table
              (remove_flags (dir (pde_index t.v_addr)))
              (some (put (pte_index t.v_addr) t.pte table))
              tables)
step-inv dir t tables tables' run =
    elim (Option-cases (tables (remove_flags (dir (pde_index t.v_addr))))) [
      | inl e ↦ absurd (none-ne_some tables' (subst (λ o. stored_in o ≡ some tables') e run))
      | inr (table, e) ↦
          (table, e, sym (some-injective _ _ (subst (λ o. stored_in o ≡ some tables') e run)))
    ]
  where
    none-ne_some : (x : Tables) → none ≢ some x
    none-ne_some x = cc

    stored_in : Option Table → Option Tables
    stored_in o = elim o [
      | none ↦ none
      | some table ↦ some (
          put_table (remove_flags (dir (pde_index t.v_addr)))
            (some (put (pte_index t.v_addr) t.pte table)) tables)
    ]

commit-inv :
    (dir : ℕ → ℕ) (t : Task) (ts : List Task) (tables tables' : Tables)
    → commit_tasks dir (t ∷ ts) tables ≡ some tables'
    → (tables1 : Tables) × (step dir t tables ≡ some tables1)
      × (commit_tasks dir ts tables1 ≡ some tables')
unfolding commit_tasks
commit-inv dir t ts tables tables' run = elim (Option-cases (step dir t tables)) [
  | inl e ↦ absurd (none-ne_some tables' (subst (λ o. rest o ≡ some tables') e run))
  | inr (tables1, e) ↦ (tables1, e, subst (λ o. rest o ≡ some tables') e run)
]
  where
    none-ne_some : (x : Tables) → none ≢ some x
    none-ne_some x = cc

    rest : Option Tables → Option Tables
    rest o = elim o [ none ↦ none | some tables1 ↦ commit_tasks dir ts tables1 ]

commit-cons :
    (dir : ℕ → ℕ) (t : Task) (ts : List Task) (tables tables1 : Tables)
    → step dir t tables ≡ some tables1
    → commit_tasks dir (t ∷ ts) tables ≡ commit_tasks dir ts tables1
unfolding commit_tasks
commit-cons dir t ts tables tables1 e = rw (e, commit_tasks) refl

-- The last task is stored last.
pub commit-append :
    (dir : ℕ → ℕ) (ts : List Task) (t : Task) (tables tables' tables'' : Tables)
    → commit_tasks dir ts tables ≡ some tables'
    → step dir t tables' ≡ some tables''
    → commit_tasks dir (ts ++ (t ∷ [])) tables ≡ some tables''
unfolding commit_tasks
commit-append dir [] t tables tables' tables'' run last =
    let same : tables ≡ tables' = some-injective _ _ run in
    commit-cons dir t [] tables tables'' (subst (λ x. step dir t x ≡ some tables'') (sym same) last)
commit-append dir (s ∷ ts) t tables tables' tables'' run last =
    let (tables1, e, more) = commit-inv dir s ts tables tables' run in
    commit-cons dir s (ts ++ (t ∷ [])) tables tables1 e
    ∙ commit-append dir ts t tables1 tables' tables'' more last

-- A page that is not in use after a commit was not before.
pub commit-unused :
    (dir : ℕ → ℕ) (ts : List Task) (tables tables' : Tables) (m : ℕ)
    → commit_tasks dir ts tables ≡ some tables'
    → tables' m ≡ none
    → tables m ≡ none
unfolding commit_tasks
commit-unused dir [] tables tables' m run e =
    let same : tables ≡ tables' = some-injective _ _ run in ap (λ x. x m) same ∙ e
commit-unused dir (s ∷ ts) tables tables' m run e =
    let (tables1, f, more) = commit-inv dir s ts tables tables' run in
    let (table, held, new) = step-inv dir s tables tables1 f in
    let before : tables1 m ≡ none = commit-unused dir ts tables1 tables' m more e in
    let here : put_table (remove_flags (dir (pde_index s.v_addr)))
          (some (put (pte_index s.v_addr) s.pte table)) tables m
        ≡ none =
      ap (λ x. x m) (sym new) ∙ before in
    ground (arith, here)

-- A store to one table and the entry of another one.
put_table-swap :
    (b m : ℕ) (t u : Option Table) (tables : Tables)
    → b ≢ m
    → put_table b t (put_table m u tables) ≡ put_table m u (put_table b t tables)
put_table-swap b m t u tables ne = fun_ext (λ x. ground arith)

-- Entering a new table first leaves a task what it does.
step-enter :
    (dir : ℕ → ℕ) (t : Task) (tables tables1 : Tables) (i x m : ℕ) (u : Option Table)
    → entry_present (dir (pde_index t.v_addr)) ≡ true
    → entry_present (dir i) ≡ false
    → tables m ≡ none
    → step dir t tables ≡ some tables1
    → (step (put i x dir) t (put_table m u tables) ≡ some (put_table m u tables1))
      × (tables1 m ≡ none)
      × (put i x dir (pde_index t.v_addr) ≡ dir (pde_index t.v_addr))
step-enter dir t tables tables1 i x m u here absent unused run =
    let (table, held, new) = step-inv dir t tables tables1 run in
    let other : (pde_index t.v_addr == i) ≡ false = elim (Bool-cases (pde_index t.v_addr == i)) [
      | inl e ↦
          let at_i : pde_index t.v_addr ≡ i = ground arith in
          absurd (true-ne_false (sym here ∙ ap (λ j. entry_present (dir j)) at_i ∙ absent))
      | inr e ↦ e
    ] in
    let same : put i x dir (pde_index t.v_addr) ≡ dir (pde_index t.v_addr) = rw other refl in
    let apart : remove_flags (dir (pde_index t.v_addr)) ≢ m =
      λ e. absurd (some-ne_none table (sym held ∙ ap tables e ∙ unused)) in
    let missed : (remove_flags (dir (pde_index t.v_addr)) == m) ≡ false = ground (arith, apart) in
    let missed' : (m == remove_flags (dir (pde_index t.v_addr))) ≡ false = ground (arith, apart) in
    (
      rw same (
          store-at _ (pte_index t.v_addr) t.pte (put_table m u tables) table (rw missed held)
          ∙ ap some (put_table-swap _ m _ u tables apart ∙ ap (put_table m u) (sym new))),
      ap (λ y. y m) new ∙ rw missed' unused,
      same,
    )
  where
    true-ne_false : true ≢ false
    true-ne_false = cc

    some-ne_none : (y : Table) → some y ≢ none
    some-ne_none y = cc

-- Entering a new table first leaves the tasks what they do.
pub commit-enter :
    (dir : ℕ → ℕ) (ts : List Task) (tables tables' : Tables) (i x m : ℕ) (u : Option Table)
    → AllPresent dir ts
    → entry_present (dir i) ≡ false
    → tables m ≡ none
    → commit_tasks dir ts tables ≡ some tables'
    → (commit_tasks (put i x dir) ts (put_table m u tables) ≡ some (put_table m u tables'))
      × AllPresent (put i x dir) ts
unfolding commit_tasks
commit-enter dir [] tables tables' i x m u all absent unused run =
    (ap (λ y. some (put_table m u y)) (some-injective _ _ run), tt)
commit-enter dir (t ∷ ts) tables tables' i x m u all absent unused run =
    let (tables1, f, more) = commit-inv dir t ts tables tables' run in
    let (now, unused1, same) = step-enter dir t tables tables1 i x m u all.0 absent unused f in
    let (done, all') = commit-enter dir ts tables1 tables' i x m u all.1 absent unused1 more in
    (
      commit-cons (put i x dir) t ts (put_table m u tables) (put_table m u tables1) now ∙ done,
      (rw same all.0, all'),
    )
