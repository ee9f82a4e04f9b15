-- ===== src/PageDirectory/Create.antt =====
-- `pd_create_mapping` and `pd_remove_mapping` outside a batch.
use custom_os_kernel.Base.{
  ℕ, ◌+◌, ◌%◌, ◌^◌, ◌<◌, ◌≡◌, ◌≢◌, refl, sym, ap, subst, ◌∙◌, true, false, none, some, inl, inr,
  arith, ◌==◌, Bool-cases,
}
use custom_os_kernel.PageDirectory.{
  PageDirectory, Table, Tables, entry_present, add_flags, remove_flags, pde_index, put, put_table,
  enter_table, pd_get_mapping,
}
use custom_os_kernel.PageDirectory.Bits.{or-entry}
use custom_os_kernel.PageDirectory.Inv.{WellFormed, found}

-- What `memalign` gives: an aligned page that is not in use.
pub record Fresh (memalign : ℕ) (tables : Tables) : Type 0 where
  pub not_null : memalign ≢ 0
  pub aligned : memalign % 4096 ≡ 0
  pub word : memalign < 2 ^ 32
  pub unused : tables memalign ≡ none

-- Flags of a present entry.
abbrev pub PresentFlags : ℕ → Type 0
PresentFlags f = (f < 4096) × (f % 2 ≡ 1)

module _ (a f : ℕ) (low : a % 4096 ≡ 0) (lt : a < 2 ^ 32) (flags : PresentFlags f) where
  pub add_flags-eq : add_flags a f ≡ a + f
  add_flags-eq = or-entry a f lt low flags.0

  pub add_flags-present : entry_present (add_flags a f) ≡ true
  add_flags-present = ground (arith, add_flags-eq, flags.1)

  pub remove_flags-add_flags : remove_flags (add_flags a f) ≡ a
  remove_flags-add_flags = omega (arith, add_flags-eq, flags.0)

-- The entry of `i` has a table, and lookups find what they found.
pub record Entered (memalign : ℕ) (pd : PageDirectory) (tables : Tables) (i : ℕ)
    (pd' : PageDirectory) (tables' : Tables) : Type 0 where
  pub wf : WellFormed pd'.directory tables'
  pub here : entry_present (pd'.directory i) ≡ true
  pub batch : pd'.batch_enabled ≡ pd.batch_enabled
  pub tasks : pd'.mapping_tasks ≡ pd.mapping_tasks
  pub unused : (b : ℕ) → b ≢ memalign → tables b ≡ none → tables' b ≡ none
  pub same :
      (w : ℕ)
      → found (pd_get_mapping (some pd') tables' w) ≡ found (pd_get_mapping (some pd) tables w)

module _ (memalign : ℕ) (pd : PageDirectory) (tables : Tables) (i f : ℕ)
    (wf : WellFormed pd.directory tables) (fresh : Fresh memalign tables)
    (flags : PresentFlags f) where
  abbrev new : ℕ → ℕ
  new = put i (add_flags memalign f) pd.directory

  abbrev with_new : Tables
  with_new = put_table memalign (some (λ j. 0)) tables

  -- No table in use is the new one.
  old-ne :
      (j : ℕ) → entry_present (pd.directory j) ≡ true → remove_flags (pd.directory j) ≢ memalign
  old-ne j p e =
      let (t, q) = wf.backed j p in absurd (some-ne_none t (sym q ∙ ap tables e ∙ fresh.unused))
    where
      some-ne_none : (t : Table) → some t ≢ none
      some-ne_none t = cc

  new-base : remove_flags (add_flags memalign f) ≡ memalign
  new-base = remove_flags-add_flags memalign f fresh.aligned fresh.word flags

  new-here : entry_present (add_flags memalign f) ≡ true
  new-here = add_flags-present memalign f fresh.aligned fresh.word flags

  new-eq : (j : ℕ) → (j == i) ≡ true → new j ≡ add_flags memalign f
  new-eq j e = rw e refl

  new-ne : (j : ℕ) → (j == i) ≡ false → new j ≡ pd.directory j
  new-ne j e = rw e refl

  -- The tables in use are still there.
  old-table :
      (j : ℕ)
      → entry_present (pd.directory j) ≡ true
      → with_new (remove_flags (pd.directory j)) ≡ tables (remove_flags (pd.directory j))
  old-table j p =
      let ne : (remove_flags (pd.directory j) == memalign) ≡ false = ground (arith, old-ne j p) in
      rw ne refl

  new-WellFormed : WellFormed new with_new
  new-WellFormed = record {
    backed = λ j p. elim (Bool-cases (j == i)) [
      | inl e ↦ ((λ k. 0), rw (new-eq j e, new-base) (ground arith))
      | inr e ↦
          let p' : entry_present (pd.directory j) ≡ true =
            subst (λ x. entry_present x ≡ true) (new-ne j e) p in
          let (t, q) = wf.backed j p' in (t, rw (new-ne j e, old-table j p') q)
    ];
    apart = λ j k ne p q. elim (Bool-cases (j == i)) [
      | inl e ↦ elim (Bool-cases (k == i)) [
        | inl e' ↦ absurd (ne (ground arith))
        | inr e' ↦
            let q' : entry_present (pd.directory k) ≡ true =
              subst (λ x. entry_present x ≡ true) (new-ne k e') q in
            rw (new-eq j e, new-base, new-ne k e') (λ c. old-ne k q' (sym c))
      ]
      | inr e ↦
          let p' : entry_present (pd.directory j) ≡ true =
            subst (λ x. entry_present x ≡ true) (new-ne j e) p in
          elim (Bool-cases (k == i)) [
            | inl e' ↦ rw (new-eq k e', new-base, new-ne j e) (old-ne j p')
            | inr e' ↦
                let q' : entry_present (pd.directory k) ≡ true =
                  subst (λ x. entry_present x ≡ true) (new-ne k e') q in
                rw (new-ne j e, new-ne k e') (wf.apart j k ne p' q')
          ]
    ];
  }

  new-same :
      entry_present (pd.directory i) ≡ false
      → (w : ℕ)
      → found (pd_get_mapping (some (record pd { directory = new })) with_new w)
        ≡ found (pd_get_mapping (some pd) tables w)
  unfolding pd_get_mapping
  new-same absent w = elim (Bool-cases (pde_index w == i)) [
    | inl e ↦
        let at_i : pde_index w ≡ i = ground arith in
        let itself : (memalign == memalign) ≡ true = ground arith in
        rw (new-eq (pde_index w) e, new-here, new-base, itself, at_i, absent) refl
    | inr e ↦ elim (Bool-cases (entry_present (pd.directory (pde_index w)))) [
      | inl p ↦ rw (new-ne (pde_index w) e, p, old-table (pde_index w) p) refl
      | inr p ↦ rw (new-ne (pde_index w) e, p) refl
    ]
  ]

  pub enter_table-Entered :
      (resource : ℕ) × (pd' : PageDirectory) × (tables' : Tables) × (enter_table memalign pd tables
          i f
        ≡ some (resource, pd', tables'))
      × Entered memalign pd tables i pd' tables'
  unfolding enter_table
  enter_table-Entered = elim (Bool-cases (entry_present (pd.directory i))) [
    | inl p ↦ (
      0,
      pd,
      tables,
      rw p refl,
      record {
        wf = wf;
        here = p;
        batch = refl;
        tasks = refl;
        unused = λ b ne e. e;
        same = λ w. refl;
      },
    )
    | inr p ↦
        let given : (memalign == 0) ≡ false = ground (arith, fresh.not_null) in
        let itself : (i == i) ≡ true = ground arith in
        (
          memalign,
          record pd { directory = new },
          with_new,
          rw (p, given) refl,
          record {
            wf = new-WellFormed;
            here = rw (new-eq i itself) new-here;
            batch = refl;
            tasks = refl;
            unused =
                λ b ne e. let other : (b == memalign) ≡ false = ground (arith, ne) in rw other e;
            same = new-same p;
          },
        )
  ]
