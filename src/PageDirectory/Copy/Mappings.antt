-- ===== src/PageDirectory/Copy/Mappings.antt =====
-- `pd_deep_copy`: what the copied address space maps.
use custom_os_kernel.Base.{
  ℕ, ◌+◌, ◌-◌, ◌%◌, ◌<◌, ◌≤◌, ◌≡◌, ◌≢◌, refl, sym, ap, subst, ◌∙◌, inl, inr, Bool, true, false,
  none, some, arith, Bool-cases,
}
use custom_os_kernel.Base.Int.{pos}
use custom_os_kernel.PageDirectory.{
  PageDirectory, Table, Tables, entry_present, add_flags, remove_flags, pde_index, pte_index,
  pd_get_mapping,
}
use custom_os_kernel.PageDirectory.Create.{remove_flags-add_flags, add_flags-present}
use custom_os_kernel.PageDirectory.Inv.{found}
use custom_os_kernel.PageDirectory.Copy.{Copying, extract_flags, pd_deep_copy}
use custom_os_kernel.PageDirectory.Copy.Entries.{PageCopied}
use custom_os_kernel.PageDirectory.Copy.Directory.{TableOf, DirectoryCopied}
use custom_os_kernel.PageDirectory.Copy.Rounds.{copy_entries-DirectoryCopied}
use custom_os_kernel.PageDirectory.Copy.Lookup.{
  copied_present, found-absent, found-entry, found-no_entry, found-some, AddressSpaceCopied,
  CanCopy,
}

module _ {ℓ} {A : Type ℓ} (kernel_pdes : ℕ) (memalign : ℕ → ℕ) (buffer : ℕ → ℕ → Bool)
    (start end : ℕ) (backup : ℕ → ℕ) (src dest : PageDirectory) (pt : ℕ → Table) (tables : Tables)
    (pages : ℕ → A)
    (can : CanCopy kernel_pdes memalign buffer start end src.directory pt tables) where
  not_new :
      (j k : ℕ)
      → k < 1024
      → entry_present (src.directory j) ≡ true
      → remove_flags (src.directory j) ≢ memalign k
  not_new j k lt p e = some-ne_none (sym (can.backed j p) ∙ ap tables e ∙ can.fresh.unused k lt)
    where
      some-ne_none : some (pt j) ≢ none
      some-ne_none = cc

  abbrev start_state : Copying A
  start_state = record {
    directory = dest.directory;
    backup = backup;
    tables = tables;
    pages = pages;
    p_addr = start;
  }

  directory_copied :
      (c' : Copying A) × (pd_deep_copy kernel_pdes memalign buffer backup dest.directory
          src.directory tables pages start
        ≡ some (pos 0, c'))
      × DirectoryCopied memalign src.directory pt (1024 - kernel_pdes) kernel_pdes start_state c'
  unfolding pd_deep_copy
  directory_copied =
      copy_entries-DirectoryCopied memalign src.directory pt kernel_pdes buffer start end
        can.fresh.not_null can.fresh.apart can.rooms can.word can.outside (1024 - kernel_pdes)
        kernel_pdes start_state
        (record {
          from = omega arith;
          aligned = can.aligned;
          fits = can.fits;
          user = can.kernel.0;
          within = omega (arith, can.kernel.1);
          backed = λ j ge p. can.backed j p;
          unused = not_new;
        })

  module _ (c' : Copying A)
      (copied : DirectoryCopied memalign src.directory pt
        (1024 - kernel_pdes)
        kernel_pdes
        start_state
        c') where
    abbrev dest' : PageDirectory
    dest' = record dest { directory = c'.directory }

    module _ (j : ℕ) (ge : kernel_pdes ≤ j) (lt : j < 1024)
        (p : entry_present (src.directory j) ≡ true) where
      abbrev its_entry : ℕ
      its_entry = add_flags (memalign j) (extract_flags (src.directory j))

      extract_flags-PresentFlags :
          (extract_flags (src.directory j) < 4096) × (extract_flags (src.directory j) % 2 ≡ 1)
      extract_flags-PresentFlags = (omega arith, ground (arith, p))

      in_range : j < kernel_pdes + (1024 - kernel_pdes)
      in_range = omega (arith, lt, can.kernel.1)

      dest-present : entry_present (c'.directory j) ≡ true
      dest-present =
          ap (λ x. entry_present x) (copied.entry j ge in_range p)
          ∙ add_flags-present (memalign j) (extract_flags (src.directory j))
              (can.fresh.aligned j lt) (can.fresh.word j lt) extract_flags-PresentFlags

      dest-base : remove_flags (c'.directory j) ≡ memalign j
      dest-base =
          ap (λ x. remove_flags x) (copied.entry j ge in_range p)
          ∙ remove_flags-add_flags (memalign j) (extract_flags (src.directory j))
              (can.fresh.aligned j lt) (can.fresh.word j lt) extract_flags-PresentFlags

      its_table :
          (new : Table) × (c'.tables (remove_flags (c'.directory j)) ≡ some new)
          × TableOf (pt j) start c'.p_addr pages new c'.pages
      its_table =
          let (new, e, of) = copied.table j ge in_range p in (new, ap c'.tables dest-base ∙ e, of)

    p_addr-end : c'.p_addr ≤ end
    p_addr-end = omega (arith, copied.advanced, can.fits)

    widened :
        (x x' : ℕ)
        → PageCopied x start c'.p_addr pages x' c'.pages
        → PageCopied x start end pages x' c'.pages
    widened x x' page = record {
      here = page.here;
      flags = page.flags;
      from = page.from;
      to = omega (arith, page.to, p_addr-end);
      same = page.same;
    }

    mapped :
        (v x : ℕ)
        → kernel_pdes ≤ pde_index v
        → found (pd_get_mapping (some src) tables v) ≡ some x
        → (x' : ℕ) × (found (pd_get_mapping (some dest') c'.tables v) ≡ some x')
          × PageCopied x start end pages x' c'.pages
    mapped v x ge e =
        let (p, q, at) =
          found-some src tables v (pt (pde_index v)) (can.backed (pde_index v)) x e in
        let (new, its, of) = its_table (pde_index v) ge (omega arith) p in
        let page = of.each (pte_index v) (omega arith) q in
        (
          new (pte_index v),
          found-entry dest' c'.tables v new (dest-present (pde_index v) ge (omega arith) p) its
              page.here,
          subst (λ y. PageCopied y start end pages (new (pte_index v)) c'.pages) at
              (widened (pt (pde_index v) (pte_index v)) (new (pte_index v)) page),
        )

    unmapped :
        (v : ℕ)
        → kernel_pdes ≤ pde_index v
        → found (pd_get_mapping (some src) tables v) ≡ none
        → entry_present (dest.directory (pde_index v)) ≡ false
        → found (pd_get_mapping (some dest') c'.tables v) ≡ none
    unmapped v ge e clear = elim (Bool-cases (entry_present (src.directory (pde_index v)))) [
      | inr n ↦
          found-absent dest' c'.tables v
            (ap (λ x. entry_present x) (copied.absent (pde_index v) n) ∙ clear)
      | inl p ↦
          let (new, its, of) = its_table (pde_index v) ge (omega arith) p in
          elim (Bool-cases (entry_present (pt (pde_index v) (pte_index v)))) [
            | inl q ↦ absurd (
                some-ne_none (
                  sym (found-entry src tables v (pt (pde_index v)) p (can.backed (pde_index v) p) q)
                  ∙ e))
            | inr n ↦
                found-no_entry dest' c'.tables v new (dest-present (pde_index v) ge (omega arith) p)
                  its
                  (copied_present (pt (pde_index v)) new start c'.p_addr pages c'.pages of
                      (pte_index v) (omega arith)
                    ∙ n)
          ]
    ]
      where
        some-ne_none : {n : ℕ} → some n ≢ none
        some-ne_none = cc

    source : (v : ℕ) → pd_get_mapping (some src) c'.tables v ≡ pd_get_mapping (some src) tables v
    unfolding pd_get_mapping
    source v = elim (Bool-cases (entry_present (src.directory (pde_index v)))) [
      | inr n ↦ rw n refl
      | inl p ↦
          rw
            (
              p,
              copied.others (remove_flags (src.directory (pde_index v)))
                  (λ j ge lt. not_new (pde_index v) j (omega (arith, lt, can.kernel.1)) p),
            )
            refl
    ]

  pub pd_deep_copy-AddressSpaceCopied :
      (c' : Copying A) × (pd_deep_copy kernel_pdes memalign buffer backup dest.directory
          src.directory tables pages start
        ≡ some (pos 0, c'))
      × AddressSpaceCopied kernel_pdes start end src dest tables pages
          (record dest { directory = c'.directory })
          c'.tables
          c'.pages
  pd_deep_copy-AddressSpaceCopied =
      let (c', e, copied) = directory_copied in
      (
        c',
        e,
        record {
          mapped = mapped c' copied;
          unmapped = unmapped c' copied;
          kernel = copied.below;
          source = source c' copied;
          kept = λ b out. elim out [
            | inl lt ↦ copied.kept b (inl lt)
            | inr ge ↦ copied.kept b (inr (omega (arith, p_addr-end c' copied)))
          ];
        },
      )
