-- ===== src/PageDirectory/Copy/Rounds.antt =====
-- `copy_entries` when memory is there, by rounds.
use custom_os_kernel.Base.{
  ℕ, zero, suc, ◌+◌, ◌*◌, ◌%◌, ◌^◌, ◌<◌, ◌≤◌, ◌≡◌, ◌≢◌, refl, sym, ap, subst, ◌∙◌, inl, inr, Bool,
  true, false, some, if◌then◌else◌, arith, ◌==◌, Bool-cases,
}
use custom_os_kernel.Base.Int.{ℤ, pos}
use custom_os_kernel.PageDirectory.{Table, entry_present, add_flags, remove_flags}
use custom_os_kernel.PageDirectory.Copy.{
  Copied, Copying, extract_flags, pt_copy, with_table, copy_entries,
}
use custom_os_kernel.PageDirectory.Copy.Entries.{
  num_present, PageCopied, TableCopied, FramesOutside, pt_copy-TableCopied, nat_eq,
}
use custom_os_kernel.PageDirectory.Copy.Directory.{total, TableOf, DirectoryCopied}

-- Entries that differ in presence are different ones.
present-ne :
    (src : ℕ → ℕ) → (j i : ℕ) → entry_present (src i) ≡ true → entry_present (src j) ≡ false → j ≢ i
present-ne src j i p n e = true-ne_false (sym p ∙ ap (λ x. entry_present (src x)) (sym e) ∙ n)
  where
    true-ne_false : true ≢ false
    true-ne_false = cc

module _ {ℓ} {A : Type ℓ} (memalign : ℕ → ℕ) (src : ℕ → ℕ) (pt : ℕ → Table) where
  module _ (kernel_pdes : ℕ) (buffer : ℕ → ℕ → Bool) (start end : ℕ)
      (given : (i : ℕ) → i < 1024 → memalign i ≢ 0)
      (apart : (i j : ℕ) → i < 1024 → j < 1024 → i ≢ j → memalign i ≢ memalign j)
      (rooms : (i j : ℕ) → buffer i j ≡ true) (word : end < 2 ^ 32)
      (outside : (i : ℕ) → entry_present (src i) ≡ true → FramesOutside start end (pt i)) where
    -- The state fits what is still to copy.
    pub record Ready (left i : ℕ) (c : Copying A) : Type 0 where
      pub from : start ≤ c.p_addr
      pub aligned : c.p_addr % 4096 ≡ 0
      pub fits : c.p_addr + 4096 * total src pt left i ≤ end
      pub user : 1 ≤ i
      pub backed :
          (j : ℕ)
          → i ≤ j
          → entry_present (src j) ≡ true
          → c.tables (remove_flags (src j)) ≡ some (pt j)
      pub within : i + left ≤ 1024
      pub unused :
          (j k : ℕ) → k < 1024 → entry_present (src j) ≡ true → remove_flags (src j) ≢ memalign k

    abbrev start_of : Copying A → Copied A
    start_of c = record { table = λ j. 0; pages = c.pages; p_addr = c.p_addr }

    module _ (k i : ℕ) (c : Copying A) (ready : Ready (suc k) i c)
        (here : entry_present (src i) ≡ true) where
      counted : total src pt (suc k) i ≡ num_present (pt i) 1024 0 + total src pt k (i + 1)
      unfolding total
      counted = ap (λ b. (if b then num_present (pt i) 1024 0 else 0) + total src pt k (i + 1)) here

      table_copied :
          (t : Copied A) × (pt_copy (buffer i) (pt i) i 1024 0 (start_of c) ≡ (pos 0, t))
          × TableCopied (pt i) 1024 0 (start_of c) t
      table_copied =
          pt_copy-TableCopied (pt i) (buffer i) i start end ready.user (rooms i) word
            (outside i here) 1024 0 (start_of c)
            (record {
              from = ready.from;
              aligned = ready.aligned;
              fits = omega (arith, counted, ready.fits);
            })

      abbrev next : Copied A → Copying A
      next t = with_table (memalign i) i (src i) c t

      copy_entries-step :
          (t : Copied A)
          → pt_copy (buffer i) (pt i) i 1024 0 (start_of c) ≡ (pos 0, t)
          → copy_entries kernel_pdes memalign buffer src (suc k) i c
            ≡ copy_entries kernel_pdes memalign buffer src k (i + 1) (next t)
      unfolding copy_entries
      copy_entries-step t e =
          let null : (memalign i == 0) ≡ false =
            ground (arith, given i (omega (arith, ready.within))) in
          let b : c.tables (remove_flags (src i)) ≡ some (pt i) =
            ready.backed i (omega arith) here in
          rw (copy_entries, here, null, b)
            (ap
              (λ (r : ℤ × Copied A).
                copy_entries kernel_pdes memalign buffer src k (i + 1) (next r.1))
              e)

      module _ (t : Copied A) (copied : TableCopied (pt i) 1024 0 (start_of c) t) where
        other_entry : (j : ℕ) → j ≢ i → (next t).directory j ≡ c.directory j
        other_entry j ne =
            let e : (j == i) ≡ false = ground (arith, ne) in
            ap
              (λ (b : Bool).
                if b then add_flags (memalign i) (extract_flags (src i)) else c.directory j)
              e

        other_table : (b : ℕ) → b ≢ memalign i → (next t).tables b ≡ c.tables b
        other_table b ne =
            let e : (b == memalign i) ≡ false = ground (arith, ne) in
            ap (λ (x : Bool). if x then some t.table else c.tables b) e

        next-Ready : Ready k (i + 1) (next t)
        next-Ready = record {
          from = omega (arith, copied.advanced, ready.from);
          aligned = omega (arith, copied.advanced, ready.aligned);
          fits = omega (arith, copied.advanced, counted, ready.fits);
          user = omega (arith, ready.user);
          within = omega (arith, ready.within);
          backed = λ j ge p.
              other_table (remove_flags (src j)) (ready.unused j i (omega (arith, ready.within)) p)
              ∙ ready.backed j (omega arith) p;
          unused = ready.unused;
        }

        module _ (c' : Copying A)
            (rest : DirectoryCopied memalign src pt k (i + 1) (next t) c') where
          -- What is left to copy fits as well.
          t-fits : t.p_addr + 4096 * total src pt k (i + 1) ≤ end
          t-fits = omega (arith, copied.advanced, counted, ready.fits)

          this-PageCopied :
              (e : ℕ)
              → e < 1024
              → entry_present (pt i e) ≡ true
              → PageCopied (pt i e) c.p_addr c'.p_addr c.pages (t.table e) c'.pages
          this-PageCopied e lt p =
              let page = copied.each e (omega arith) (omega (arith, lt)) p in
              record {
                here = page.here;
                flags = page.flags;
                from = page.from;
                to = omega (arith, page.to, rest.advanced);
                same =
                    rest.kept (remove_flags (t.table e)) (inl (omega (arith, page.to))) ∙ page.same;
              }

          this_table : c'.tables (memalign i) ≡ some t.table
          this_table =
              let itself : (memalign i == memalign i) ≡ true = ground arith in
              rest.others (memalign i) (λ j ge lt.
                apart i j (omega (arith, ready.within)) (omega (arith, ready.within)) (omega arith))
              ∙ ap (λ (x : Bool). if x then some t.table else c.tables (memalign i)) itself

          this-TableOf : TableOf (pt i) c.p_addr c'.p_addr c.pages t.table c'.pages
          this-TableOf = record { absent = copied.absent; each = this-PageCopied }

          later-PageCopied :
              (j e x : ℕ)
              → entry_present (src j) ≡ true
              → entry_present (pt j e) ≡ true
              → PageCopied (pt j e) t.p_addr c'.p_addr t.pages x c'.pages
              → PageCopied (pt j e) c.p_addr c'.p_addr c.pages x c'.pages
          later-PageCopied j e x p q page = record {
            here = page.here;
            flags = page.flags;
            from = omega (arith, page.from, copied.advanced);
            to = page.to;
            same = page.same ∙ elim (outside j p e q) [
              | inl lt ↦ copied.kept (remove_flags (pt j e)) (inl (omega (arith, lt, ready.from)))
              | inr ge ↦ copied.kept (remove_flags (pt j e)) (inr (omega (arith, ge, t-fits)))
            ];
          }

          later_table :
              (j : ℕ)
              → entry_present (src j) ≡ true
              → (new : Table) × (c'.tables (memalign j) ≡ some new)
                × TableOf (pt j) t.p_addr c'.p_addr t.pages new c'.pages
              → (new : Table) × (c'.tables (memalign j) ≡ some new)
                × TableOf (pt j) c.p_addr c'.p_addr c.pages new c'.pages
          later_table j p (new, e, of) = (
            new,
            e,
            record {
              absent = of.absent;
              each = λ x lt q. later-PageCopied j x (new x) p q (of.each x lt q);
            },
          )

          this_entry : c'.directory i ≡ add_flags (memalign i) (extract_flags (src i))
          this_entry =
              let itself : (i == i) ≡ true = ground arith in
              rest.below i (omega arith)
              ∙ ap
                  (λ (b : Bool).
                    if b then add_flags (memalign i) (extract_flags (src i)) else c.directory i)
                  itself

          next-DirectoryCopied : DirectoryCopied memalign src pt (suc k) i c c'
          next-DirectoryCopied = record {
            advanced = omega (arith, rest.advanced, copied.advanced, counted);
            absent = λ j n. rest.absent j n ∙ other_entry j (present-ne src j i here n);
            below = λ j lt. rest.below j (omega arith) ∙ other_entry j (omega arith);
            entry = λ j ge lt p. elim (Bool-cases (j == i)) [
              | inl e ↦
                  subst (λ x. c'.directory x ≡ add_flags (memalign x) (extract_flags (src x)))
                    (sym (nat_eq j i e)) this_entry
              | inr e ↦ rest.entry j (ground arith) (omega arith) p
            ];
            table = λ j ge lt p. elim (Bool-cases (j == i)) [
              | inl e ↦
                  subst
                    (λ x.
                      (new : Table) × (c'.tables (memalign x) ≡ some new)
                      × TableOf (pt x) c.p_addr c'.p_addr c.pages new c'.pages)
                    (sym (nat_eq j i e)) (t.table, this_table, this-TableOf)
              | inr e ↦ later_table j p (rest.table j (ground arith) (omega arith) p)
            ];
            others = λ b ne.
                rest.others b (λ j ge lt. ne j (omega arith) (omega arith))
                ∙ other_table b (ne i (omega arith) (omega arith));
            kept = λ b out. elim out [
              | inl lt ↦ rest.kept b (inl (omega (arith, copied.advanced))) ∙ copied.kept b (inl lt)
              | inr ge ↦ rest.kept b (inr ge) ∙ copied.kept b (inr (omega (arith, rest.advanced)))
            ];
          }

    module _ (k i : ℕ) (c : Copying A) (ready : Ready (suc k) i c)
        (gone : entry_present (src i) ≡ false) where
      not_counted : total src pt (suc k) i ≡ total src pt k (i + 1)
      unfolding total
      not_counted =
          ap (λ b. (if b then num_present (pt i) 1024 0 else 0) + total src pt k (i + 1)) gone
          ∙ omega arith

      skip-Ready : Ready k (i + 1) c
      skip-Ready = record {
        from = ready.from;
        aligned = ready.aligned;
        fits = omega (arith, not_counted, ready.fits);
        user = omega (arith, ready.user);
        within = omega (arith, ready.within);
        backed = λ j ge p. ready.backed j (omega arith) p;
        unused = ready.unused;
      }

      copy_entries-skip :
          copy_entries kernel_pdes memalign buffer src (suc k) i c
          ≡ copy_entries kernel_pdes memalign buffer src k (i + 1) c
      unfolding copy_entries
      copy_entries-skip = rw (copy_entries, gone) refl

      skip-DirectoryCopied :
          (c' : Copying A)
          → DirectoryCopied memalign src pt k (i + 1) c c'
          → DirectoryCopied memalign src pt (suc k) i c c'
      skip-DirectoryCopied c' rest = record {
        advanced = omega (arith, rest.advanced, not_counted);
        absent = rest.absent;
        below = λ j lt. rest.below j (omega arith);
        entry = λ j ge lt p.
            let ne = present-ne src i j p gone in rest.entry j (omega (arith, ne)) (omega arith) p;
        table = λ j ge lt p.
            let ne = present-ne src i j p gone in rest.table j (omega (arith, ne)) (omega arith) p;
        others = λ b ne. rest.others b (λ j ge lt. ne j (omega arith) (omega arith));
        kept = rest.kept;
      }

    done-DirectoryCopied : (i : ℕ) → (c : Copying A) → DirectoryCopied memalign src pt 0 i c c
    unfolding total
    done-DirectoryCopied i c = record {
      advanced = omega arith;
      absent = λ j n. refl;
      below = λ j lt. refl;
      entry = λ j ge lt p. absurd (omega arith);
      table = λ j ge lt p. absurd (omega arith);
      others = λ b ne. refl;
      kept = λ b out. refl;
    }

    pub copy_entries-DirectoryCopied :
        (left i : ℕ)
        → (c : Copying A) → Ready left i c
        → (c' : Copying A) × (copy_entries kernel_pdes memalign buffer src left i c
            ≡ some (pos 0, c'))
          × DirectoryCopied memalign src pt left i c c'
    unfolding copy_entries
    copy_entries-DirectoryCopied zero i c ready = (c, refl, done-DirectoryCopied i c)
    copy_entries-DirectoryCopied (suc k) i c ready = elim (Bool-cases (entry_present (src i))) [
      | inl p ↦
          let (t, e, copied) = table_copied k i c ready p in
          let (c', e', rest) =
            copy_entries-DirectoryCopied k (i + 1) (next k i c ready p t)
              (next-Ready k i c ready p t copied) in
          (
            c',
            copy_entries-step k i c ready p t e ∙ e',
            next-DirectoryCopied k i c ready p t copied c' rest,
          )
      | inr n ↦
          let (c', e, rest) = copy_entries-DirectoryCopied k (i + 1) c (skip-Ready k i c ready n) in
          (c', copy_entries-skip k i c ready n ∙ e, skip-DirectoryCopied k i c ready n c' rest)
    ]
