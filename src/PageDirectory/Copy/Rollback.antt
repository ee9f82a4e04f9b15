-- ===== src/PageDirectory/Copy/Rollback.antt =====
-- `pd_deep_copy` where memory runs out at the first page table.
mod Examples
use custom_os_kernel.Base.{
  ℕ, zero, suc, ◌+◌, ◌*◌, ◌-◌, ◌%◌, ◌<◌, ◌≤◌, ◌≡◌, refl, sym, ap, subst, ◌∙◌, ◌⊎◌, inl, inr, Bool,
  true, false, Option, none, some, if◌then◌else◌, ◌&&◌, arith, ◌==◌, leb, ltb, Bool-cases,
}
use custom_os_kernel.Base.Int.{ℤ, neg}
use custom_os_kernel.PageDirectory.{Tables, entry_present}
use custom_os_kernel.PageDirectory.Copy.{Copying, copy_entries, rolled_back, pd_deep_copy}

module _ {ℓ} {A : Type ℓ} (kernel_pdes : ℕ) (memalign : ℕ → ℕ) (buffer : ℕ → ℕ → Bool) (src : ℕ → ℕ)
    (m : ℕ) (here : entry_present (src m) ≡ true) (no_memory : memalign m ≡ 0) where
  copy_entries-full :
      (k : ℕ)
      → (c : Copying A)
      → copy_entries kernel_pdes memalign buffer src (suc k) m c
        ≡ some (neg 2, rolled_back kernel_pdes m c)
  unfolding copy_entries
  copy_entries-full k c =
      let null : (memalign m == 0) ≡ true = ground (arith, no_memory) in
      rw (copy_entries, here, null) refl

  copy_entries-first :
      (left i : ℕ)
      → (c : Copying A) → i ≤ m
      → m < i + left
      → ((j : ℕ) → i ≤ j → j < m → entry_present (src j) ≡ false)
      → copy_entries kernel_pdes memalign buffer src left i c
        ≡ some (neg 2, rolled_back kernel_pdes m c)
  unfolding copy_entries
  copy_entries-first zero i c le lt gone = absurd (omega (arith, le, lt))
  copy_entries-first (suc k) i c le lt gone = elim (Bool-cases (i == m)) [
    | inl e ↦
        let at : i ≡ m = ground (arith, e) in
        subst
          (λ x.
            copy_entries kernel_pdes memalign buffer src (suc k) x c
            ≡ some (neg 2, rolled_back kernel_pdes m c))
          (sym at) (copy_entries-full k c)
    | inr ne ↦
        rw (copy_entries, gone i (omega arith) (ground (arith, ne)))
          (copy_entries-first k (i + 1) c (ground (arith, ne)) (omega (arith, lt))
            (λ j ge lt'. gone j (omega arith) lt'))
  ]

  -- Where memalign gives no table for the first user entry of the source that is present, the copy
  -- returns -2 and every user entry of the new directory below it becomes what stood in the array
  -- of saved entries, which nothing was stored to. The other entries and the pages are as before.
  pub pd_deep_copy-Unsaved :
      (backup dest : ℕ → ℕ)
      → (tables : Tables) → (pages : ℕ → A) → (p_addr : ℕ) → kernel_pdes ≤ m
      → m < 1024
      → ((j : ℕ) → kernel_pdes ≤ j → j < m → entry_present (src j) ≡ false)
      → (c' : Copying A) × (pd_deep_copy kernel_pdes memalign buffer backup dest src tables pages
            p_addr
          ≡ some (neg 2, c'))
        × ((j : ℕ) → kernel_pdes ≤ j → j < m → c'.directory j ≡ backup j)
        × ((j : ℕ) → (j < kernel_pdes) ⊎ (m ≤ j) → c'.directory j ≡ dest j)
        × (c'.pages ≡ pages)
  unfolding pd_deep_copy
  pd_deep_copy-Unsaved backup dest tables pages p_addr le lt gone = (
    _,
    copy_entries-first (1024 - kernel_pdes) kernel_pdes _ le (omega (arith, le, lt)) gone,
    λ j ge lt'.
        let e : (leb kernel_pdes j && ltb j m) ≡ true = ground (arith, ge, lt') in
        ap (λ (b : Bool). if b then backup j else dest j) e,
    λ j out.
        let e : (leb kernel_pdes j && ltb j m) ≡ false = ground (arith, out) in
        ap (λ (b : Bool). if b then backup j else dest j) e,
    refl,
  )
