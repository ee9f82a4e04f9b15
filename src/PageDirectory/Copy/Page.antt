-- ===== src/PageDirectory/Copy/Page.antt =====
-- `p_copy` and one round of `pt_copy`.
use custom_os_kernel.Base.{ℕ, ◌%◌, ◌^◌, ◌<◌, ◌≡◌, ◌≢◌, ap, ◌∙◌, true, false, arith, ◌==◌}
use custom_os_kernel.Base.Int.{pos}
use custom_os_kernel.PageDirectory.{entry_present, add_flags, remove_flags}
use custom_os_kernel.PageDirectory.Create.{add_flags-eq, add_flags-present, remove_flags-add_flags}
use custom_os_kernel.PageDirectory.Copy.{extract_flags, put_page, p_copy}

module _ (entry p : ℕ) (here : entry_present entry ≡ true) (aligned : p % 4096 ≡ 0)
    (word : p < 2 ^ 32) where
  extract_flags-PresentFlags : (extract_flags entry < 4096) × (extract_flags entry % 2 ≡ 1)
  extract_flags-PresentFlags = (omega arith, ground (arith, here))

  abbrev pub entry_at : ℕ
  entry_at = add_flags p (extract_flags entry)

  pub entry_at-frame : remove_flags entry_at ≡ p
  entry_at-frame =
      remove_flags-add_flags p (extract_flags entry) aligned word extract_flags-PresentFlags

  pub entry_at-present : entry_present entry_at ≡ true
  entry_at-present =
      add_flags-present p (extract_flags entry) aligned word extract_flags-PresentFlags

  pub entry_at-flags : entry_at % 4096 ≡ entry % 4096
  entry_at-flags =
      ap (λ x. x % 4096)
        (add_flags-eq p (extract_flags entry) aligned word extract_flags-PresentFlags)
      ∙ omega (arith, aligned)

  module _ {ℓ} {A : Type ℓ} (pages : ℕ → A) (v : ℕ) (v-ne : v ≢ 0) where
    pub p_copy_lem :
        p_copy true entry v p pages ≡ (pos 0, put_page p (pages (remove_flags entry)) pages)
    unfolding p_copy
    p_copy_lem =
        let given : (v == 0) ≡ false = ground (arith, v-ne) in
        rw given
          (ap (λ (a : ℕ). (pos 0, put_page a (pages (remove_flags entry)) pages)) entry_at-frame)
