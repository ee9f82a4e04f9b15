-- ===== src/VirtualMem/Refuse.antt =====
-- Which requests for new pages kern/virtual_mem_mgmt/virtual_mem_mgmt.c refuses at once.
use custom_os_kernel.Base.{
  ℕ, zero, suc, ◌+◌, ◌*◌, ◌%◌, ◌^◌, ◌≤◌, ◌<◌, ◌≡◌, ◌∙◌, ap, sym, refl, Bool, true, false,
  Bool-cases, inl, inr, Option, none, some, ◌==◌, ◌||◌, ltb, arith, add32, sub32,
}
use custom_os_kernel.Base.Int.{ℤ, pos, negsuc, neg}
use custom_os_kernel.PageDirectory.{
  PageDirectory, Tables, entry_present, pde_index, pte_index, pd_get_mapping,
}
use custom_os_kernel.PageDirectory.Inv.{WellFormed}
use custom_os_kernel.VirtualMem.{
  Supply, Memory, any_mapped, unless_mapped, back_pages, user_flags, vmm_new_user_page,
}

-- The address is mapped.
abbrev pub Mapped : PageDirectory → Tables → ℕ → Type 0
Mapped pd tables v = (e : Option ℕ) × (pd_get_mapping (some pd) tables v ≡ some (pos 0, e))

-- The address of page `i` from `v` on.
abbrev pub page_at : ℕ → ℕ → ℕ
page_at v i = (v + i * 4096) % 2 ^ 32

-- A lookup ends.
get_mapping-ends :
    (pd : PageDirectory) (tables : Tables) (v : ℕ)
    → WellFormed pd.directory tables
    → (s : ℤ) × (e : Option ℕ) × (pd_get_mapping (some pd) tables v ≡ some (s, e))
unfolding pd_get_mapping
get_mapping-ends pd tables v wf = elim (Bool-cases (entry_present (pd.directory (pde_index v)))) [
  | inr absent ↦ (neg 2, none, rw absent refl)
  | inl here ↦
      let (table, its) = wf.backed (pde_index v) here in
      elim (Bool-cases (entry_present (table (pte_index v)))) [
        | inl there ↦ (pos 0, some (table (pte_index v)), rw (here, its) (rw there refl))
        | inr missing ↦ (neg 3, none, rw (here, its) (rw missing refl))
      ]
]

-- One round of the loop, by what its lookup answers.
abbrev after_lookup : Option Bool → Option (ℤ × Option ℕ) → Option Bool
after_lookup rest none = none
after_lookup rest (some (pos zero, e)) = some true
after_lookup rest (some (pos (suc s), e)) = rest
after_lookup rest (some (negsuc s, e)) = rest

module _ (pd : PageDirectory) (tables : Tables) (wf : WellFormed pd.directory tables) where
  -- The loop finds a page that is mapped.
  any_mapped-found :
      (n v i : ℕ)
      → v < 2 ^ 32
      → i < n
      → Mapped pd tables (page_at v i)
      → any_mapped n pd tables v ≡ some true
  unfolding any_mapped
  any_mapped-found zero v i word lt mapped = absurd (omega arith)
  any_mapped-found (suc n) v zero word lt (e, at) =
      let here : page_at v 0 ≡ v = omega arith in
      ap (after_lookup (any_mapped n pd tables (add32 v 4096)))
        (ap (pd_get_mapping (some pd) tables) (sym here) ∙ at)
  any_mapped-found (suc n) v (suc i) word lt (e, at) =
      let there : page_at v (suc i) ≡ page_at (add32 v 4096) i = omega arith in
      let rest =
        any_mapped-found n (add32 v 4096) i (omega arith) (omega arith)
          (e, ap (pd_get_mapping (some pd) tables) (sym there) ∙ at) in
      let (s, e', ends) = get_mapping-ends pd tables v wf in
      ap (after_lookup (any_mapped n pd tables (add32 v 4096))) ends ∙ passes s e' rest
    where
      passes :
          (s : ℤ) (e' : Option ℕ)
          → any_mapped n pd tables (add32 v 4096) ≡ some true
          → after_lookup (any_mapped n pd tables (add32 v 4096)) (some (s, e')) ≡ some true
      passes (pos zero) e' rest = refl
      passes (pos (suc s)) e' rest = rest
      passes (negsuc s) e' rest = rest

-- A request for pages one of which is mapped already is refused with -3, where the number of pages is
-- from 1 to 65535, they do not pass 2^32, and the page directory is well formed; nothing changes.
pub new_user_page-Mapped :
    (s : Supply) (m : Memory) (base n i : ℕ)
    → WellFormed m.pd.directory m.tables
    → 0 < n
    → n < 65536
    → base + n * 4096 ≤ 2 ^ 32
    → i < n
    → Mapped m.pd m.tables (base + i * 4096)
    → vmm_new_user_page s m base n ≡ some (neg 3, m)
unfolding vmm_new_user_page
new_user_page-Mapped s m base n i wf some_pages few fits lt (e, at) =
    let number : (n == 0 || ltb 65535 n) ≡ false = ground arith in
    let below : ltb (sub32 (add32 base (n * 4096)) 1) base ≡ false = ground arith in
    let there : page_at base i ≡ base + i * 4096 = omega arith in
    let found =
      any_mapped-found m.pd m.tables wf n base i (omega arith) lt
        (e, ap (pd_get_mapping (some m.pd) m.tables) there ∙ at) in
    rw (number, below)
      (ap (unless_mapped (back_pages s (user_flags n) (neg 4) base n (n * 4096) m) m) found)
