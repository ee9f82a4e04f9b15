-- ===== src/PageDirectory/Kernel/Direct.antt =====
-- What `pd_init_kernel` and `pd_init` map.
use custom_os_kernel.Base.{
  ℕ, zero, suc, ◌+◌, ◌-◌, ◌*◌, ◌/◌, ◌%◌, ◌^◌, ◌<◌, ◌≤◌, ◌≡◌, ◌≢◌, ◌⊎◌, inl, inr, refl, sym, ap,
  subst, ◌∙◌, true, false, Option, none, some, [], if◌then◌else◌, arith, ◌==◌, ltb, Bool-cases,
}
use custom_os_kernel.Base.Int.{ℤ, pos, negsuc, neg}
use custom_os_kernel.PageDirectory.{
  PageDirectory, Tables, Room, entry_present, pde_index, pd_get_mapping, pd_create_mapping,
}
use custom_os_kernel.PageDirectory.Inv.{WellFormed, found, OtherPage}
use custom_os_kernel.PageDirectory.Map.{create-Mapped}
use custom_os_kernel.PageDirectory.Frames.{Frames}
use custom_os_kernel.PageDirectory.Kernel.{
  KernelSpace, kernel_pte_flags, kernel_pde_flags, map_kernel, kernel_mapped, pd_init_kernel,
  initialize_kernel, pd_init,
}

-- The pages from 1 to `i` are mapped to themselves, and no other page is.
pub record DirectMap (i : ℕ) (pd : PageDirectory) (tables : Tables) : Type 0 where
  pub direct :
      (m : ℕ)
      → 1 ≤ m
      → m < i
      → found (pd_get_mapping (some pd) tables (m * 4096)) ≡ some (m * 4096 + kernel_pte_flags)
  pub others :
      (w : ℕ)
      → w < 2 ^ 32
      → (w / 4096 ≡ 0) ⊎ (i ≤ w / 4096)
      → found (pd_get_mapping (some pd) tables w) ≡ none

nat_eq : (j i : ℕ) → (j == i) ≡ true → j ≡ i
nat_eq j i e = ground (arith, e)

module _ (memalign : ℕ → ℕ) (room : ℕ → Room) (n : ℕ) (fits : n ≤ 1048576)
    (given : (i : ℕ) → i < n → (memalign i ≢ 0) × (memalign i % 4096 ≡ 0) × (memalign i < 2 ^ 32))
    (apart : (i j : ℕ) → i < n → j < n → i ≢ j → memalign i ≢ memalign j) where
  -- The loop stands at page `i`.
  pub record Reached (i : ℕ) (pd : PageDirectory) (tables : Tables) : Type 0 where
    pub wf : WellFormed pd.directory tables
    pub no_batch : pd.batch_enabled ≡ false
    pub unused : (j : ℕ) → i ≤ j → j < n → tables (memalign j) ≡ none
    pub map : DirectMap i pd tables

  other_page : (i w : ℕ) → i < n → w < 2 ^ 32 → w / 4096 ≢ i → OtherPage (i * 4096) w
  other_page i w lt word ne = elim (Bool-cases (pde_index w == pde_index (i * 4096))) [
    | inl e ↦ inr (λ q. ne (ground (arith, e, q, lt, fits, word)))
    | inr e ↦ inl (ground (arith, e))
  ]

  one_page :
      (i : ℕ)
      → 1 ≤ i
      → i < n
      → (pd : PageDirectory) → (tables : Tables) → Reached i pd tables
      → (pd' : PageDirectory) × (tables' : Tables) × (pd_create_mapping
            (memalign i)
            (room i)
            pd
            tables
            (i * 4096)
            (i * 4096)
            kernel_pte_flags
            kernel_pde_flags
          ≡ some (pos 0, pd', tables'))
        × Reached (i + 1) pd' tables'
  one_page i some_page lt pd tables r =
      let (not_null, aligned, word) = given i lt in
      let (pd', tables', e, m) =
        create-Mapped (memalign i) (room i) pd tables (i * 4096) (i * 4096) kernel_pte_flags
          kernel_pde_flags r.wf
          (record {
            not_null = not_null;
            aligned = aligned;
            word = word;
            unused = r.unused i (omega arith) lt;
          })
          r.no_batch (omega arith) (omega arith) (omega (arith, lt, fits)) (omega arith, refl)
          (omega arith, refl) in
      (
        pd',
        tables',
        e,
        record {
          wf = m.wf;
          no_batch = m.batch ∙ r.no_batch;
          unused = λ j le lt'.
              m.unused (memalign j) (apart j i lt' lt (omega (arith, le)))
                (r.unused j (omega (arith, le)) lt');
          map = record {
            direct = λ k ge lt'. elim (Bool-cases (k == i)) [
              | inl same ↦
                  subst
                    (λ x.
                      found (pd_get_mapping (some pd') tables' (x * 4096))
                      ≡ some (x * 4096 + kernel_pte_flags))
                    (sym (nat_eq k i same)) (ap found m.get)
              | inr ne ↦
                  m.others (k * 4096) (
                    other_page i (k * 4096) lt (omega (arith, lt, lt', fits))
                      (λ q. ground (arith, ne, q)))
                  ∙ r.map.direct k ge (ground (arith, ne, lt'))
            ];
            others = λ w word' out.
                m.others w (other_page i w lt word' (λ q. ground (arith, out, q, some_page)))
                ∙ r.map.others w word'
                    (elim out [ inl z ↦ inl z | inr le ↦ inr (omega (arith, le)) ]);
          };
        },
      )

  map_kernel-Reached :
      (left i : ℕ)
      → i + left ≡ n
      → 1 ≤ i
      → (pd : PageDirectory) → (tables : Tables) → Reached i pd tables
      → (pd' : PageDirectory) × (tables' : Tables) × (map_kernel memalign room left i pd tables
          ≡ some (pos 0, pd', tables'))
        × Reached n pd' tables'
  unfolding map_kernel
  map_kernel-Reached zero i whole some_page pd tables r =
      (pd, tables, refl, subst (λ x. Reached x pd tables) (omega (arith, whole)) r)
  map_kernel-Reached (suc k) i whole some_page pd tables r =
      let (pd1, tables1, e, r1) = one_page i some_page (omega (arith, whole)) pd tables r in
      let (pd2, tables2, e2, r2) =
        map_kernel-Reached k (i + 1) (omega (arith, whole)) (omega arith) pd1 tables1 r1 in
      (pd2, tables2, ap (then_map_kernel k i) e ∙ e2, r2)
    where
      then_map_kernel :
          (k i : ℕ) → Option (ℤ × PageDirectory × Tables) → Option (ℤ × PageDirectory × Tables)
      then_map_kernel k i none = none
      then_map_kernel k i (some (negsuc e, pd', tables')) = some (neg 1, pd', tables')
      then_map_kernel k i (some (pos n, pd', tables')) =
          map_kernel memalign room k (i + 1) pd' tables'

  first-Reached :
      (pd : PageDirectory)
      → (tables : Tables) → pd.batch_enabled ≡ false
      → ((j : ℕ) → entry_present (pd.directory j) ≡ false)
      → ((j : ℕ) → j < n → tables (memalign j) ≡ none)
      → Reached 1 pd tables
  unfolding pd_get_mapping
  first-Reached pd tables no_batch clear unused = record {
    wf = record {
      backed = λ j p. absurd (true-ne_false (sym p ∙ clear j));
      apart = λ i j ne p q. absurd (true-ne_false (sym p ∙ clear i));
    };
    no_batch = no_batch;
    unused = λ j le lt. unused j lt;
    map = record {
      direct = λ m ge lt. absurd (omega (arith, ge, lt));
      others = λ w word out. rw (clear (pde_index w)) refl;
    };
  }
    where
      true-ne_false : true ≢ false
      true-ne_false = cc

-- A lookup reads one entry of the directory.
module _ (kernel_pdes : ℕ) (pd : PageDirectory) (fs : Frames) (tables : Tables) where
  abbrev fresh_directory : PageDirectory
  fresh_directory = record {
    directory = λ j. if ltb j kernel_pdes then pd.directory j else 0;
    mapping_tasks = some [];
    batch_enabled = false;
  }

  kernel-get :
      (w : ℕ)
      → pde_index w < kernel_pdes
      → found (pd_get_mapping (some fresh_directory) tables w)
        ≡ found (pd_get_mapping (some pd) tables w)
  unfolding pd_get_mapping
  kernel-get w lt = let e : ltb (pde_index w) kernel_pdes ≡ true = ground (arith, lt) in rw e refl

  user-get :
      (w : ℕ)
      → kernel_pdes ≤ pde_index w
      → found (pd_get_mapping (some fresh_directory) tables w) ≡ none
  unfolding pd_get_mapping
  user-get w le = let e : ltb (pde_index w) kernel_pdes ≡ false = ground (arith, le) in rw e refl

  fresh-DirectMap :
      kernel_pdes ≤ 1024
      → DirectMap (kernel_pdes * 1024) pd tables
      → DirectMap (kernel_pdes * 1024) fresh_directory tables
  fresh-DirectMap few map = record {
    direct = λ m ge lt. kernel-get (m * 4096) (omega (arith, lt, few)) ∙ map.direct m ge lt;
    others = λ w word out. elim (Bool-cases (ltb (pde_index w) kernel_pdes)) [
      | inl e ↦ kernel-get w (ground (arith, e)) ∙ map.others w word out
      | inr e ↦ user-get w (ground (arith, e))
    ];
  }

-- With no directory entry of the kernel present at the start, and for each of its pages a page from
-- memalign that is not in use and differs from the others, pd_init_kernel returns 0, and pd_init,
-- where malloc gives what it needs, returns 0 with a directory where a lookup of each kernel page
-- from the second on finds the page itself with the flags of the kernel, and a lookup of the first
-- page or of any user address finds nothing.
pub pd_init-DirectMap :
    (memalign : ℕ → ℕ)
    → (room : ℕ → Room) → (kernel_pdes : ℕ) → (k : KernelSpace) → (tables : Tables)
    → 1 ≤ kernel_pdes
    → kernel_pdes ≤ 1024
    → ((i : ℕ)
        → i < kernel_pdes * 1024
        → (memalign i ≢ 0) × (memalign i % 4096 ≡ 0) × (memalign i < 2 ^ 32))
    → ((i j : ℕ)
        → i < kernel_pdes * 1024
        → j < kernel_pdes * 1024
        → i ≢ j
        → memalign i ≢ memalign j)
    → ((i : ℕ) → i < kernel_pdes * 1024 → tables (memalign i) ≡ none)
    → k.is_kernel_initialized ≡ false
    → ((j : ℕ) → entry_present (k.kernel_pde j) ≡ false)
    → (k' : KernelSpace) × (tables' : Tables) × (pd : PageDirectory) × (fs : Frames)
      × (pd_init_kernel (kernel_pdes * 1024) memalign room k tables ≡ some (pos 0, k', tables'))
      × (pd_init kernel_pdes
            (record { directory = true; mapping_tasks = true; p_addr_list = true })
            k'
          ≡ some (pos 0, some (pd, fs)))
      × DirectMap (kernel_pdes * 1024) pd tables'
unfolding pd_init_kernel pd_init initialize_kernel
pd_init-DirectMap memalign room kernel_pdes k tables some_pde few given apart unused first clear =
    let temp : PageDirectory = record {
      directory = k.kernel_pde;
      mapping_tasks = none;
      batch_enabled = false;
    } in
    let (pd, tables', e, r) =
      map_kernel-Reached memalign room (kernel_pdes * 1024) (omega (arith, few)) given apart
        (kernel_pdes * 1024 - 1) 1 (omega (arith, some_pde)) (omega arith) temp tables
        (first-Reached memalign room (kernel_pdes * 1024) (omega (arith, few)) given apart temp
          tables refl clear unused) in
    let fs : Frames = record { num_pages = 0; p_addr_list = [] } in
    (
      record { kernel_pde = pd.directory; is_kernel_initialized = true },
      tables',
      fresh_directory kernel_pdes pd fs tables',
      fs,
      rw first (ap kernel_mapped e),
      refl,
      fresh-DirectMap kernel_pdes pd fs tables' few r.map,
    )
