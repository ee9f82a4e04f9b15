-- ===== src/PageDirectory/Examples.antt =====
-- The theorems of page_directory.c on an empty directory, and on one that maps one page.
use custom_os_kernel.Base.{
  ◌%◌, ◌^◌, ◌<◌, ◌≢◌, ℕ, ◌+◌, ◌≡◌, refl, ◌&&◌, none, some, List, [], ◌∷◌, arith, ◌==◌,
  if◌then◌else◌,
}
use custom_os_kernel.Base.Int.{pos, neg}
use custom_os_kernel.PageDirectory.{
  PageDirectory, Tables, Task, mode_bit, rw_bit, pde_index, pd_get_mapping, pd_create_mapping,
  pd_remove_mapping, pd_is_user_readable, pd_is_user_read_write,
}
use custom_os_kernel.PageDirectory.Frames.{Frames}
use custom_os_kernel.PageDirectory.Inv.{WellFormed, OtherPage}
use custom_os_kernel.PageDirectory.Create.{Fresh, PresentFlags}
use custom_os_kernel.PageDirectory.Map.{Mapped, create-Mapped, remove-get}
use custom_os_kernel.PageDirectory.Batch.{Ahead, batched, direct, plenty, begin-Ahead, create-Ahead}
use custom_os_kernel.PageDirectory.Whole.{
  Request, Proper, AllProper, create_all, create_in_batch, create_in_batch-create_all,
}
use custom_os_kernel.PageDirectory.Access.{both_set, user_access-both_set}

abbrev no_entries : ℕ → ℕ
no_entries i = 0

abbrev no_tables : Tables
no_tables b = none

empty-WellFormed : WellFormed no_entries no_tables
empty-WellFormed = record { backed = λ i p. ground arith; apart = λ i j ne p q. ground arith }

page-Fresh : Fresh 8192 no_tables
page-Fresh = record { not_null = omega arith; aligned = refl; word = omega arith; unused = refl }

-- One table, which maps the page at 4194304 to the frame at 12288, user read and write.
abbrev entries : ℕ → ℕ
entries i = if i == 1 then 8199 else 0

abbrev tables : Tables
tables b = if b == 8192 then some (λ j. if j == 0 then 12295 else 0) else none

entries-WellFormed : WellFormed entries tables
entries-WellFormed = record {
  backed = λ i p. ((λ j. if j == 0 then 12295 else 0), ground arith);
  apart = λ i j ne p q. absurd (ne (ground arith));
}

create-Mapped_example :
    (pd' : PageDirectory) × (tables' : Tables) × (pd_create_mapping 8192 plenty
        (direct no_entries)
        no_tables
        4194304
        12288
        7
        7
      ≡ some (pos 0, pd', tables'))
    × Mapped 8192 (direct no_entries) no_tables 4194304 (12288 + 7) pd' tables'
create-Mapped_example =
    create-Mapped 8192 plenty (direct no_entries) no_tables 4194304 12288 7 7 empty-WellFormed
      page-Fresh refl refl refl (omega arith) (omega arith, refl) (omega arith, refl)

remove-get_example :
    (tables' : Tables) × (pd_remove_mapping plenty (some (direct entries)) tables 4194304
      ≡ some (pos 0, some (direct entries), tables'))
    × WellFormed entries tables'
    × (pd_get_mapping (some (direct entries)) tables' 4194304 ≡ some (neg 3, none))
    × ((w : ℕ)
        → OtherPage 4194304 w
        → pd_get_mapping (some (direct entries)) tables' w
          ≡ pd_get_mapping (some (direct entries)) tables w)
unfolding pd_get_mapping
remove-get_example =
    remove-get plenty (direct entries) tables 4194304 12295 entries-WellFormed refl refl refl

user_access-both_set_example :
    (pd_is_user_readable (some (direct entries)) tables 4194304
      ≡ some (both_set mode_bit (entries (pde_index 4194304)) 12295))
    × (pd_is_user_read_write (some (direct entries)) tables 4194304
        ≡ some (
            both_set mode_bit (entries (pde_index 4194304)) 12295
            && both_set rw_bit (entries (pde_index 4194304)) 12295))
unfolding pd_get_mapping
user_access-both_set_example =
    user_access-both_set (direct entries) tables 4194304 12295 entries-WellFormed refl

create-Ahead_example :
    (dir1 : ℕ → ℕ) × (tables1 : Tables) × (ts1 : List Task) × (tables1' : Tables)
    × (pd_create_mapping 8192 plenty (batched no_entries []) no_tables 4194304 12288 7 7
        ≡ some (pos 0, batched dir1 ts1, tables1))
    × (pd_create_mapping 8192 plenty (direct no_entries) no_tables 4194304 12288 7 7
        ≡ some (pos 0, direct dir1, tables1'))
    × Ahead dir1 ts1 tables1 tables1'
create-Ahead_example =
    create-Ahead 8192 4194304 12288 7 7 refl refl no_entries [] no_tables no_tables
      (begin-Ahead no_entries no_tables).1 empty-WellFormed page-Fresh (omega arith, refl)

-- Two pages of one table, then a page of another.
abbrev requests : List Request
requests =
    (record { memalign = 8192; v_addr = 4194304; p_addr = 12288; pte_flags = 7; pde_flags = 7 })
    ∷ (record { memalign = 16384; v_addr = 4198400; p_addr = 20480; pte_flags = 5; pde_flags = 7 })
    ∷ (record { memalign = 24576; v_addr = 8388608; p_addr = 28672; pte_flags = 7; pde_flags = 7 })
    ∷ []

proper :
    (r : Request)
    → r.memalign ≢ 0
    → r.memalign % 4096 ≡ 0
    → r.memalign < 2 ^ 32
    → r.v_addr % 4096 ≡ 0
    → r.p_addr % 4096 ≡ 0
    → r.p_addr < 2 ^ 32
    → PresentFlags r.pte_flags
    → PresentFlags r.pde_flags
    → Proper r no_tables
proper r ne aligned word va pa lt pf pg = record {
  fresh = record { not_null = ne; aligned = aligned; word = word; unused = refl };
  v_aligned = va;
  p_aligned = pa;
  word = lt;
  pte_present = pf;
  pde_present = pg;
}

requests-AllProper : AllProper requests no_tables
requests-AllProper = (
  proper _ (omega arith) refl (omega arith) refl refl (omega arith) (omega arith, refl)
      (omega arith, refl),
  ((λ e. omega (arith, e)), ((λ e. omega (arith, e)), tt)),
  (
    proper _ (omega arith) refl (omega arith) refl refl (omega arith) (omega arith, refl)
        (omega arith, refl),
    ((λ e. omega (arith, e)), tt),
    (
      proper _ (omega arith) refl (omega arith) refl refl (omega arith) (omega arith, refl)
          (omega arith, refl),
      tt,
      tt,
    ),
  ),
)

create_in_batch-create_all_example :
    (r : PageDirectory × Tables) × (create_in_batch requests (direct no_entries) no_tables ≡ some r)
    × (create_all requests (direct no_entries) no_tables ≡ some r)
create_in_batch-create_all_example =
    create_in_batch-create_all requests no_entries no_tables empty-WellFormed requests-AllProper

-- Two frames of one and of four pages.
abbrev two_frames : Frames
two_frames = record {
  num_pages = 5;
  p_addr_list =
      record { p_addr = 4096; num_pages = 1 } ∷ record { p_addr = 8192; num_pages = 4 } ∷ [];
}
