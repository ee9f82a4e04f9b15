-- ===== src/VirtualMem/Copy/Examples.antt =====
-- An address space with one user page is copied to the one frame that is free.
use custom_os_kernel.Base.{
  ℕ, ◌+◌, ◌*◌, ◌≡◌, ◌≢◌, refl, sym, ap, ◌∙◌, inl, inr, Bool, true, false, none, some, [],
  if◌then◌else◌, arith, ◌==◌, Bool-cases,
}
use custom_os_kernel.Base.Int.{pos}
use custom_os_kernel.PageDirectory.{PageDirectory, Table, Tables, entry_present, remove_flags}
use custom_os_kernel.PageDirectory.Copy.Entries.{num_present}
use custom_os_kernel.PageDirectory.Copy.Directory.{total}
use custom_os_kernel.PageDirectory.Copy.Lookup.{CanCopy}
use custom_os_kernel.FrameManager.{frame_init, frame_dealloc, bin_loop}
use custom_os_kernel.FrameManager.Ops.{
  FrameManager, frame_alloc, empty_manager, registered, set_status, drop_node, put_node, set_at,
  fm_alloc, take_head,
}
use custom_os_kernel.VirtualMem.{Memory}
use custom_os_kernel.VirtualMem.Copy.{CopySupply, CopiedTo, vmm_deep_copy, vmm_deep_copy-CopiedTo}

-- Page 3 of entry 5, on the frame at 0x1400000, with user access.
abbrev the_entry : ℕ
the_entry = 20971527

abbrev the_table : Table
the_table k = if k == 3 then the_entry else 0

-- The table stands at 0x200000.
abbrev parent : PageDirectory
parent = record {
  directory = λ i. if i == 5 then 2097159 else 0;
  mapping_tasks = some [];
  batch_enabled = false;
}

abbrev child : PageDirectory
child = record { directory = λ i. 0; mapping_tasks = some []; batch_enabled = false }

abbrev the_tables : Tables
the_tables b = if b == 2097152 then some the_table else none

abbrev memalign : ℕ → ℕ
memalign i = 4194304 + i * 4096

-- What a page holds is its number.
abbrev contents : ℕ → ℕ
contents b = b

only_entry : (i : ℕ) → entry_present (parent.directory i) ≡ true → (i == 5) ≡ true
only_entry i p = elim (Bool-cases (i == 5)) [
  | inl e ↦ e
  | inr n ↦
      absurd
        (false-ne_true (sym (ap (λ (b : Bool). entry_present (if b then 2097159 else 0)) n) ∙ p))
]
  where
    false-ne_true : false ≢ true
    false-ne_true = cc

only_page : (k : ℕ) → entry_present (the_table k) ≡ true → remove_flags (the_table k) ≡ 20971520
only_page k p = elim (Bool-cases (k == 3)) [
  | inl e ↦ ap (λ (b : Bool). remove_flags (if b then the_entry else 0)) e
  | inr n ↦
      absurd
        (false-ne_true (sym (ap (λ (b : Bool). entry_present (if b then the_entry else 0)) n) ∙ p))
]
  where
    false-ne_true : false ≢ true
    false-ne_true = cc

unused : (i : ℕ) → the_tables (memalign i) ≡ none
unused i =
    let e : (memalign i == 2097152) ≡ false = ground arith in
    ap (λ (b : Bool). if b then some the_table else none) e

backed :
    (i : ℕ)
    → entry_present (parent.directory i) ≡ true
    → the_tables (remove_flags (parent.directory i)) ≡ some the_table
backed i p =
    ap (λ (b : Bool). the_tables (remove_flags (if b then 2097159 else 0))) (only_entry i p)

counted : total parent.directory (λ i. the_table) 1020 4 ≡ 1
unfolding total num_present
counted = refl

parent-CanCopy :
    CanCopy 4 memalign (λ i j. true) 25165824 25169920 parent.directory (λ i. the_table) the_tables
parent-CanCopy = record {
  kernel = (omega arith, omega arith);
  backed = backed;
  fresh = record {
    not_null = λ i lt. omega arith;
    aligned = λ i lt. omega arith;
    word = λ i lt. omega arith;
    unused = λ i lt. unused i;
    apart = λ i j lt lt' ne. omega (arith, ne);
  };
  rooms = λ i j. refl;
  aligned = refl;
  fits = omega (arith, counted);
  word = omega arith;
  outside = λ i p k q. inl (omega (arith, only_page k q));
}

abbrev one_page : FrameManager
one_page =
    registered (empty_manager (λ a. frame_init 0 0 0 0 0 0) 1) 100
      (frame_init 25165824 1 frame_dealloc 0 0 0)

abbrev the_memory : Memory
the_memory = record {
  pd = child;
  frames = record { num_pages = 0; p_addr_list = [] };
  tables = the_tables;
  fm = one_page;
  addrs = [];
  cleared = [];
}

abbrev supply : CopySupply
supply = record {
  metadata = true;
  node = true;
  memalign = memalign;
  buffer = λ i j. true;
  backup = λ i. 0;
}

abbrev taken_page : FrameManager
taken_page = record one_page {
  frames = set_status 100 frame_alloc one_page.frames;
  deallocated = drop_node 25165824 one_page.deallocated;
  allocated = put_node 25165824 100 one_page.allocated;
  frame_bins = set_at 0 [] one_page.frame_bins;
}

page-taken : fm_alloc one_page 1 [] ≡ some (pos 0, some 25165824, taken_page, [])
unfolding fm_alloc take_head bin_loop
page-taken = refl

vmm_deep_copy-CopiedTo_example :
    (m' : Memory) × (pages' : ℕ → ℕ) × (vmm_deep_copy 4 supply
        (some (parent, 1))
        the_memory
        contents
      ≡ some (pos 0, m', pages'))
    × CopiedTo 4 25165824 1 parent the_memory contents m' pages'
    × (m'.fm ≡ taken_page)
vmm_deep_copy-CopiedTo_example =
    vmm_deep_copy-CopiedTo 4 supply parent (λ i. the_table) 1 25165824 (pos 0) taken_page []
      the_memory contents refl refl page-taken parent-CanCopy
