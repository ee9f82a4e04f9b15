-- ===== src/PageDirectory/Kernel/Examples.antt =====
-- The four page tables of the kernel, and a first directory.
use custom_os_kernel.Base.{ℕ, ◌+◌, ◌*◌, ◌≡◌, refl, true, false, none, some, arith}
use custom_os_kernel.Base.Int.{pos}
use custom_os_kernel.PageDirectory.{PageDirectory, Tables, Room}
use custom_os_kernel.PageDirectory.Frames.{Frames}
use custom_os_kernel.PageDirectory.Kernel.{KernelSpace, pd_init_kernel, pd_init}
use custom_os_kernel.PageDirectory.Kernel.Direct.{DirectMap, pd_init-DirectMap}

abbrev memalign : ℕ → ℕ
memalign i = 4194304 + i * 4096

abbrev room : ℕ → Room
room i = record { task = false; node = false }

abbrev no_tables : Tables
no_tables b = none

abbrev at_start : KernelSpace
at_start = record { kernel_pde = λ j. 0; is_kernel_initialized = false }

pd_init-DirectMap_example :
    (k' : KernelSpace) × (tables' : Tables) × (pd : PageDirectory) × (fs : Frames) × (pd_init_kernel
        (4 * 1024)
        memalign
        room
        at_start
        no_tables
      ≡ some (pos 0, k', tables'))
    × (pd_init 4 (record { directory = true; mapping_tasks = true; p_addr_list = true }) k'
        ≡ some (pos 0, some (pd, fs)))
    × DirectMap (4 * 1024) pd tables'
pd_init-DirectMap_example =
    pd_init-DirectMap memalign room 4 at_start no_tables (omega arith) (omega arith)
      (λ i lt. (omega arith, omega arith, omega arith)) (λ i j lt lt' ne. omega (arith, ne))
      (λ i lt. refl) refl (λ j. refl)
