-- ===== src/MemSection/Examples.antt =====
-- The theorems of mem_section.c at a code section, an empty one and a stack.
use custom_os_kernel.Base.{◌≡◌, refl, true, some, List, [], ◌∷◌, arith}
use custom_os_kernel.Base.Int.{pos}
use custom_os_kernel.MemSection.{MemSection, ms_get_bounding_addr, ms_get_bounding_section}
use custom_os_kernel.MemSection.Bounds.{AllInSpace}

abbrev sections : List MemSection
sections =
    record { v_addr_start = 16777216; len = 4096; pde_f = 7; pte_f = 5 }
    ∷ record { v_addr_start = 0; len = 0; pde_f = 7; pte_f = 7 }
    ∷ record { v_addr_start = 4294963200; len = 4096; pde_f = 7; pte_f = 7 }
    ∷ []

sections-AllInSpace : AllInSpace sections
sections-AllInSpace = (omega arith, (omega arith, (omega arith, tt)))

found_bounds : ms_get_bounding_addr (some sections) true ≡ (pos 0, some (16777216, 4294967295))
unfolding ms_get_bounding_addr custom_os_kernel.MemSection.bounds_loop
found_bounds = refl
