-- ===== src/MemSection.antt =====
-- kern/virtual_mem_mgmt/mem_section.c: ranges of virtual addresses. An array of sections and its
-- length are the list of its sections; an array pointer is an `Option`, whose `none` is NULL.
pub mod Bounds
mod Examples
use custom_os_kernel.Base.{
  ℕ, ◌+◌, ◌-◌, ◌%◌, ◌^◌, Bool, true, false, not, ◌||◌, ◌&&◌, Option, none, some, List, [], ◌∷◌,
  if◌then◌else◌, ◌==◌, ltb, leb,
}
use custom_os_kernel.Base.Int.{ℤ, pos, neg}

pub record MemSection : Type 0 where
  pub v_addr_start : ℕ
  pub len : ℕ
  pub pde_f : ℕ
  pub pte_f : ℕ

unfoldable pub ms_init :
    Option MemSection → (addr len pde_flags pte_flags : ℕ) → ℤ × Option MemSection
ms_init none addr len pde_flags pte_flags = (neg 1, none)
ms_init (some ms) addr len pde_flags pte_flags =
    (pos 0, some (record { v_addr_start = addr; len = len; pde_f = pde_flags; pte_f = pte_flags }))

-- `v_addr_start + (len - 1)`, unsigned.
abbrev pub c_high : MemSection → ℕ
c_high s = (s.v_addr_start + (s.len + 2 ^ 32 - 1) % 2 ^ 32) % 2 ^ 32

abbrev pub is_empty : List MemSection → Bool
is_empty [] = true
is_empty (s ∷ ss) = false

-- The loop of `ms_get_bounding_addr`.
unfoldable pub bounds_loop : List MemSection → (low high : ℕ) → ℕ × ℕ
bounds_loop [] low high = (low, high)
bounds_loop (s ∷ ss) low high =
    if s.len == 0
    then bounds_loop ss low high
    else bounds_loop ss (if ltb s.v_addr_start low then s.v_addr_start else low)
        (if ltb high (c_high s) then c_high s else high)

-- `wanted` says that neither output pointer is NULL.
unfoldable pub ms_get_bounding_addr :
    Option (List MemSection) → (wanted : Bool) → ℤ × Option (ℕ × ℕ)
ms_get_bounding_addr none wanted = (neg 1, none)
ms_get_bounding_addr (some secs) wanted =
    if is_empty secs || not wanted
    then (neg 1, none)
    else let (low, high) = bounds_loop secs (2 ^ 32 - 1) 0 in
      if ltb high low then (neg 1, none) else (pos 0, some (low, high))

-- The address lies in the section.
abbrev pub holds : MemSection → ℕ → Bool
holds s a = leb s.v_addr_start a && leb a (c_high s)

-- The loop of `ms_get_bounding_section`.
unfoldable pub section_loop : List MemSection → (addr_low addr_high : ℕ) → ℤ × Option MemSection
section_loop [] addr_low addr_high = (pos 1, none)
section_loop (s ∷ ss) addr_low addr_high =
    if holds s addr_low || holds s addr_high
    then (pos 0, some s)
    else section_loop ss addr_low addr_high

unfoldable pub ms_get_bounding_section :
    Option (List MemSection) → (addr_low addr_high : ℕ) → (wanted : Bool) → ℤ × Option MemSection
ms_get_bounding_section none addr_low addr_high wanted = (neg 1, none)
ms_get_bounding_section (some secs) addr_low addr_high wanted =
    if is_empty secs || (ltb addr_high addr_low || not wanted)
    then (neg 1, none)
    else section_loop secs addr_low addr_high
