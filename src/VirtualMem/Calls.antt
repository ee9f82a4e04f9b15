-- ===== src/VirtualMem/Calls.antt =====
-- kern/handlers/mem_mgmt_handlers.c: the system calls new_pages and remove_pages, on the memory of the
-- current process, which there is once the scheduler runs.
use custom_os_kernel.Base.{
  ℕ, ◌+◌, ◌*◌, ◌/◌, ◌%◌, ◌^◌, ◌≤◌, ◌<◌, ◌≡◌, ap, false, not, ◌||◌, none, some, Bool-cases, inl, inr,
  refl, if◌then◌else◌, ◌==◌, ltb, arith,
}
use custom_os_kernel.Base.Int.{ℤ, pos, negsuc, neg}
use custom_os_kernel.PageDirectory.Inv.{WellFormed}
use custom_os_kernel.VirtualMem.{Memory, Supply, Outcome, vmm_new_user_page}
use custom_os_kernel.VirtualMem.Refuse.{Mapped, new_user_page-Mapped}
use custom_os_kernel.VirtualMem.Remove.{vmm_remove_user_page}

-- The call fails with `code` where the memory manager fails, and returns 0 otherwise.
abbrev pub coded : ℤ → Outcome → Outcome
coded code none = none
coded code (some (negsuc e, m)) = some (code, m)
coded code (some (pos k, m)) = some (pos 0, m)

unfoldable pub syscall_new_pages :
    (user_mem_start : ℕ) → Supply → Memory → (base : ℕ) → (len : ℤ) → Outcome
syscall_new_pages start s m base (negsuc e) = some (neg 1, m)
syscall_new_pages start s m base (pos len) =
    if ltb base start
    then some (neg 1, m)
    else if len == 0 || not (len % 4096 == 0)
    then some (neg 1, m)
    else coded (neg 2) (vmm_new_user_page s m base (len / 4096))

unfoldable pub syscall_remove_pages :
    (user_mem_start rounds : ℕ) → Supply → Memory → (base : ℕ) → Outcome
syscall_remove_pages start rounds s m base =
    coded (neg 1) (vmm_remove_user_page start rounds s m base)

-- The call refuses pages one of which is mapped already, and changes nothing, where the directory is
-- well formed and the pages, 65535 at most, do not pass 2^32. The code is -2 where the base is in user
-- memory, and else -1.
pub new_pages-Mapped :
    (start : ℕ) (s : Supply) (m : Memory) (base n i : ℕ)
    → WellFormed m.pd.directory m.tables
    → 0 < n
    → n < 65536
    → base + n * 4096 ≤ 2 ^ 32
    → i < n
    → Mapped m.pd m.tables (base + i * 4096)
    → syscall_new_pages start s m base (pos (n * 4096))
      ≡ some (if ltb base start then neg 1 else neg 2, m)
unfolding syscall_new_pages
new_pages-Mapped start s m base n i wf some_pages few fits lt at =
    let whole : (n * 4096 == 0 || not (n * 4096 % 4096 == 0)) ≡ false = ground arith in
    let count : n * 4096 / 4096 ≡ n = omega arith in
    let refused = new_user_page-Mapped s m base n i wf some_pages few fits lt at in
    elim (Bool-cases (ltb base start)) [
      | inl e ↦ rw e refl
      | inr e ↦ rw (e, whole, count) (ap (coded (neg 2)) refused)
    ]
