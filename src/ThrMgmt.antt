-- ===== src/ThrMgmt.antt =====
-- kern/handlers/thr_mgmt_handlers.c: the system call swexn and the checks that it makes. The masks of
-- eflags and the selectors of user segments stand in headers of the processor and are parameters.

pub mod Safety
pub mod Calls
mod Examples
use custom_os_kernel.Base.{
  ℕ, Bool, true, false, not, ◌&&◌, ◌||◌, Option, none, some, if◌then◌else◌, ◌==◌, ltb,
}
use custom_os_kernel.Base.Int.{ℤ, pos, negsuc, neg}
use Prim.Native.Nat.{bit_and}
use custom_os_kernel.Tcb.{Tcb, Swexn, tcb_deregister_swexn_handler, tcb_register_swexn_handler}

pub record Limits : Type 0 where
  pub user_mem_start : ℕ
  pub segsel_user_ds : ℕ
  pub segsel_user_cs : ℕ
  pub efl_resv1 : ℕ
  pub efl_resv2 : ℕ
  pub efl_resv3 : ℕ
  pub efl_if : ℕ
  pub efl_iopl_ring3 : ℕ
  pub efl_iopl_ring2 : ℕ
  pub efl_iopl_ring1 : ℕ

-- The registers of a `ureg_t` that are checked.
pub record Ureg : Type 0 where
  pub ds : ℕ
  pub ss : ℕ
  pub cs : ℕ
  pub eip : ℕ
  pub esp : ℕ
  pub eflags : ℕ

unfoldable pub check_esp_safety : Limits → (esp : ℕ) → ℕ
check_esp_safety c esp = if ltb esp c.user_mem_start then 1 else 0

unfoldable pub check_eip_safety : Limits → (eip : ℕ) → ℕ
check_eip_safety c eip = if ltb eip c.user_mem_start then 1 else 0

unfoldable pub check_eflags_safety : Limits → (eflags : ℕ) → ℕ
check_eflags_safety c eflags =
    if bit_and eflags c.efl_resv1 == 0
      || (not (bit_and eflags c.efl_resv2 == 0) || not (bit_and eflags c.efl_resv3 == 0))
    then 1
    else if bit_and eflags c.efl_if == 0
    then 2
    else if not (bit_and eflags c.efl_iopl_ring3 == 0)
    then 3
    else if not (bit_and eflags c.efl_iopl_ring2 == 0)
    then 3
    else if not (bit_and eflags c.efl_iopl_ring1 == 0)
    then 3
    else 0

unfoldable pub check_ureg_safety : Limits → Ureg → ℕ
check_ureg_safety c u =
    if not (u.ds == c.segsel_user_ds)
    then 2
    else if not (u.ss == c.segsel_user_ds)
    then 2
    else if not (u.cs == c.segsel_user_cs)
    then 2
    else if not (check_eip_safety c u.eip == 0)
    then 3
    else if not (check_esp_safety c u.esp == 0)
    then 4
    else if not (check_eflags_safety c u.eflags == 0)
    then 1
    else 0

-- How the call ends: it returns, or it goes on with other registers and does not return.
pub data End : Type 0 where
  returns : ℤ → End
  restores : Ureg → End

-- What the registration of the old handler leaves; its reply is dropped.
abbrev pub undone : Tcb → Swexn → Tcb
undone t old = elim (tcb_register_swexn_handler (some t) old).1 [ none ↦ t | some t' ↦ t' ]

-- The last part, on the registers that are asked for, with what was registered before.
unfoldable pub restore_end : Limits → Swexn → Option Ureg → Tcb → End × Tcb
restore_end c old none t = (returns (pos 0), t)
restore_end c old (some u) t =
    if check_ureg_safety c u == 0 then (restores u, t) else (returns (neg 5), undone t old)

abbrev pub registered_end : Limits → Swexn → Option Ureg → Tcb → ℤ × Option Tcb → End × Tcb
registered_end c old newureg t (s, none) = (returns (neg 4), undone t old)
registered_end c old newureg t (negsuc e, some t') = (returns (neg 4), undone t' old)
registered_end c old newureg t (pos k, some t') = restore_end c old newureg t'

unfoldable pub install : Limits → Swexn → Option Ureg → (esp3 eip arg : ℕ) → Tcb → End × Tcb
install c old newureg esp3 eip arg t =
    if not (esp3 == 0) && not (eip == 0)
    then if not (check_esp_safety c esp3 == 0) || not (check_eip_safety c eip == 0)
      then (returns (neg 3), undone t old)
      else registered_end c old newureg t (tcb_register_swexn_handler (some t) (esp3, eip, arg))
    else restore_end c old newureg t

-- The last case is a thread that is NULL, which the call does not pass.
abbrev pub deregistered_end :
    Limits → (esp3 eip arg : ℕ) → Option Ureg → Tcb → ℤ × Option Swexn × Option Tcb → End × Tcb
deregistered_end c esp3 eip arg newureg t (pos k, some old, some t') =
    install c old newureg esp3 eip arg t'
deregistered_end c esp3 eip arg newureg t (pos k, some old, none) = (returns (neg 2), t)
deregistered_end c esp3 eip arg newureg t (pos k, none, o) = (returns (neg 2), t)
deregistered_end c esp3 eip arg newureg t (negsuc e, old, o) = (returns (neg 2), t)

-- On the current thread, which there is once the scheduler runs.
unfoldable pub syscall_swexn :
    Limits → (esp3 eip arg : ℕ) → (newureg : Option Ureg) → Tcb → End × Tcb
syscall_swexn c esp3 eip arg newureg t =
    deregistered_end c esp3 eip arg newureg t (tcb_deregister_swexn_handler (some t))
