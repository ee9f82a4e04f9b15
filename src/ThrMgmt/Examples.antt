-- ===== src/ThrMgmt/Examples.antt =====
-- The system call swexn on a thread without a handler.
use custom_os_kernel.Base.{◌≡◌, refl, some}
use custom_os_kernel.Base.Int.{pos, neg}
use custom_os_kernel.Tcb.{Tcb, running, tcb_deregister_swexn_handler, tcb_register_swexn_handler}
use custom_os_kernel.ThrMgmt.{
  Limits, Ureg, returns, restores, check_esp_safety, check_eip_safety, check_eflags_safety,
  check_ureg_safety, restore_end, install, syscall_swexn,
}
use custom_os_kernel.ThrMgmt.Safety.{EndsWell, swexn-EndsWell}

abbrev limits : Limits
limits = record {
  user_mem_start = 16777216;
  segsel_user_ds = 43;
  segsel_user_cs = 35;
  efl_resv1 = 2;
  efl_resv2 = 8;
  efl_resv3 = 32;
  efl_if = 512;
  efl_iopl_ring3 = 12288;
  efl_iopl_ring2 = 8192;
  efl_iopl_ring1 = 4096;
}

abbrev thread : Tcb
thread = record {
  tid = 3;
  status = running;
  exit_status = pos 0;
  t_wakeup = 0;
  pcb = 900;
  k_stack_bot = 4096;
  k_stack_top = 0;
  orig_k_stack = 0;
  tmp_k_stack = 0;
  swexn_handler = 0;
  swexn_handler_arg = 0;
  swexn_handler_esp = 0;
}

abbrev user_regs : Ureg
user_regs = record { ds = 43; ss = 43; cs = 35; eip = 16777300; esp = 33554432; eflags = 514 }

swexn-EndsWell_example :
    EndsWell limits thread (syscall_swexn limits 33554432 16777216 5 (some user_regs) thread)
swexn-EndsWell_example = swexn-EndsWell limits thread 33554432 16777216 5 (some user_regs)

installs : syscall_swexn limits 33554432 16777216 5 (some user_regs) thread ≡ (
  restores user_regs,
  record thread { swexn_handler = 16777216; swexn_handler_arg = 5; swexn_handler_esp = 33554432 },
)
unfolding syscall_swexn tcb_deregister_swexn_handler install tcb_register_swexn_handler
    check_esp_safety check_eip_safety restore_end check_ureg_safety check_eflags_safety
installs = refl

-- With the right to do input and output, the registers are refused, and so is the handler.
refuses :
    syscall_swexn limits 33554432 16777216 5 (some (record user_regs { eflags = 12802 })) thread
    ≡ (returns (neg 5), thread)
unfolding syscall_swexn tcb_deregister_swexn_handler install tcb_register_swexn_handler
    check_esp_safety check_eip_safety restore_end check_ureg_safety check_eflags_safety
refuses = refl
