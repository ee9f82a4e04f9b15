-- ===== src/ThrMgmt/Safety.antt =====
-- What kern/handlers/thr_mgmt_handlers.c lets a program install and restore.
use custom_os_kernel.Base.{
  ℕ, ◌≤◌, ◌≡◌, ◌≢◌, refl, true, not, Bool-cases, ◌⊎◌, inl, inr, ◌&&◌, ◌||◌, Option, none, some,
  ◌==◌, arith,
}
use custom_os_kernel.Base.Int.{pos, negsuc}
use Prim.Native.Nat.{bit_and}
use custom_os_kernel.Tcb.{Tcb, Swexn, tcb_deregister_swexn_handler, tcb_register_swexn_handler}
use custom_os_kernel.ThrMgmt.{
  Limits, Ureg, End, returns, restores, check_esp_safety, check_eip_safety, check_eflags_safety,
  check_ureg_safety, restore_end, install, syscall_swexn,
}

module _ (c : Limits) where
  -- No handler, or one in user memory with its stack in user memory.
  abbrev pub SafeHandler : Tcb → Type 0
  SafeHandler t =
      (t.swexn_handler ≡ 0)
      ⊎ ((c.user_mem_start ≤ t.swexn_handler) × (c.user_mem_start ≤ t.swexn_handler_esp))

  -- Registers of a program in user mode, with interrupts on and without the right to do input and output.
  pub record UserMode (u : Ureg) : Type 0 where
    pub data_segment : u.ds ≡ c.segsel_user_ds
    pub stack_segment : u.ss ≡ c.segsel_user_ds
    pub code_segment : u.cs ≡ c.segsel_user_cs
    pub code : c.user_mem_start ≤ u.eip
    pub stack : c.user_mem_start ≤ u.esp
    pub interrupts : bit_and u.eflags c.efl_if ≢ 0
    pub level3 : bit_and u.eflags c.efl_iopl_ring3 ≡ 0
    pub level2 : bit_and u.eflags c.efl_iopl_ring2 ≡ 0
    pub level1 : bit_and u.eflags c.efl_iopl_ring1 ≡ 0

  check_ureg-UserMode : (u : Ureg) → (check_ureg_safety c u == 0) ≡ true → UserMode u
  unfolding check_ureg_safety check_eip_safety check_esp_safety check_eflags_safety
  check_ureg-UserMode u e = record {
    data_segment = ground (arith, e);
    stack_segment = ground (arith, e);
    code_segment = ground (arith, e);
    code = ground (arith, e);
    stack = ground (arith, e);
    interrupts = λ z. ground (arith, e, z);
    level3 = ground (arith, e);
    level2 = ground (arith, e);
    level1 = ground (arith, e);
  }

  -- What holds of the end of a call on the thread `t`.
  abbrev pub EndsWell : Tcb → End × Tcb → Type 0
  EndsWell t (returns (pos k), t') = (k ≡ 0) × SafeHandler t'
  EndsWell t (returns (negsuc e), t') = t' ≡ t
  EndsWell t (restores u, t') = SafeHandler t' × UserMode u

  -- What was registered.
  abbrev swexn_of : Tcb → Swexn
  swexn_of t = (t.swexn_handler_esp, t.swexn_handler, t.swexn_handler_arg)

  abbrev with_swexn : Tcb → ℕ → ℕ → ℕ → Tcb
  with_swexn t esp3 eip arg = record t {
    swexn_handler_esp = esp3;
    swexn_handler_arg = arg;
    swexn_handler = eip;
  }

  restore-EndsWell :
      (t : Tcb) (newureg : Option Ureg) (esp3 eip arg : ℕ)
      → SafeHandler (with_swexn t esp3 eip arg)
      → EndsWell t (restore_end c (swexn_of t) newureg (with_swexn t esp3 eip arg))
  unfolding restore_end tcb_register_swexn_handler
  restore-EndsWell t none esp3 eip arg safe = (refl, safe)
  restore-EndsWell t (some u) esp3 eip arg safe = elim (Bool-cases (check_ureg_safety c u == 0)) [
    | inl e ↦ rw e (safe, check_ureg-UserMode u e)
    | inr e ↦ rw e refl
  ]

  -- A call of swexn on a thread ends in one of three ways. It returns 0, with no handler or one in
  -- user memory whose stack is in user memory; it returns a negative code, and the thread is as before; or
  -- it restores registers that are those of user mode, with the handler as for 0.
  pub swexn-EndsWell :
      (t : Tcb) (esp3 eip arg : ℕ) (newureg : Option Ureg)
      → EndsWell t (syscall_swexn c esp3 eip arg newureg t)
  unfolding syscall_swexn tcb_deregister_swexn_handler install tcb_register_swexn_handler
      check_esp_safety check_eip_safety
  swexn-EndsWell t esp3 eip arg newureg = elim (Bool-cases (not (esp3 == 0) && not (eip == 0))) [
    | inr e ↦ rw e (restore-EndsWell t newureg 0 0 0 (inl refl))
    | inl e ↦
        elim (Bool-cases
          (not (check_esp_safety c esp3 == 0) || not (check_eip_safety c eip == 0))) [
            | inl unsafe ↦ rw (e, unsafe) refl
            | inr safe ↦
                rw (e, safe)
                  (restore-EndsWell t newureg esp3 eip arg
                    (inr (ground (arith, safe), ground (arith, safe))))
          ]
  ]
