-- ===== src/Tcb.antt =====
-- kern/scheduler/tcb.c: thread control blocks. Addresses and words are numbers below 2^32; memory is a
-- function on addresses. The selectors and the flags of user mode come from the processor's headers
-- and registers, so they are parameters.
pub mod Stack
mod Examples
use custom_os_kernel.Base.{
  ℕ, ◌+◌, ◌*◌, ◌≡◌, Bool, true, false, Option, none, some, List, [], ◌∷◌, if◌then◌else◌, ◌==◌, ltb,
  add32, sub32,
}
use custom_os_kernel.Base.Int.{ℤ, pos, neg}

-- `UNINIT` to `SLEEPING`
pub data Status : Type 0 where
  uninit runnable waiting zombie running sleeping : Status

-- `tcb_t`; a pointer is its address, and 0 is NULL. `tid` is the bit pattern of the `int`.
pub record Tcb : Type 0 where
  pub tid : ℕ
  pub status : Status
  pub exit_status : ℤ
  pub t_wakeup : ℕ
  pub pcb : ℕ
  pub k_stack_bot : ℕ
  pub k_stack_top : ℕ
  pub orig_k_stack : ℕ
  pub tmp_k_stack : ℕ
  pub swexn_handler : ℕ
  pub swexn_handler_arg : ℕ
  pub swexn_handler_esp : ℕ

-- What the headers and the registers of the processor give.
pub record Processor : Type 0 where
  pub segsel_user_ds : ℕ
  pub segsel_user_cs : ℕ
  pub user_eflags : ℕ

-- The fields of a `pcb_t` that a stack is made from.
pub record Program : Type 0 where
  pub stack_top : ℕ
  pub entry_point : ℕ

abbrev pub Memory : Type 0
Memory = ℕ → ℕ

-- `top[-k] = v`
abbrev pub push_at : (top k v : ℕ) → Memory → Memory
push_at top k v m a = if a == sub32 top (4 * k) then v else m a

-- The value that is preset, or the default where `regs` is NULL.
abbrev pub preset : Option (ℕ → ℕ) → (default index : ℕ) → ℕ
preset none default index = default
preset (some regs) default index = regs index

unfoldable pub store_all : (top : ℕ) → List (ℕ × ℕ) → Memory → Memory
store_all top [] m = m
store_all top ((k, v) ∷ slots) m = store_all top slots (push_at top k v m)

-- What `load_kstack` stores, in its order, by the distance from the top of the stack.
unfoldable pub kstack_slots : Processor → Program → Option (ℕ → ℕ) → List (ℕ × ℕ)
kstack_slots cpu pcb regs =
    (1, preset regs cpu.segsel_user_ds 17)
    ∷ (2, preset regs pcb.stack_top 16)
    ∷ (3, preset regs cpu.user_eflags 15)
    ∷ (4, preset regs cpu.segsel_user_cs 14)
    ∷ (5, preset regs pcb.entry_point 13)
    ∷ (6, 0)
    ∷ (7, 0)
    ∷ (8, preset regs 0 10)
    ∷ (9, preset regs 0 9)
    ∷ (10, preset regs 0 8)
    ∷ (11, 0)
    ∷ (12, preset regs pcb.stack_top 6)
    ∷ (13, preset regs 0 5)
    ∷ (14, preset regs 0 4)
    ∷ (15, preset regs cpu.segsel_user_ds 0)
    ∷ (16, preset regs cpu.segsel_user_ds 1)
    ∷ (17, preset regs cpu.segsel_user_ds 2)
    ∷ (18, preset regs cpu.segsel_user_ds 3)
    ∷ []

unfoldable pub load_kstack :
    Processor → Tcb → Program → (k_stack_top : ℕ) → Option (ℕ → ℕ) → Memory → Tcb × Memory
load_kstack cpu t pcb k_stack_top regs m = (
  record t {
    k_stack_top = k_stack_top;
    orig_k_stack = sub32 k_stack_top 72;
    tmp_k_stack = sub32 k_stack_top 72;
  },
  store_all k_stack_top (kstack_slots cpu pcb regs) m,
)

-- `pcb` is the address of the process and what it holds; `malloc` is the address of the stack.
unfoldable pub tcb_init :
    Processor
    → (malloc : ℕ) → Option Tcb
    → (tid : ℕ) → Option (ℕ × Program)
    → Option (ℕ → ℕ)
    → Memory
    → ℤ × Option Tcb × Memory
tcb_init cpu malloc none tid pcb regs m = (neg 1, none, m)
tcb_init cpu malloc (some t) tid none regs m = (neg 1, some t, m)
tcb_init cpu malloc (some t) tid (some (pcb, program)) regs m =
    let begun : Tcb = record t { tid = tid; pcb = pcb; status = runnable; k_stack_bot = malloc } in
    if malloc == 0
    then (neg 2, some begun, m)
    else let (t', m') = load_kstack cpu begun program (add32 malloc 32768) regs m in
      (
        pos 0,
        some (record t' { swexn_handler = 0; swexn_handler_arg = 0; swexn_handler_esp = 0 }),
        m',
      )

-- `wanted` says that the output pointer is not NULL.
unfoldable pub tcb_get_init_stack : Option Tcb → (wanted : Bool) → ℤ × Option ℕ
tcb_get_init_stack none wanted = (neg 1, none)
tcb_get_init_stack (some t) wanted = if wanted then (pos 0, some t.orig_k_stack) else (neg 1, none)

unfoldable pub tcb_get_pcb : Option Tcb → (wanted : Bool) → ℤ × Option ℕ
tcb_get_pcb none wanted = (neg 1, none)
tcb_get_pcb (some t) wanted = if wanted then (pos 0, some t.pcb) else (neg 1, none)

unfoldable pub tcb_t_wakeup_cmp : Tcb → Tcb → ℤ
tcb_t_wakeup_cmp a b =
    if ltb a.t_wakeup b.t_wakeup then neg 1 else if ltb b.t_wakeup a.t_wakeup then pos 1 else pos 0

unfoldable pub tcb_get_exit_status : Option Tcb → ℤ × Option ℤ
tcb_get_exit_status none = (neg 1, none)
tcb_get_exit_status (some t) = (pos 0, some t.exit_status)

-- The exception stack, the handler and its argument.
abbrev pub Swexn : Type 0
Swexn = ℕ × ℕ × ℕ

-- What was registered comes back as the second result.
unfoldable pub tcb_deregister_swexn_handler : Option Tcb → ℤ × Option Swexn × Option Tcb
tcb_deregister_swexn_handler none = (neg 1, none, none)
tcb_deregister_swexn_handler (some t) = (
  pos 0,
  some (t.swexn_handler_esp, t.swexn_handler, t.swexn_handler_arg),
  some (record t { swexn_handler_esp = 0; swexn_handler_arg = 0; swexn_handler = 0 }),
)

unfoldable pub tcb_register_swexn_handler : Option Tcb → Swexn → ℤ × Option Tcb
tcb_register_swexn_handler none swexn = (neg 1, none)
tcb_register_swexn_handler (some t) (esp3, eip, arg) = (
  pos 0,
  some (record t { swexn_handler_esp = esp3; swexn_handler_arg = arg; swexn_handler = eip }),
)

unfoldable pub tcb_reload :
    Processor → Option Tcb → Option Program → Memory → ℤ × Option Tcb × Memory
tcb_reload cpu none pcb m = (neg 1, none, m)
tcb_reload cpu (some t) none m = (neg 1, some t, m)
tcb_reload cpu (some t) (some pcb) m =
    let (t', m') = load_kstack cpu t pcb t.k_stack_top none m in
    (pos 0, (tcb_deregister_swexn_handler (some t')).2, m')
