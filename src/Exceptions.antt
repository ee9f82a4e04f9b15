-- ===== src/Exceptions.antt =====
-- kern/handlers/exception_handlers.c: exceptions of the processor, and the handlers that programs
-- register for them. The layout of `ureg_t`, the causes and the selectors stand in headers of the
-- processor and are parameters. Output to the console is left out, but for which exception is dumped.
pub mod Frame
pub mod Enter
pub mod Faults
mod Examples
use custom_os_kernel.Base.{
  ℕ, zero, suc, ◌+◌, ◌-◌, ◌*◌, ◌/◌, ◌%◌, Bool, true, false, not, ◌&&◌, Option, none, some, List, [],
  ◌∷◌, ◌++◌, if◌then◌else◌, ◌==◌, ltb, leb, sub32,
}
use custom_os_kernel.Base.Int.{ℤ, pos, negsuc, neg}
use custom_os_kernel.Tcb.{Tcb, Swexn, Memory, tcb_deregister_swexn_handler}
use custom_os_kernel.Scheduler.{Scheduler, tcb_at, set_tcb}
use custom_os_kernel.Scheduler.Helpers.{Exit, thr_set_status, thr_vanish}

-- Where the fields of a `ureg_t` stand, in words, and how many words it has.
pub record Layout : Type 0 where
  pub cause : ℕ
  pub cr2 : ℕ
  pub ds : ℕ
  pub error_code : ℕ
  pub eip : ℕ
  pub size : ℕ

-- What the headers and the registers of the processor give.
pub record Processor : Type 0 where
  pub layout : Layout
  pub cr2 : ℕ
  pub segsel_user_ds : ℕ
  pub segsel_user_cs : ℕ
  pub user_eflags : ℕ

-- `n` words from `src` copied to `dest`, both indexes of words.
abbrev pub copied : (dest src n : ℕ) → (to from : ℕ → ℕ) → ℕ → ℕ
copied dest src n to from w =
    if leb dest w && ltb w (dest + n) then from (src + (w - dest)) else to w

abbrev pub stored : ℕ → ℕ → (ℕ → ℕ) → ℕ → ℕ
stored k v f w = if w == k then v else f w

-- The words of the `ureg_t`; `ureg` is what stood there before. `none` is a stack that is NULL.
unfoldable pub ureg_from_stack :
    Processor
    → (ureg : ℕ → ℕ) → (cause : ℕ) → (stack : Option (ℕ → ℕ)) → (generates_error_code : Bool)
    → ℤ × (ℕ → ℕ)
ureg_from_stack cpu ureg cause none generates_error_code = (neg 1, ureg)
ureg_from_stack cpu ureg cause (some stack) generates_error_code =
    let o = cpu.layout in
    let regs = copied o.ds 0 18 (stored o.cr2 cpu.cr2 (stored o.cause cause ureg)) stack in
    (pos 0, if generates_error_code then regs else copied o.eip o.error_code 5 regs regs)

-- `p[w] = words[w]` for the words of a `ureg_t` at `p`.
abbrev pub write_words : (p size : ℕ) → (ℕ → ℕ) → Memory → Memory
write_words p size words m a =
    if leb p a && (ltb a (p + 4 * size) && (a - p) % 4 == 0) then words ((a - p) / 4) else m a

-- The block on the stack of the handler: its arguments under the registers.
abbrev pub handler_frame : (size esp3 arg : ℕ) → (ℕ → ℕ) → Memory → Memory
handler_frame size esp3 arg words m =
    let ureg_ptr = sub32 esp3 (4 * size) in
    stored (sub32 ureg_ptr 12) 0 (
      stored (sub32 ureg_ptr 8) arg
        (stored (sub32 ureg_ptr 4) ureg_ptr (write_words ureg_ptr size words m)))

-- What `iret` takes from the stack: from index 13 on, or 12 without an error code.
abbrev pub iret_frame : Processor → (esp eip : ℕ) → (generates_error_code : Bool) → (ℕ → ℕ) → ℕ → ℕ
iret_frame cpu esp eip generates_error_code stack =
    let offset = if generates_error_code then 0 else 1 in
    stored (13 - offset) eip (
      stored (14 - offset) cpu.segsel_user_cs (
        stored (15 - offset) cpu.user_eflags
          (stored (17 - offset) cpu.segsel_user_ds (stored (16 - offset) esp stack))))

-- What the handler sees: the current thread, the memory of the program and the stack of the exception.
pub record Context : Type 0 where
  pub tcb : Tcb
  pub memory : Memory
  pub stack : ℕ → ℕ

-- The context in which the handler starts; `t` is the thread without its handler.
abbrev pub entered :
    Processor → (words : ℕ → ℕ) → Context → Bool → (esp3 eip arg : ℕ) → Tcb → Context
entered cpu words c generates_error_code esp3 eip arg t = record {
  tcb = t;
  memory = handler_frame cpu.layout.size esp3 arg words c.memory;
  stack =
      iret_frame cpu (sub32 (sub32 esp3 (4 * cpu.layout.size)) 12) eip generates_error_code c.stack;
}

-- With the handler that was registered, and the thread without it.
abbrev pub enter :
    Processor → (words : ℕ → ℕ) → Context → Bool → Option Swexn → Option Tcb → ℤ × Context
enter cpu words c generates_error_code (some (esp3, eip, arg)) (some t) =
    if not (esp3 == 0) && not (eip == 0)
    then (pos 0, entered cpu words c generates_error_code esp3 eip arg t)
    else (neg 4, record c { tcb = t })
enter cpu words c generates_error_code none o = (neg 3, c)
enter cpu words c generates_error_code (some h) none = (neg 3, c)

-- On the current thread, with a stack that is not NULL. `ureg` is what the local variable held.
unfoldable pub swexn_execute :
    Processor → (ureg : ℕ → ℕ) → (cause : ℕ) → Context → (generates_error_code : Bool) → ℤ × Context
swexn_execute cpu ureg cause c generates_error_code =
    let words = (ureg_from_stack cpu ureg cause (some c.stack) generates_error_code).1 in
    let freed = tcb_deregister_swexn_handler (some c.tcb) in
    enter cpu words c generates_error_code freed.1 freed.2

-- The exceptions that have a handler.
pub data Fault : Type 0 where
  page_fault double_fault division_error debug_exception breakpoint overflow bound_range undef_op :
      Fault
  no_math coprocessor_segment_overrun invalid_tss segment_not_present ss_fault gp_fault : Fault
  math_fault align_fault machine_check simd_fault : Fault

-- Whether a program can catch the exception, and whether it comes with an error code.
abbrev pub error_code_of : Fault → Option Bool
error_code_of page_fault = some true
error_code_of double_fault = none
error_code_of division_error = some false
error_code_of debug_exception = some false
error_code_of breakpoint = some false
error_code_of overflow = some false
error_code_of bound_range = some false
error_code_of undef_op = some false
error_code_of no_math = some false
error_code_of coprocessor_segment_overrun = none
error_code_of invalid_tss = none
error_code_of segment_not_present = some true
error_code_of ss_fault = some true
error_code_of gp_fault = some true
error_code_of math_fault = some false
error_code_of align_fault = some true
error_code_of machine_check = none
error_code_of simd_fault = some false

-- Whether the dump names the exception, and does not call it unknown.
abbrev pub is_named : Fault → Bool
is_named breakpoint = false
is_named overflow = false
is_named page_fault = true
is_named double_fault = true
is_named division_error = true
is_named debug_exception = true
is_named bound_range = true
is_named undef_op = true
is_named no_math = true
is_named coprocessor_segment_overrun = true
is_named invalid_tss = true
is_named segment_not_present = true
is_named ss_fault = true
is_named gp_fault = true
is_named math_fault = true
is_named align_fault = true
is_named machine_check = true
is_named simd_fault = true

-- How an exception ends: the program goes on with the memory, the stack and the scheduler that are
-- given; or the exception is dumped, and the program goes on all the same or its thread leaves.
pub data Handled : Type 0 where
  resumes : Memory → (ℕ → ℕ) → Scheduler → Handled
  dumps_only : Fault → Scheduler → Handled
  dumps : Fault → Option (Exit × Scheduler) → Handled

-- `thr_vanish`, with status -2 or with the one that the thread has. `metadata` and `node` say what
-- malloc gives.
abbrev pub vanished : (metadata node : Bool) → Option Scheduler → Option (Exit × Scheduler)
vanished metadata node none = none
vanished metadata node (some s) = thr_vanish metadata node s

abbrev pub killed : (metadata node : Bool) → Fault → Scheduler → Handled
killed metadata node f s = dumps f (vanished metadata node (thr_set_status s (neg 2)))

abbrev pub unless_caught : (metadata node : Bool) → Fault → Scheduler → ℤ × Context → Handled
unless_caught metadata node f s (pos zero, c) = resumes c.memory c.stack (set_tcb s.cur_tcb c.tcb s)
unless_caught metadata node f s (pos (suc k), c) =
    killed metadata node f (set_tcb s.cur_tcb c.tcb s)
unless_caught metadata node f s (negsuc e, c) = killed metadata node f (set_tcb s.cur_tcb c.tcb s)

-- Those that no program can catch.
abbrev pub uncaught : (metadata node : Bool) → Fault → Scheduler → Handled
uncaught metadata node double_fault s = dumps_only double_fault s
uncaught metadata node machine_check s = dumps machine_check (thr_vanish metadata node s)
uncaught metadata node f s = killed metadata node f s

-- The handlers. `ureg` is what the local variable held; `stack` is not NULL. Without a current thread a
-- store goes through NULL.
unfoldable pub handle :
    Processor
    → (causes : Fault → ℕ) → (ureg : ℕ → ℕ) → (metadata node : Bool) → Fault
    → Memory
    → (stack : ℕ → ℕ) → Scheduler
    → Handled
handle cpu causes ureg metadata node f m stack s =
    if s.cur_tcb == 0 then dumps f none else elim (error_code_of f) [
      | some generates_error_code ↦ unless_caught metadata node f s (
          swexn_execute cpu ureg (causes f)
            (record { tcb = tcb_at s s.cur_tcb; memory = m; stack = stack }) generates_error_code)
      | none ↦ uncaught metadata node f s
    ]
