-- ===== src/Exceptions/Enter.antt =====
-- What a handler of kern/handlers/exception_handlers.c finds when it is entered.
use custom_os_kernel.Base.{
  ℕ, ◌+◌, ◌-◌, ◌*◌, ◌^◌, ◌≤◌, ◌<◌, ◌≡◌, ◌≢◌, refl, ap, ◌∙◌, Bool, true, not, ◌&&◌, ◌==◌, sub32,
  arith, inl, inr, ◌⊎◌,
}
use custom_os_kernel.Base.Int.{pos}
use custom_os_kernel.Tcb.{Tcb, tcb_deregister_swexn_handler}
use custom_os_kernel.Exceptions.{Processor, Context, entered, swexn_execute}
use custom_os_kernel.Exceptions.Frame.{
  Documented, pushed_at, words, cause-word, cr2-word, saved-word, pushed-word, frame_at,
  handler_frame-at, frame_word, frame_other, frame_arguments, iret_frame-words, iret_frame-other,
}

-- The handler `eip` is entered with the stack of the program at `esp3` and under it the registers at
-- `ureg`, the argument and an empty return address.
pub record Entered (cpu : Processor) (cause esp3 eip arg : ℕ) (e : Bool) (c c' : Context)
    : Type 0 where
  pub unregistered : (c'.tcb.swexn_handler ≡ 0) × (c'.tcb.swexn_handler_esp ≡ 0)
  -- The words that `iret` takes.
  pub to_handler : c'.stack (pushed_at e) ≡ eip
  pub code_segment : c'.stack (pushed_at e + 1) ≡ cpu.segsel_user_cs
  pub flags : c'.stack (pushed_at e + 2) ≡ cpu.user_eflags
  pub stack_pointer : c'.stack (pushed_at e + 3) ≡ esp3 - 4 * cpu.layout.size - 12
  pub stack_segment : c'.stack (pushed_at e + 4) ≡ cpu.segsel_user_ds
  -- The arguments.
  pub return_address : c'.memory (esp3 - 4 * cpu.layout.size - 12) ≡ 0
  pub argument : c'.memory (esp3 - 4 * cpu.layout.size - 8) ≡ arg
  pub registers : c'.memory (esp3 - 4 * cpu.layout.size - 4) ≡ esp3 - 4 * cpu.layout.size
  -- The registers.
  pub cause_word : c'.memory (esp3 - 4 * cpu.layout.size + 4 * cpu.layout.cause) ≡ cause
  pub cr2_word : c'.memory (esp3 - 4 * cpu.layout.size + 4 * cpu.layout.cr2) ≡ cpu.cr2
  pub saved :
      (i : ℕ)
      → i < 12
      → c'.memory (esp3 - 4 * cpu.layout.size + 4 * (cpu.layout.ds + i)) ≡ c.stack i
  pub interrupted :
      (i : ℕ)
      → i < 5
      → c'.memory (esp3 - 4 * cpu.layout.size + 4 * (cpu.layout.eip + i))
        ≡ c.stack (pushed_at e + i)
  -- Nothing else changes.
  pub other_stack : (j : ℕ) → (j < pushed_at e) ⊎ (pushed_at e + 5 ≤ j) → c'.stack j ≡ c.stack j
  pub other_memory :
      (a : ℕ) → (a < esp3 - 4 * cpu.layout.size - 12) ⊎ (esp3 ≤ a) → c'.memory a ≡ c.memory a

-- A thread that has a handler, with a stack of enough room below 2^32, enters it on an exception, and
-- has no handler any more. `iret` goes to the handler in user mode, with the stack pointer at an empty
-- return address, the argument and the address of the registers, which hold the cause, the fault
-- address, the saved registers and the five words that the processor pushed. The rest of the memory
-- and of the stack of the exception is as before.
pub swexn_execute-Entered :
    (cpu : Processor) (ureg : ℕ → ℕ) (cause : ℕ) (c : Context) (e : Bool)
    → Documented cpu.layout
    → c.tcb.swexn_handler ≢ 0
    → 4 * cpu.layout.size + 12 ≤ c.tcb.swexn_handler_esp
    → c.tcb.swexn_handler_esp < 2 ^ 32
    → (c' : Context) × (swexn_execute cpu ureg cause c e ≡ (pos 0, c'))
      × Entered cpu cause c.tcb.swexn_handler_esp c.tcb.swexn_handler c.tcb.swexn_handler_arg e c c'
unfolding swexn_execute tcb_deregister_swexn_handler
swexn_execute-Entered cpu ureg cause c e d some_handler room word =
    let o = cpu.layout in
    let esp3 = c.tcb.swexn_handler_esp in
    let u = esp3 - 4 * o.size in
    let ws = words cpu d ureg cause c.stack e in
    let test : (not (esp3 == 0) && not (c.tcb.swexn_handler == 0)) ≡ true =
      ground (arith, room, some_handler) in
    let args = frame_arguments u o.size c.tcb.swexn_handler_arg ws c.memory (omega (arith, room)) in
    let same = handler_frame-at o.size esp3 c.tcb.swexn_handler_arg ws c.memory room word in
    let esp : sub32 (sub32 esp3 (4 * o.size)) 12 ≡ u - 12 = omega (arith, room, word) in
    let t : Tcb = record c.tcb {
      swexn_handler_esp = 0;
      swexn_handler_arg = 0;
      swexn_handler = 0;
    } in
    let c' : Context = entered cpu ws c e esp3 c.tcb.swexn_handler c.tcb.swexn_handler_arg t in
    let top = sub32 (sub32 esp3 (4 * o.size)) 12 in
    let iret = iret_frame-words cpu top c.tcb.swexn_handler e c.stack in
    let word_at : (w : ℕ)
        → w < o.size
        → frame_at u o.size c.tcb.swexn_handler_arg ws c.memory (u + 4 * w) ≡ ws w =
      λ w lt. frame_word u o.size c.tcb.swexn_handler_arg ws c.memory (omega (arith, room)) w lt in
    let at : (a : ℕ) → c'.memory a ≡ frame_at u o.size c.tcb.swexn_handler_arg ws c.memory a =
      λ a. ap (λ f. f a) same in
    (
      c',
      rw test refl,
      record {
        unregistered = (refl, refl);
        to_handler = iret.0;
        code_segment = iret.1;
        flags = iret.2;
        stack_pointer = iret.3 ∙ esp;
        stack_segment = iret.4;
        return_address = at (u - 12) ∙ args.0;
        argument = at (u - 8) ∙ args.1;
        registers = at (u - 4) ∙ args.2;
        cause_word =
            at (u + 4 * o.cause)
            ∙ word_at o.cause (omega (arith, d.cause_first, d.code, d.pushed, d.ends))
            ∙ cause-word cpu d ureg cause c.stack e;
        cr2_word =
            at (u + 4 * o.cr2)
            ∙ word_at o.cr2 (omega (arith, d.cr2_first, d.code, d.pushed, d.ends))
            ∙ cr2-word cpu d ureg cause c.stack e;
        saved = λ i lt.
            at (u + 4 * (o.ds + i))
            ∙ word_at (o.ds + i) (omega (arith, lt, d.code, d.pushed, d.ends))
            ∙ saved-word cpu d ureg cause c.stack e i lt;
        interrupted = λ i lt.
            at (u + 4 * (o.eip + i))
            ∙ word_at (o.eip + i) (omega (arith, lt, d.ends))
            ∙ pushed-word cpu d ureg cause c.stack e i lt;
        other_stack = λ j out. iret_frame-other cpu top c.tcb.swexn_handler e c.stack j out;
        other_memory = λ a out.
            at a
            ∙ frame_other u o.size c.tcb.swexn_handler_arg ws c.memory (omega (arith, room)) a
                (elim out [ inl lt ↦ inl lt | inr le ↦ inr (omega (arith, le, room)) ]);
      },
    )
