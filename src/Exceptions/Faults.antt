-- ===== src/Exceptions/Faults.antt =====
-- Which exceptions of kern/handlers/exception_handlers.c end a thread.
use custom_os_kernel.Base.{
  ℕ, ◌+◌, ◌*◌, ◌^◌, ◌≤◌, ◌<◌, ◌≡◌, ◌≢◌, ◌∙◌, refl, sym, ap, subst, Bool, true, false, not, ◌&&◌,
  some, inl, inr, ◌==◌, arith, Bool-cases,
}
use custom_os_kernel.Base.Int.{ℤ, pos, neg}
use custom_os_kernel.Tcb.{Tcb, Memory, tcb_deregister_swexn_handler}
use custom_os_kernel.Scheduler.{Scheduler, tcb_at, set_tcb}
use custom_os_kernel.Scheduler.Helpers.{thr_set_status, thr_vanish}
use custom_os_kernel.Exceptions.{
  Processor, Context, Fault, Handled, resumes, dumps, dumps_only, error_code_of, unless_caught,
  swexn_execute, handle,
}
use custom_os_kernel.Exceptions.Frame.{Documented}
use custom_os_kernel.Exceptions.Enter.{Entered, swexn_execute-Entered}

-- The thread without its handler.
abbrev pub freed : Tcb → Tcb
freed t = record t { swexn_handler_esp = 0; swexn_handler_arg = 0; swexn_handler = 0 }

abbrev pub without_handler : Scheduler → Scheduler
without_handler s = set_tcb s.cur_tcb (freed (tcb_at s s.cur_tcb)) s

-- The current thread has a handler and a stack for it.
abbrev pub has_handler : Scheduler → Bool
has_handler s =
    not ((tcb_at s s.cur_tcb).swexn_handler_esp == 0)
    && not ((tcb_at s s.cur_tcb).swexn_handler == 0)

-- The current thread, without its handler, has this exit status.
abbrev pub leaving_with : ℤ → Scheduler → Scheduler
leaving_with status s =
    set_tcb s.cur_tcb (record (freed (tcb_at s s.cur_tcb)) { exit_status = status })
      (without_handler s)

-- What an exception meets: the current thread, the memory of its program and the stack.
abbrev pub met : Memory → (ℕ → ℕ) → Scheduler → Context
met m stack s = record { tcb = tcb_at s s.cur_tcb; memory = m; stack = stack }

-- How an exception with an error code, or without one, may end.
abbrev pub Meets :
    Processor
    → (cause : ℕ) → (metadata node e : Bool) → Fault
    → Memory
    → (ℕ → ℕ)
    → Scheduler
    → Handled
    → Type 0
Meets cpu cause metadata node e f m stack s (resumes m' stack' s') =
    let t = tcb_at s s.cur_tcb in
    (has_handler s ≡ true)
    × (s' ≡ without_handler s)
    × Entered cpu cause t.swexn_handler_esp t.swexn_handler t.swexn_handler_arg e (met m stack s)
        (record { tcb = freed t; memory = m'; stack = stack' })
Meets cpu cause metadata node e f m stack s (dumps g r) =
    (has_handler s ≡ false) × (g ≡ f) × (r ≡ thr_vanish metadata node (leaving_with (neg 2) s))
Meets cpu cause metadata node e f m stack s (dumps_only g s') = ⊥

-- The same with what `swexn_execute` leaves, where the thread has a handler.
handle-enters :
    (cpu : Processor) (causes : Fault → ℕ) (ureg : ℕ → ℕ) (metadata node e : Bool) (f : Fault)
    (m : Memory) (stack : ℕ → ℕ) (s : Scheduler) (c' : Context)
    → error_code_of f ≡ some e
    → (s.cur_tcb == 0) ≡ false
    → swexn_execute cpu ureg (causes f) (met m stack s) e ≡ (pos 0, c')
    → handle cpu causes ureg metadata node f m stack s
      ≡ resumes c'.memory c'.stack (set_tcb s.cur_tcb c'.tcb s)
unfolding handle
handle-enters cpu causes ureg metadata node e f m stack s c' caught there ran =
    rw (there, caught, handle) (ap (unless_caught metadata node f s) ran)

-- The thread is left without its handler.
execute-freed :
    (cpu : Processor) (ureg : ℕ → ℕ) (cause : ℕ) (e : Bool) (m : Memory) (stack : ℕ → ℕ)
    (s : Scheduler)
    → has_handler s ≡ true
    → (swexn_execute cpu ureg cause (met m stack s) e).1.tcb ≡ freed (tcb_at s s.cur_tcb)
unfolding swexn_execute tcb_deregister_swexn_handler
execute-freed cpu ureg cause e m stack s h = rw h refl

-- A thread without a handler is dumped and ends.
handle-kills :
    (cpu : Processor) (causes : Fault → ℕ) (ureg : ℕ → ℕ) (metadata node e : Bool) (f : Fault)
    (m : Memory) (stack : ℕ → ℕ) (s : Scheduler)
    → error_code_of f ≡ some e
    → (s.cur_tcb == 0) ≡ false
    → has_handler s ≡ false
    → handle cpu causes ureg metadata node f m stack s
      ≡ dumps f (thr_vanish metadata node (leaving_with (neg 2) s))
unfolding handle swexn_execute tcb_deregister_swexn_handler thr_set_status
handle-kills cpu causes ureg metadata node e f m stack s caught there h =
    let itself : (s.cur_tcb == s.cur_tcb) ≡ true = ground arith in
    rw (there, caught, handle) (rw h (rw (there, itself) refl))

-- An exception that a program can catch, while there is a current thread. A thread that has a handler,
-- with room on the stack for it, loses it, and goes on in it: it finds what `Entered` says. A thread
-- that has none is dumped for this exception, and ends with status -2.
pub handle-Meets :
    (cpu : Processor) (causes : Fault → ℕ) (ureg : ℕ → ℕ) (metadata node e : Bool) (f : Fault)
    (m : Memory) (stack : ℕ → ℕ) (s : Scheduler)
    → error_code_of f ≡ some e
    → s.cur_tcb ≢ 0
    → Documented cpu.layout
    → (has_handler s ≡ true → 4 * cpu.layout.size + 12 ≤ (tcb_at s s.cur_tcb).swexn_handler_esp)
    → (tcb_at s s.cur_tcb).swexn_handler_esp < 2 ^ 32
    → Meets cpu
        (causes f)
        metadata
        node
        e
        f
        m
        stack
        s
        (handle cpu causes ureg metadata node f m stack s)
handle-Meets cpu causes ureg metadata node e f m stack s caught current d room word =
    let there : (s.cur_tcb == 0) ≡ false = ground (arith, current) in
    let t = tcb_at s s.cur_tcb in
    elim (Bool-cases (has_handler s)) [
      | inl h ↦
          let some_handler : t.swexn_handler ≢ 0 = ground (arith, h) in
          let (c', ran, entered) =
            swexn_execute-Entered cpu ureg (causes f) (met m stack s) e d some_handler (room h)
              word in
          let free : c'.tcb ≡ freed t =
            ap (λ o. o.1.tcb) (sym ran) ∙ execute-freed cpu ureg (causes f) e m stack s h in
          subst (Meets cpu (causes f) metadata node e f m stack s)
            (sym (handle-enters cpu causes ureg metadata node e f m stack s c' caught there ran))
            (
              h,
              ap (λ x. set_tcb s.cur_tcb x s) free,
              subst
                  (λ x.
                    Entered cpu (causes f) t.swexn_handler_esp t.swexn_handler t.swexn_handler_arg e
                      (met m stack s) (record { tcb = x; memory = c'.memory; stack = c'.stack }))
                  free entered,
            )
      | inr h ↦
          subst (Meets cpu (causes f) metadata node e f m stack s)
            (sym (handle-kills cpu causes ureg metadata node e f m stack s caught there h))
            (h, refl, refl)
    ]
