-- ===== src/Scheduler/Reach.antt =====
-- The states that calls and ticks reach from one where the invariant holds, and whom the timer serves.
use custom_os_kernel.Base.{
  ℕ, suc, ◌+◌, ◌-◌, ◌^◌, ◌<◌, ◌≡◌, sym, ap, subst, ◌∙◌, Option, none, some, List, [], ◌∷◌, ◌++◌,
  append_assoc, arith, length,
}
use custom_os_kernel.Base.Int.{pos}
use custom_os_kernel.Semaphore.{sem_signal}
use custom_os_kernel.Tcb.{running}
use custom_os_kernel.Scheduler.{
  Scheduler, tcb_at, scheduler_deschedule_current_safe, scheduler_make_runnable_safe,
  scheduler_make_current_sleeping_safe, scheduler_make_current_zombie_safe,
}
use custom_os_kernel.Scheduler.Switch.{context_switch, c_timer_handler}
use custom_os_kernel.Scheduler.Inv.{IsValid}
use custom_os_kernel.Scheduler.Steps.{Runs, deschedule-IsValid, sleep-IsValid}
use custom_os_kernel.Scheduler.Reaper.{Wakeable, WakesWell, make_runnable-IsValid, zombie-IsValid}
use custom_os_kernel.Scheduler.Wakeup.{with_pool, at_tick, wakeup-Awake}
use custom_os_kernel.Scheduler.Helpers.{Exit, returns, restores, thr_yield}
use custom_os_kernel.Scheduler.Yield.{Yields, yield-Yields}
use custom_os_kernel.Scheduler.Robin.{switch-IsValid, timer-Turned, timer_lem}

-- The calls that move threads between the pools, and the tick.
pub data Call : Type 0 where
  deschedules ends : Call
  makes_runnable : (tid : ℕ) → Call
  sleeps : (n : ℕ) → Call
  switches : (old_esp : ℕ) → Call
  hands_over : (old_esp tid : ℕ) → Call
  ticks : (old_esp : ℕ) → Call

abbrev state_of : {A : Type 0} → Option (A × Scheduler) → Option Scheduler
state_of none = none
state_of (some (a, s)) = some s

abbrev pub run_call : Call → Scheduler → Option Scheduler
run_call deschedules s = state_of (scheduler_deschedule_current_safe s)
run_call ends s = state_of (scheduler_make_current_zombie_safe s)
run_call (makes_runnable tid) s = state_of (scheduler_make_runnable_safe s tid)
run_call (sleeps n) s = state_of (scheduler_make_current_sleeping_safe s (pos n))
run_call (switches old_esp) s = state_of (context_switch s old_esp (2 ^ 32 - 1))
run_call (hands_over old_esp tid) s = state_of (thr_yield s old_esp tid)
run_call (ticks old_esp) s = state_of (c_timer_handler s old_esp)

-- The current thread runs where it waits, sleeps or ends. A thread that is made runnable, be it the
-- reaper when a thread ends, is not one that runs, that has ended, or that the timer has woken and that
-- has not run since. A thread sleeps for some ticks, and the clock stays in the range of an `int`.
abbrev pub Admits : Call → Scheduler → Type 0
Admits deschedules s = Runs s
Admits ends s = Runs s × WakesWell (sem_signal s.thr_pool.zombies_sem).1 s.thr_pool
Admits (makes_runnable tid) s = Wakeable s.thr_pool tid
Admits (sleeps n) s = Runs s × (0 < n) × (s.num_ticks + n < 2 ^ 31)
Admits (switches old_esp) s = Unit
Admits (hands_over old_esp tid) s = tid < 2 ^ 31
Admits (ticks old_esp) s = s.num_ticks + 1 < 2 ^ 31

-- The states that such calls lead to, one after the other.
pub data Reach (s : Scheduler) : Scheduler → Type 0 where
  here : Reach s s
  next : {t u : Scheduler} → Reach s t → (c : Call) → Admits c t → run_call c t ≡ some u → Reach s u

-- A tick keeps the invariant, whether a thread is runnable or not.
timer-IsValid :
    (s : Scheduler) (old_esp : ℕ)
    → IsValid s
    → s.num_ticks + 1 < 2 ^ 31
    → (r : ℕ × Scheduler) × (c_timer_handler s old_esp ≡ some r) × IsValid r.1
timer-IsValid s old_esp v fits =
    let (p', woke, (woken, order, valid, same)) = wakeup-Awake s v in
    let (r, ran, valid') =
      switch-IsValid (at_tick (suc s.num_ticks) (with_pool p' s)) old_esp valid in
    (r, timer_lem s old_esp fits woke ∙ ran, valid')

Yields-IsValid :
    (s : Scheduler) (tid : ℕ) (r : Exit × Scheduler) → IsValid s → Yields s tid r → IsValid r.1
Yields-IsValid s tid (returns k, s') v yielded = subst IsValid (sym yielded.0) v
Yields-IsValid s tid (restores esp, s') v yielded = yielded.0

call-IsValid :
    (c : Call) (s : Scheduler)
    → IsValid s
    → Admits c s
    → (s' : Scheduler) × (run_call c s ≡ some s') × IsValid s'
call-IsValid deschedules s v runs =
    let (t, ran, valid) = deschedule-IsValid s v runs in (t, ap state_of ran, valid)
call-IsValid ends s v (runs, well) =
    let (t, ran, valid) = zombie-IsValid s v runs well in (t, ap state_of ran, valid)
call-IsValid (makes_runnable tid) s v wakeable =
    let (r, ran, valid) = make_runnable-IsValid s v tid wakeable in (r.1, ap state_of ran, valid)
call-IsValid (sleeps n) s v (runs, positive, fits) =
    let (t, ran, valid) = sleep-IsValid s v runs n positive fits in (t, ap state_of ran, valid)
call-IsValid (switches old_esp) s v any =
    let (r, ran, valid) = switch-IsValid s old_esp v in (r.1, ap state_of ran, valid)
call-IsValid (hands_over old_esp tid) s v small =
    let (r, ran, yielded) = yield-Yields s old_esp tid v small in
    (r.1, ap state_of ran, Yields-IsValid s tid r v yielded)
call-IsValid (ticks old_esp) s v fits =
    let (r, ran, valid) = timer-IsValid s old_esp v fits in (r.1, ap state_of ran, valid)

abbrev reached : Scheduler → Option Scheduler → Scheduler
reached s none = s
reached s (some t) = t

-- A run has one result.
same-IsValid :
    {o : Option Scheduler} {s t : Scheduler} → o ≡ some s → o ≡ some t → IsValid s → IsValid t
same-IsValid {s} e f v = subst IsValid (ap (reached s) (sym e ∙ f)) v

reached-IsValid : {s s' : Scheduler} → Reach s s' → IsValid s → IsValid s'
reached-IsValid here v = v
reached-IsValid (next {t = t} r c admitted e) v =
    let (u, ran, valid) = call-IsValid c t (reached-IsValid r v) admitted in
    same-IsValid ran e valid

-- From a state where it holds, after any calls and ticks that `Admits` allows, with no thread added, the
-- invariant holds: each thread is in at most one pool, its status fits the pool, the table finds exactly
-- the threads of the pools, sleepers are in the order of their times, which are all to come, and only the
-- current thread runs. A further call that is allowed runs to its end, and the invariant holds after it.
pub Reach-IsValid :
    {s s' : Scheduler} (c : Call)
    → Reach s s'
    → IsValid s
    → Admits c s'
    → IsValid s' × (s'' : Scheduler) × (run_call c s' ≡ some s'') × IsValid s''
Reach-IsValid {s' = t} c r v admitted =
    let valid = reached-IsValid r v in
    let (u, ran, valid') = call-IsValid c t valid admitted in (valid, u, ran, valid')

-- Ticks of the timer, with the stack pointers that they save.
unfoldable pub timer_ticks : List ℕ → Scheduler → Option Scheduler
timer_ticks [] s = some s
timer_ticks (old_esp ∷ esps) s = elim (c_timer_handler s old_esp) [
  | none ↦ none
  | some (esp, s') ↦ timer_ticks esps s'
]

abbrev ticks_after : List ℕ → Option (ℕ × Scheduler) → Option Scheduler
ticks_after esps none = none
ticks_after esps (some (esp, s)) = timer_ticks esps s

regroup :
    (xs : List ℕ) (a : ℕ) (ys woken : List ℕ) (h : ℕ)
    → ((xs ++ (a ∷ ys)) ++ woken) ++ (h ∷ []) ≡ xs ++ (a ∷ ((ys ++ woken) ++ (h ∷ [])))
regroup xs a ys woken h = simp append_assoc

-- The thread runs, in a state where the invariant holds.
abbrev pub Served : ℕ → Scheduler → Type 0
Served a s = (s.cur_tcb ≡ a) × ((tcb_at s a).status ≡ running) × IsValid s

-- Where only the timer switches threads, a runnable thread runs after as many ticks as it has threads
-- in front of it, whichever sleepers wake in between.
pub timer_ticks-Served :
    (xs : List ℕ) (h a : ℕ) (ys : List ℕ) (esps : List ℕ) (s : Scheduler)
    → IsValid s
    → s.thr_pool.runnable_pool ≡ h ∷ (xs ++ (a ∷ ys))
    → length esps ≡ suc (length xs)
    → s.num_ticks + length esps < 2 ^ 31
    → (s' : Scheduler) × (timer_ticks esps s ≡ some s') × Served a s'
unfolding timer_ticks
timer_ticks-Served xs h a ys [] s v order long fits = absurd (omega arith)
timer_ticks-Served [] h a ys (esp ∷ e2 ∷ esps) s v order long fits = absurd (omega arith)
timer_ticks-Served [] h a ys (esp ∷ []) s v order long fits =
    let (r, woken, ran, (valid, cur, order', runs, clock)) =
      timer-Turned s esp h (a ∷ ys) v (omega arith) order in
    (
      r.1,
      ap (ticks_after []) ran,
      (cur, subst (λ b. (tcb_at r.1 b).status ≡ running) cur runs, valid),
    )
timer_ticks-Served (x ∷ xs) h a ys (esp ∷ esps) s v order long fits =
    let (r, woken, ran, (valid, cur, order', runs, clock)) =
      timer-Turned s esp h (x ∷ (xs ++ (a ∷ ys))) v (omega arith) order in
    let (s', ran', served) =
      timer_ticks-Served xs x a ((ys ++ woken) ++ (h ∷ [])) esps r.1 valid
        (order' ∙ ap (λ l. x ∷ l) (regroup xs a ys woken h)) (omega arith) (omega arith) in
    (s', ap (ticks_after esps) ran ∙ ran', served)
