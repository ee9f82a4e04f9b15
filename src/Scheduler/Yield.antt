-- ===== src/Scheduler/Yield.antt =====
-- Yielding to a thread by its number, kern/scheduler/thr_helpers.c.
use custom_os_kernel.Base.{
  count, ℕ, ◌^◌, ◌<◌, ◌≡◌, ◌⊎◌, inl, inr, refl, sym, ap, ◌∙◌, Bool, true, false, Option, none, some,
  arith, Option-cases, Bool-cases,
}
use custom_os_kernel.Base.Int.{neg, is_neg, to_int}
use custom_os_kernel.TcbPool.{TcbPool}
use custom_os_kernel.TcbPool.Ops.{is_runnable}
use custom_os_kernel.TcbPool.Tables.{thread_at, tcb_pool_find_tcb}
use custom_os_kernel.TcbPool.Moves.{find_tcb-at}
use custom_os_kernel.Scheduler.{Scheduler, tcb_at, locked, unlocked, scheduler_check_is_runnable}
use custom_os_kernel.Scheduler.Switch.{context_switch_safe}
use custom_os_kernel.Scheduler.Inv.{IsValid}
use custom_os_kernel.Scheduler.Robin.{switch_to-IsValid}
use custom_os_kernel.Scheduler.Helpers.{Exit, returns, restores, switched, thr_yield}

-- The interrupt flag is no part of the invariant.
interrupts-IsValid : (s : Scheduler) (b : Bool) → IsValid s → IsValid (record s { interrupts = b })
interrupts-IsValid s b v = record {
  placed = v.placed;
  listed = v.listed;
  sorted = v.sorted;
  one_runs = v.one_runs;
  idle_apart = v.idle_apart;
  idle_there = v.idle_there;
  current = v.current;
}

abbrev safe_of : Option (ℕ × Scheduler) → Option (ℕ × Scheduler)
safe_of none = none
safe_of (some (esp, s)) = some (esp, unlocked s)

find_tcb-none :
    (p : TcbPool) (tid : ℕ) → thread_at p tid ≡ none → tcb_pool_find_tcb p tid true ≡ (neg 2, none)
unfolding tcb_pool_find_tcb
find_tcb-none p tid away = rw away refl

-- A thread that is found with the status of a runnable one is in the runnable pool.
runnable-held :
    (s : Scheduler) (tid a : ℕ)
    → IsValid s
    → thread_at s.thr_pool tid ≡ some a
    → is_runnable (tcb_at s a).status ≡ true
    → 0 < count a s.thr_pool.runnable_pool
runnable-held s tid a v at status = ground (arith, (v.listed tid a at).1, v.placed a)

-- What a yield to a thread by its number may do: refuse and change nothing, or run that thread.
abbrev pub Yields : Scheduler → (tid : ℕ) → Exit × Scheduler → Type 0
Yields s tid (returns r, s') =
    (s' ≡ s)
    × (((r ≡ neg 2) × (thread_at s.thr_pool tid ≡ none))
        ⊎ ((r ≡ neg 3)
            × ((a : ℕ) × (thread_at s.thr_pool tid ≡ some a)
                × (is_runnable (tcb_at s a).status ≡ false))))
Yields s tid (restores esp, s') = IsValid s' × (thread_at s.thr_pool tid ≡ some s'.cur_tcb)

-- On a valid scheduler, a yield to a thread by its number ends: it returns -2 and changes nothing where
-- there is no such thread, -3 where the thread is not runnable, and else runs that thread in a valid
-- scheduler.
pub yield-Yields :
    (s : Scheduler) (old_esp tid : ℕ)
    → IsValid s
    → tid < 2 ^ 31
    → (r : Exit × Scheduler) × (thr_yield s old_esp tid ≡ some r) × Yields s tid r
unfolding thr_yield scheduler_check_is_runnable context_switch_safe
yield-Yields s old_esp tid v small =
    let forward : is_neg (to_int tid) ≡ false = ground arith in
    elim (Option-cases (thread_at s.thr_pool tid)) [
      | inl away ↦ (
        (returns (neg 2), s),
        rw (forward, find_tcb-none s.thr_pool tid away) refl,
        (refl, inl (refl, away)),
      )
      | inr (a, at) ↦
          let ne = ((v.placed a).known (v.listed tid a at).1).1 in
          elim (Bool-cases (is_runnable (tcb_at s a).status)) [
            | inl ready ↦
                let held = runnable-held s tid a v at ready in
                let vl = interrupts-IsValid s (locked s).interrupts v in
                let (r, ran, valid, cur) =
                  switch_to-IsValid (locked s) old_esp tid a vl small at held in
                (
                  (restores r.0, unlocked r.1),
                  rw (forward, find_tcb-at s.thr_pool tid a at ne, ready)
                      (ap (λ o. switched (safe_of o)) ran),
                  (interrupts-IsValid r.1 (unlocked r.1).interrupts valid, at ∙ ap some (sym cur)),
                )
            | inr busy ↦ (
              (returns (neg 3), s),
              rw (forward, find_tcb-at s.thr_pool tid a at ne, busy) refl,
              (refl, inr (refl, (a, at, busy))),
            )
          ]
    ]
