-- ===== src/Scheduler/Turns.antt =====
-- A context switch picks a thread that may run, kern/dispatcher/dispatcher.c and
-- kern/scheduler/scheduler.c.
use custom_os_kernel.Base.{
  count, count-snoc, ℕ, ◌<◌, ◌≡◌, ◌≢◌, refl, ap, List, [], ◌∷◌, ◌++◌, arith, ◌==◌, Bool-cases, inl,
  inr, ◌⊎◌,
}
use custom_os_kernel.Tcb.{Tcb, Status, zombie, running, runnable, waiting, sleeping, uninit}
use custom_os_kernel.TcbPool.{TcbPool, put_tcb}
use custom_os_kernel.TcbPool.Lists.{time, Sorted-ext}
use custom_os_kernel.Scheduler.{Scheduler, tcb_at, set_tcb}
use custom_os_kernel.Scheduler.Switch.{scheduler_defer_current_tcb, deferred}
use custom_os_kernel.Scheduler.Inv.{Placed, IsValid, Current-map, can_run}
use custom_os_kernel.Scheduler.Wakeup.{with_pool}

deferred-can_run : (st : Status) → can_run (deferred st) ≡ can_run st
deferred-can_run uninit = refl
deferred-can_run runnable = refl
deferred-can_run waiting = refl
deferred-can_run zombie = refl
deferred-can_run running = refl
deferred-can_run sleeping = refl

deferred-ne_running : (st : Status) → deferred st ≢ running
deferred-ne_running uninit = cc
deferred-ne_running runnable = cc
deferred-ne_running waiting = cc
deferred-ne_running zombie = cc
deferred-ne_running running = cc
deferred-ne_running sleeping = cc

-- The current thread with its stack pointer saved.
abbrev pub saved : (old_esp : ℕ) → Tcb → Tcb
saved old_esp t = record t { tmp_k_stack = old_esp; status = deferred t.status }

saved-Placed :
    (p : TcbPool) (now a b old_esp : ℕ)
    → Placed p now b
    → Placed (put_tcb a (saved old_esp (p.tcbs a)) p) now b
saved-Placed p now a b old_esp pb = ground (arith, deferred-can_run (p.tcbs a).status)

-- Nobody runs in the runnable pool.
abbrev pub NoneRuns : Scheduler → Type 0
NoneRuns s = (a : ℕ) → 0 < count a s.thr_pool.runnable_pool → (tcb_at s a).status ≢ running

-- Deferring the current thread leaves nobody running.
pub defer-IsValid :
    (s : Scheduler) (old_esp : ℕ)
    → IsValid s
    → IsValid (scheduler_defer_current_tcb s old_esp)
      × NoneRuns (scheduler_defer_current_tcb s old_esp)
unfolding scheduler_defer_current_tcb
defer-IsValid s old_esp v =
    let p = s.thr_pool in
    let a = s.cur_tcb in
    elim (Bool-cases (a == 0)) [
      | inl gone ↦ rw gone (v, λ b h r. ground (arith, v.one_runs b h r, (v.placed b).known))
      | inr here ↦ rw here (
        record {
          placed = λ b. saved-Placed p s.num_ticks a b old_esp (v.placed b);
          listed = λ tid b found. ground (arith, v.listed tid b found);
          sorted = Sorted-ext (time p.tcbs) _ p.sleeping_pool (λ b h. ground arith) v.sorted;
          one_runs = λ b h r. ground (arith, v.one_runs b, deferred-ne_running (p.tcbs a).status);
          idle_apart = v.idle_apart;
          idle_there = v.idle_there;
          current = v.current;
        },
        λ b h r. ground (arith, v.one_runs b, deferred-ne_running (p.tcbs a).status),
      )
    ]

abbrev pub queued : List ℕ → Scheduler → Scheduler
queued xs s = with_pool (record s.thr_pool { runnable_pool = xs }) s

-- The order of the runnable pool does not matter for the invariant.
pub rotated-IsValid :
    (s : Scheduler) (a : ℕ) (rest : List ℕ)
    → IsValid s
    → NoneRuns s
    → s.thr_pool.runnable_pool ≡ a ∷ rest
    → IsValid (queued (rest ++ (a ∷ [])) s) × NoneRuns (queued (rest ++ (a ∷ [])) s)
rotated-IsValid s a rest v quiet e =
    let p = s.thr_pool in
    let same : (b : ℕ) → count b (rest ++ (a ∷ [])) ≡ count b p.runnable_pool =
      λ b. ground (arith, count-snoc b rest a, ap (count b) e) in
    (
      record {
        placed = λ b. ground (arith, v.placed b, same b);
        listed = λ tid b found. ground (arith, v.listed tid b found, same b);
        sorted = v.sorted;
        one_runs = λ b h r. v.one_runs b (omega (arith, same b)) r;
        idle_apart = omega (arith, v.idle_apart, same s.idle_tcb);
        idle_there = v.idle_there;
        current = Current-map (λ alive. omega (arith, same s.cur_tcb, alive)) v.current;
      },
      λ b h r. quiet b (omega (arith, same b)) r,
    )

abbrev pub run : ℕ → Scheduler → Scheduler
run a s = record (set_tcb a (record (tcb_at s a) { status = running }) s) {
  cur_tcb = a;
  esp0 = (tcb_at s a).orig_k_stack;
  pdbr = (tcb_at s a).pcb;
}

-- A thread of the runnable pool, or the idle thread, is set to run.
pub run-IsValid :
    (s : Scheduler) (a : ℕ)
    → IsValid s
    → NoneRuns s
    → (0 < count a s.thr_pool.runnable_pool) ⊎ (a ≡ s.idle_tcb)
    → IsValid (run a s)
run-IsValid s a v quiet may =
    let p = s.thr_pool in
    record {
      placed = λ b. ground (arith, v.placed b, v.idle_apart);
      listed = λ tid b found. ground (arith, v.listed tid b found);
      sorted = Sorted-ext (time p.tcbs) _ p.sleeping_pool (λ b h. ground arith) v.sorted;
      one_runs = λ b h r. ground (arith, quiet b);
      idle_apart = v.idle_apart;
      idle_there = v.idle_there;
      current = elim may [ inl held ↦ inr (inr (omega arith)) | inr e ↦ inr (inl e) ];
    }
