-- ===== src/Scheduler/Reaper.antt =====
-- Threads that are made runnable, and the end of a thread, which wakes the reaper:
-- kern/scheduler/scheduler.c.
use custom_os_kernel.Base.{
  count, count-snoc, ℕ, suc, ◌+◌, ◌<◌, ◌≡◌, ◌≢◌, ◌⊎◌, inl, inr, refl, ap, subst, ◌∙◌, [], ◌∷◌, ◌++◌,
  false, Bool, Option, none, some, arith, ◌==◌,
}
use native.Mathlib.Decide.{dec_lt}
use custom_os_kernel.Base.Int.{ℤ, pos, neg}
use custom_os_kernel.Semaphore.{Semaphore, sem_signal}
use custom_os_kernel.Tcb.{zombie, runnable}
use custom_os_kernel.TcbPool.{TcbPool}
use custom_os_kernel.TcbPool.Lists.{time, Sorted-ext, count-without}
use custom_os_kernel.TcbPool.Ops.{made_runnable, wake_reaper, tcb_pool_make_runnable}
use custom_os_kernel.TcbPool.Tables.{thread_at}
use custom_os_kernel.TcbPool.Moves.{
  find_tcb-at, make_runnable-waits, make_runnable-sleeps, make_runnable-runnable,
  make_runnable-missing, wake_reaper-waits, wake_reaper-sleeps, end_thread-held, make_zombie-woken,
}
use custom_os_kernel.Scheduler.{
  Scheduler, tcb_at, locked, unlocked, scheduler_make_runnable, scheduler_make_runnable_safe,
  scheduler_make_current_zombie, scheduler_make_current_zombie_safe,
}
use custom_os_kernel.Scheduler.Inv.{IsValid}
use custom_os_kernel.Scheduler.Keeps.{with_status, woken, roused, dead, dead-Placed, places-dead}
use custom_os_kernel.Scheduler.Steps.{Runs, woken-IsValid, roused-IsValid}

-- The number names no thread, or one that is runnable, waits or is in the sleeping pool.
abbrev pub Wakeable : TcbPool → ℕ → Type 0
Wakeable p tid =
    (thread_at p tid ≡ none)
    ⊎ ((a : ℕ) × (thread_at p tid ≡ some a)
        × (((p.tcbs a).status ≡ runnable) ⊎ (0 < count a p.waiting_pool + count a p.sleeping_pool)))

-- So for the thread that a signal wakes, if any.
abbrev pub WakesWell : Option ℕ → TcbPool → Type 0
WakesWell none p = Unit
WakesWell (some tid) p = Wakeable p tid

-- The lock of the scheduler and the semaphore of the reaper are of no concern to the invariant.
interrupts-IsValid : (s : Scheduler) (i : Bool) → IsValid s → IsValid (record s { interrupts = i })
interrupts-IsValid s i v = record {
  placed = v.placed;
  listed = v.listed;
  sorted = v.sorted;
  one_runs = v.one_runs;
  idle_apart = v.idle_apart;
  idle_there = v.idle_there;
  current = v.current;
}

abbrev with_sem : Semaphore → Scheduler → Scheduler
with_sem sem s = record s { thr_pool = record s.thr_pool { zombies_sem = sem } }

sem-IsValid : (s : Scheduler) (sem : Semaphore) → IsValid s → IsValid (with_sem sem s)
sem-IsValid s sem v = record {
  placed = λ b.
      let q = v.placed b in
      record {
        once = q.once;
        in_runnable = q.in_runnable;
        in_waiting = q.in_waiting;
        in_sleeping = q.in_sleeping;
        in_zombie = q.in_zombie;
        known = q.known;
      };
  listed = v.listed;
  sorted = v.sorted;
  one_runs = v.one_runs;
  idle_apart = v.idle_apart;
  idle_there = v.idle_there;
  current = v.current;
}

module _ (s : Scheduler) (v : IsValid s) where
  idle-IsValid :
      (tid a : ℕ)
      → thread_at s.thr_pool tid ≡ some a
      → 0 < count a s.thr_pool.waiting_pool + count a s.thr_pool.sleeping_pool
      → (s' : Scheduler) × (scheduler_make_runnable_safe s tid ≡ some (pos 0, s')) × IsValid s'
  unfolding scheduler_make_runnable scheduler_make_runnable_safe
  idle-IsValid tid a at idle =
      let p = s.thr_pool in
      let i = (unlocked (locked s)).interrupts in
      let ne = ((v.placed a).known (omega arith)).1 in
      elim (dec_lt 0 (count a p.waiting_pool)) [
        | yes held ↦
            let moved = make_runnable-waits p tid a at ne ((v.placed a).in_waiting held) held in
            (
              record s { thr_pool = with_status a runnable (woken a p); interrupts = i },
              rw (moved, scheduler_make_runnable) (rw (find_tcb-at (woken a p) tid a at ne) refl),
              woken-IsValid s v a i held,
            )
        | no other ↦
            let held : 0 < count a p.sleeping_pool = omega arith in
            let moved = make_runnable-sleeps p tid a at ne ((v.placed a).in_sleeping held).0 held in
            (
              record s { thr_pool = with_status a runnable (roused a p); interrupts = i },
              rw (moved, scheduler_make_runnable) (rw (find_tcb-at (roused a p) tid a at ne) refl),
              roused-IsValid s v a i held,
            )
      ]

  refused-IsValid :
      (tid k : ℕ)
      → tcb_pool_make_runnable s.thr_pool tid ≡ some (neg (suc k), s.thr_pool)
      → (s' : Scheduler) × (scheduler_make_runnable_safe s tid ≡ some (neg 2, s')) × IsValid s'
  unfolding scheduler_make_runnable scheduler_make_runnable_safe
  refused-IsValid tid k moved = (
    unlocked (locked s),
    rw (moved, scheduler_make_runnable) refl,
    interrupts-IsValid s (unlocked (locked s)).interrupts v,
  )

  runnable-ne : (a tid : ℕ) → thread_at s.thr_pool tid ≡ some a → a ≢ 0
  runnable-ne a tid at = ((v.placed a).known (v.listed tid a at).1).1

  -- A call on a number that names no thread, or a runnable one, is refused; a thread that waits or
  -- sleeps is moved.
  pub make_runnable-IsValid :
      (tid : ℕ)
      → Wakeable s.thr_pool tid
      → (r : ℤ × Scheduler) × (scheduler_make_runnable_safe s tid ≡ some r) × IsValid r.1
  make_runnable-IsValid tid (inl missing) =
      let (s', ran, valid) = refused-IsValid tid 1 (make_runnable-missing s.thr_pool tid missing) in
      ((neg 2, s'), ran, valid)
  make_runnable-IsValid tid (inr (a, at, inl ready)) =
      let ne = runnable-ne a tid at in
      let (s', ran, valid) =
        refused-IsValid tid 3 (make_runnable-runnable s.thr_pool tid a at ne ready) in
      ((neg 2, s'), ran, valid)
  make_runnable-IsValid tid (inr (a, at, inr idle)) =
      let (s', ran, valid) = idle-IsValid tid a at idle in ((pos 0, s'), ran, valid)

  -- A running thread that ends goes to the zombie pool, and there is no current thread.
  ended-IsValid :
      Runs s
      → (i : Bool)
      → IsValid (record s {
        thr_pool = with_status s.cur_tcb zombie (dead s.cur_tcb s.thr_pool.zombies_sem s.thr_pool);
        cur_tcb = 0;
        interrupts = i;
      })
  ended-IsValid (ne, runs, held) i =
      let a = s.cur_tcb in
      let p = s.thr_pool in
      let sem = p.zombies_sem in
      record {
        placed = λ b. dead-Placed p s.num_ticks a b (v.placed a) (v.placed b) sem held;
        listed = λ tid b found. ground (arith, v.listed tid b found, places-dead p a b sem held);
        sorted = Sorted-ext (time p.tcbs) _ p.sleeping_pool (λ b h. ground arith) v.sorted;
        one_runs = λ b h r. ground (arith, v.one_runs b, count-without b a p.runnable_pool);
        idle_apart = omega (arith, v.idle_apart, places-dead p a s.idle_tcb sem held);
        idle_there = v.idle_there;
        current = inl refl;
      }

module _ (s : Scheduler) (v : IsValid s) where
  -- What is left of the invariant after the wake-up, with the current thread running as before.
  abbrev Woken : TcbPool → Type 0
  Woken p = IsValid (record s { thr_pool = p }) × Runs (record s { thr_pool = p })

  waked-Runs :
      (a : ℕ)
      → Runs s
      → 0 < count a s.thr_pool.waiting_pool + count a s.thr_pool.sleeping_pool
      → ((with_status a runnable (woken a s.thr_pool)).tcbs s.cur_tcb ≡ tcb_at s s.cur_tcb)
        × (0 < count s.cur_tcb (s.thr_pool.runnable_pool ++ (a ∷ [])))
  waked-Runs a (ne, runs, held) idle =
      let apart : s.cur_tcb ≢ a = λ e. omega (
        arith,
        subst (λ b. 0 < count b s.thr_pool.runnable_pool) e held,
        idle,
        (v.placed a).once,
      ) in
      (ground (arith, apart), omega (arith, held, count-snoc s.cur_tcb s.thr_pool.runnable_pool a))

  idle-Woken :
      (tid a : ℕ)
      → Runs s
      → thread_at s.thr_pool tid ≡ some a
      → 0 < count a s.thr_pool.waiting_pool + count a s.thr_pool.sleeping_pool
      → (p : TcbPool) × (wake_reaper (some tid) s.thr_pool ≡ some p) × Woken p
  idle-Woken tid a r at idle =
      let p = s.thr_pool in
      let ne = runnable-ne s v a tid at in
      let (same, there) = waked-Runs a r idle in
      elim (dec_lt 0 (count a p.waiting_pool)) [
        | yes held ↦ (
          with_status a runnable (woken a p),
          wake_reaper-waits p tid a at ne ((v.placed a).in_waiting held) held,
          (woken-IsValid s v a s.interrupts held, (r.0, ap (λ t. t.status) same ∙ r.1, there)),
        )
        | no other ↦
            let held : 0 < count a p.sleeping_pool = omega arith in
            (
              with_status a runnable (roused a p),
              wake_reaper-sleeps p tid a at ne ((v.placed a).in_sleeping held).0 held,
              (roused-IsValid s v a s.interrupts held, (r.0, ap (λ t. t.status) same ∙ r.1, there)),
            )
      ]

  refused-Woken :
      (tid k : ℕ)
      → Runs s
      → tcb_pool_make_runnable s.thr_pool tid ≡ some (neg (suc k), s.thr_pool)
      → (p : TcbPool) × (wake_reaper (some tid) s.thr_pool ≡ some p) × Woken p
  unfolding wake_reaper made_runnable
  refused-Woken tid k r moved = (s.thr_pool, rw (moved, wake_reaper) refl, (v, r))

  wake_reaper-Woken :
      (tid : Option ℕ)
      → Runs s
      → WakesWell tid s.thr_pool
      → (p : TcbPool) × (wake_reaper tid s.thr_pool ≡ some p) × Woken p
  unfolding wake_reaper
  wake_reaper-Woken none r well = (s.thr_pool, refl, (v, r))
  wake_reaper-Woken (some tid) r (inl missing) =
      refused-Woken tid 1 r (make_runnable-missing s.thr_pool tid missing)
  wake_reaper-Woken (some tid) r (inr (a, at, inl ready)) =
      refused-Woken tid 3 r
        (make_runnable-runnable s.thr_pool tid a at (runnable-ne s v a tid at) ready)
  wake_reaper-Woken (some tid) r (inr (a, at, inr idle)) = idle-Woken tid a r at idle

WakesWell-sem :
    (s : Scheduler) (sem : Semaphore) (tid : Option ℕ)
    → WakesWell tid s.thr_pool
    → WakesWell tid (with_sem sem s).thr_pool
WakesWell-sem s sem none well = well
WakesWell-sem s sem (some tid) well = well

-- So the current thread ends, after the thread that waits for zombies was made runnable.
pub zombie-IsValid :
    (s : Scheduler)
    → IsValid s
    → Runs s
    → WakesWell (sem_signal s.thr_pool.zombies_sem).1 s.thr_pool
    → (s' : Scheduler) × (scheduler_make_current_zombie_safe s ≡ some (pos 0, s')) × IsValid s'
unfolding scheduler_make_current_zombie scheduler_make_current_zombie_safe
zombie-IsValid s v r well =
    let s0 = with_sem (sem_signal s.thr_pool.zombies_sem).0 s in
    let (p, woke, (valid, runs)) =
      wake_reaper-Woken s0 (sem-IsValid s (sem_signal s.thr_pool.zombies_sem).0 v)
        (sem_signal s.thr_pool.zombies_sem).1 r (WakesWell-sem s _ _ well) in
    let s1 = record s { thr_pool = p } in
    let i = (unlocked (locked s)).interrupts in
    let here : (s.cur_tcb == 0) ≡ false = ground (arith, r.0) in
    let at = (v.placed s.cur_tcb).known (omega (arith, r.2)) in
    let moved =
      make_zombie-woken s.thr_pool (tcb_at s s.cur_tcb).tid s.cur_tcb at.0 at.1 woke
      ∙ end_thread-held p (p.tcbs s.cur_tcb).tid s.cur_tcb
          ((valid.placed s.cur_tcb).known (omega (arith, runs.2))).0 r.0 runs.1 runs.2 in
    (
      record s1 {
        thr_pool = with_status s.cur_tcb zombie (dead s.cur_tcb p.zombies_sem p);
        cur_tcb = 0;
        interrupts = i;
      },
      rw (here, moved) refl,
      ended-IsValid s1 valid runs i,
    )
