-- ===== src/Scheduler/Steps.antt =====
-- Whatever calls are made, each thread stays in one pool that fits its status: the calls of
-- kern/scheduler/scheduler.c that move threads.
use custom_os_kernel.Base.{
  count, count-snoc, ℕ, Bool, ◌+◌, ◌^◌, ◌<◌, ◌≡◌, ◌≢◌, inr, refl, true, false, some, arith, ◌==◌,
  leb,
}
use custom_os_kernel.Base.Int.{pos}
use custom_os_kernel.Tcb.{running, runnable, waiting}
use custom_os_kernel.TcbPool.{without}
use custom_os_kernel.TcbPool.Lists.{
  Sorted, time, count-without, count-inserted, Sorted-without, Sorted-ext, inserted-Sorted,
}
use custom_os_kernel.TcbPool.Moves.{make_waiting-held, make_sleeping-held}
use custom_os_kernel.Scheduler.{
  Scheduler, tcb_at, locked, unlocked, scheduler_deschedule_current,
  scheduler_deschedule_current_safe, scheduler_make_current_sleeping,
  scheduler_make_current_sleeping_safe,
}
use custom_os_kernel.Scheduler.Inv.{IsValid, Current-map}
use custom_os_kernel.Scheduler.Keeps.{
  with_status, woken, roused, descheduled, asleep, timed, woken-Placed, roused-Placed,
  descheduled-Placed, asleep-Placed, places-woken, places-roused, places-descheduled, places-asleep,
}

-- The current thread runs, and is not the idle one.
abbrev pub Runs : Scheduler → Type 0
Runs s =
    (s.cur_tcb ≢ 0)
    × ((tcb_at s s.cur_tcb).status ≡ running)
    × (0 < count s.cur_tcb s.thr_pool.runnable_pool)

module _ (s : Scheduler) (v : IsValid s) where
  -- A running thread that is descheduled leaves the runnable pool.
  pub deschedule-IsValid :
      Runs s
      → (s' : Scheduler) × (scheduler_deschedule_current_safe s ≡ some (pos 0, s')) × IsValid s'
  unfolding scheduler_deschedule_current scheduler_deschedule_current_safe
  deschedule-IsValid (ne, runs, held) =
      let p = s.thr_pool in
      let a = s.cur_tcb in
      let at = (v.placed a).known (omega arith) in
      let here : (a == 0) ≡ false = ground (arith, ne) in
      let moved = make_waiting-held p (tcb_at s a).tid a at.0 ne (rw runs refl) held in
      (
        record (unlocked (locked s)) { thr_pool = with_status a waiting (descheduled a p) },
        rw (here, moved) refl,
        record {
          placed = λ b. descheduled-Placed p s.num_ticks a b (v.placed a) (v.placed b) held;
          listed =
              λ tid b found. ground (arith, v.listed tid b found, places-descheduled p a b held);
          sorted = Sorted-ext (time p.tcbs) _ p.sleeping_pool (λ b h. ground arith) v.sorted;
          one_runs = λ b h r. ground (arith, v.one_runs b, count-without b a p.runnable_pool);
          idle_apart = omega (arith, v.idle_apart, places-descheduled p a s.idle_tcb held);
          idle_there = v.idle_there;
          current = inr (inr (ground (arith, count-snoc a p.waiting_pool a)));
        },
      )

  -- A thread that is made runnable, from the waiting or from the sleeping pool, comes last in the
  -- runnable pool.
  pub woken-IsValid :
      (a : ℕ) (i : Bool)
      → 0 < count a s.thr_pool.waiting_pool
      → IsValid
          (record s { thr_pool = with_status a runnable (woken a s.thr_pool); interrupts = i })
  woken-IsValid a i held =
      let p = s.thr_pool in
      record {
        placed = λ b. woken-Placed p s.num_ticks a b (v.placed a) (v.placed b) held;
        listed = λ tid' b found. ground (arith, v.listed tid' b found, places-woken p a b held);
        sorted = Sorted-ext (time p.tcbs) _ p.sleeping_pool (λ b h. ground arith) v.sorted;
        one_runs = λ b h r. ground (arith, v.one_runs b, count-snoc b p.runnable_pool a);
        idle_apart = omega (arith, v.idle_apart, places-woken p a s.idle_tcb held);
        idle_there = v.idle_there;
        current =
            Current-map
              (λ alive. omega (
                arith,
                count-snoc s.cur_tcb p.runnable_pool a,
                count-without s.cur_tcb a p.waiting_pool held,
                alive,
              ))
              v.current;
      }

  pub roused-IsValid :
      (a : ℕ) (i : Bool)
      → 0 < count a s.thr_pool.sleeping_pool
      → IsValid
          (record s { thr_pool = with_status a runnable (roused a s.thr_pool); interrupts = i })
  roused-IsValid a i held =
      let p = s.thr_pool in
      record {
        placed = λ b. roused-Placed p s.num_ticks a b (v.placed a) (v.placed b) held;
        listed = λ tid' b found. ground (arith, v.listed tid' b found, places-roused p a b held);
        sorted =
            Sorted-ext (time p.tcbs) _ (without a p.sleeping_pool) (λ b h. ground arith)
              (Sorted-without (time p.tcbs) a p.sleeping_pool v.sorted);
        one_runs = λ b h r. ground (arith, v.one_runs b, count-snoc b p.runnable_pool a);
        idle_apart = omega (arith, v.idle_apart, places-roused p a s.idle_tcb held);
        idle_there = v.idle_there;
        current =
            Current-map
              (λ alive. omega (
                arith,
                count-snoc s.cur_tcb p.runnable_pool a,
                count-without s.cur_tcb a p.sleeping_pool held,
                alive,
              ))
              v.current;
      }

  -- A running thread that sleeps for some ticks leaves the runnable pool.
  pub sleep-IsValid :
      Runs s
      → (ticks : ℕ) → 0 < ticks
      → s.num_ticks + ticks < 2 ^ 31
      → (s' : Scheduler) × (scheduler_make_current_sleeping_safe s (pos ticks) ≡ some (pos 0, s'))
        × IsValid s'
  unfolding scheduler_make_current_sleeping scheduler_make_current_sleeping_safe
  sleep-IsValid (ne, runs, held) ticks some_ticks fits =
      let a = s.cur_tcb in
      let w = s.num_ticks + ticks in
      let p = s.thr_pool in
      let q = timed a w p in
      let here : (a == 0) ≡ false = ground (arith, ne) in
      let positive : (ticks == 0) ≡ false = ground arith in
      let room : leb (2 ^ 31) w ≡ false = ground arith in
      let itself : (a == a) ≡ true = ground arith in
      let at = (v.placed a).known (omega arith) in
      let away : count a p.sleeping_pool ≡ 0 = omega (arith, (v.placed a).once) in
      let in_order : Sorted (time q.tcbs) p.sleeping_pool =
        Sorted-ext (time p.tcbs) (time q.tcbs) p.sleeping_pool (λ b h. ground arith) v.sorted in
      let moved = make_sleeping-held q (tcb_at s a).tid a at.0 ne held in_order in
      (
        record (unlocked (locked s)) { thr_pool = asleep a q },
        rw (here, positive, room, runs, itself, moved) refl,
        record {
          placed =
              λ b. asleep-Placed p s.num_ticks a b (v.placed a) (v.placed b) w (omega arith) held;
          listed = λ tid b found. ground (arith, v.listed tid b found, places-asleep q a b held);
          sorted = inserted-Sorted (time q.tcbs) a p.sleeping_pool in_order;
          one_runs = λ b h r. ground (arith, v.one_runs b, count-without b a p.runnable_pool);
          idle_apart = omega (arith, v.idle_apart, places-asleep q a s.idle_tcb held);
          idle_there = v.idle_there;
          current = inr (inr (ground (arith, count-inserted (time q.tcbs) a a p.sleeping_pool)));
        },
      )
