-- ===== src/Scheduler/Keeps.antt =====
-- The moves of threads between pools keep each thread in its place, kern/scheduler/scheduler.c.
use custom_os_kernel.Base.{count, count-snoc, ℕ, ◌<◌, ◌≡◌, true, [], ◌∷◌, ◌++◌, arith}
use custom_os_kernel.Semaphore.{Semaphore}
use custom_os_kernel.Tcb.{Tcb, Status, zombie, runnable, waiting, sleeping}
use custom_os_kernel.TcbPool.{TcbPool, without, put_tcb}
use custom_os_kernel.TcbPool.Lists.{time, inserted, count-without, count-inserted}
use custom_os_kernel.Scheduler.Inv.{Placed, places, can_run}

abbrev pub with_status : ℕ → Status → TcbPool → TcbPool
with_status a st p = put_tcb a (record (p.tcbs a) { status = st }) p

-- From the waiting pool, or from the sleeping pool, to the runnable one.
abbrev pub woken : ℕ → TcbPool → TcbPool
woken a p = record p {
  waiting_pool = without a p.waiting_pool;
  runnable_pool = p.runnable_pool ++ (a ∷ []);
}

abbrev pub roused : ℕ → TcbPool → TcbPool
roused a p = record p {
  sleeping_pool = without a p.sleeping_pool;
  runnable_pool = p.runnable_pool ++ (a ∷ []);
}

abbrev pub descheduled : ℕ → TcbPool → TcbPool
descheduled a p = record p {
  runnable_pool = without a p.runnable_pool;
  waiting_pool = p.waiting_pool ++ (a ∷ []);
}

-- To the sleeping pool, by the time that the thread has.
abbrev pub asleep : ℕ → TcbPool → TcbPool
asleep a p = record p {
  runnable_pool = without a p.runnable_pool;
  sleeping_pool = inserted (time p.tcbs) a p.sleeping_pool;
}

abbrev pub timed : ℕ → ℕ → TcbPool → TcbPool
timed a w p = put_tcb a (record (p.tcbs a) { status = sleeping; t_wakeup = w }) p

abbrev pub dead : ℕ → Semaphore → TcbPool → TcbPool
dead a sem p = record p {
  zombies_sem = sem;
  runnable_pool = without a p.runnable_pool;
  zombie_pool = p.zombie_pool ++ (a ∷ []);
}

module _ (p : TcbPool) (now a b : ℕ) (pa : Placed p now a) (pb : Placed p now b) where
  pub woken-Placed : 0 < count a p.waiting_pool → Placed (with_status a runnable (woken a p)) now b
  woken-Placed held =
      ground (arith, count-without b a p.waiting_pool, count-snoc b p.runnable_pool a)

  pub roused-Placed :
      0 < count a p.sleeping_pool → Placed (with_status a runnable (roused a p)) now b
  roused-Placed held =
      ground (arith, count-without b a p.sleeping_pool, count-snoc b p.runnable_pool a)

  -- The timer leaves the status alone.
  pub timer-Placed : 0 < count a p.sleeping_pool → Placed (roused a p) now b
  timer-Placed held =
      ground (arith, count-without b a p.sleeping_pool, count-snoc b p.runnable_pool a)

  pub descheduled-Placed :
      0 < count a p.runnable_pool → Placed (with_status a waiting (descheduled a p)) now b
  descheduled-Placed held =
      ground (arith, count-without b a p.runnable_pool, count-snoc b p.waiting_pool a)

  pub asleep-Placed :
      (w : ℕ) → now < w → 0 < count a p.runnable_pool → Placed (asleep a (timed a w p)) now b
  asleep-Placed w later held = ground (
    arith,
    count-without b a p.runnable_pool,
    count-inserted (time (timed a w p).tcbs) a b p.sleeping_pool,
  )

  pub dead-Placed :
      (sem : Semaphore)
      → 0 < count a p.runnable_pool
      → Placed (with_status a zombie (dead a sem p)) now b
  dead-Placed sem held =
      ground (arith, count-without b a p.runnable_pool, count-snoc b p.zombie_pool a)

  -- A thread that may run changes its status to another that may.
  pub status-Placed :
      (st : Status)
      → can_run st ≡ true
      → 0 < count a p.runnable_pool
      → Placed (with_status a st p) now b
  status-Placed st may held = ground arith

  -- So does a thread that is in no pool.
  pub away-Placed : (t : Tcb) → places p a ≡ 0 → Placed (put_tcb a t p) now b
  away-Placed t away = ground arith

-- No move changes in how many pools a thread is.
module _ (p : TcbPool) (a b : ℕ) where
  pub places-woken : 0 < count a p.waiting_pool → places (woken a p) b ≡ places p b
  places-woken held =
      omega (arith, count-without b a p.waiting_pool held, count-snoc b p.runnable_pool a)

  pub places-roused : 0 < count a p.sleeping_pool → places (roused a p) b ≡ places p b
  places-roused held =
      omega (arith, count-without b a p.sleeping_pool held, count-snoc b p.runnable_pool a)

  pub places-descheduled : 0 < count a p.runnable_pool → places (descheduled a p) b ≡ places p b
  places-descheduled held =
      omega (arith, count-without b a p.runnable_pool held, count-snoc b p.waiting_pool a)

  pub places-asleep : 0 < count a p.runnable_pool → places (asleep a p) b ≡ places p b
  places-asleep held = omega (
    arith,
    count-without b a p.runnable_pool held,
    count-inserted (time p.tcbs) a b p.sleeping_pool,
  )

  pub places-dead :
      (sem : Semaphore) → 0 < count a p.runnable_pool → places (dead a sem p) b ≡ places p b
  places-dead sem held =
      omega (arith, count-without b a p.runnable_pool held, count-snoc b p.zombie_pool a)
