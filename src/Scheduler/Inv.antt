-- ===== src/Scheduler/Inv.antt =====
-- Where each thread stands between two calls of kern/scheduler/scheduler.c.
use custom_os_kernel.Base.{
  count, ℕ, ◌+◌, ◌≤◌, ◌<◌, ◌≡◌, ◌≢◌, ◌⊎◌, inl, inr, Bool, true, false, some,
}
use custom_os_kernel.Tcb.{Status, zombie, running, runnable, waiting, sleeping, uninit}
use custom_os_kernel.TcbPool.{TcbPool}
use custom_os_kernel.TcbPool.Lists.{Sorted, time}
use custom_os_kernel.TcbPool.Tables.{thread_at}
use custom_os_kernel.Scheduler.{Scheduler, tcb_at}

-- In how many pools, and how often, a thread stands.
abbrev pub places : TcbPool → ℕ → ℕ
places p a =
    count a p.runnable_pool
    + count a p.waiting_pool
    + count a p.sleeping_pool
    + count a p.zombie_pool

-- A thread that was woken by the timer keeps the status of a sleeper until it runs.
abbrev pub can_run : Status → Bool
can_run runnable = true
can_run running = true
can_run sleeping = true
can_run uninit = false
can_run waiting = false
can_run zombie = false

-- The thread is in at most one pool, which its status fits, and the table knows it; a sleeper's time is
-- to come.
pub record Placed (p : TcbPool) (now a : ℕ) : Type 0 where
  pub once : places p a ≤ 1
  pub in_runnable : 0 < count a p.runnable_pool → can_run (p.tcbs a).status ≡ true
  pub in_waiting : 0 < count a p.waiting_pool → (p.tcbs a).status ≡ waiting
  pub in_sleeping :
      0 < count a p.sleeping_pool → ((p.tcbs a).status ≡ sleeping) × (now < (p.tcbs a).t_wakeup)
  pub in_zombie : 0 < count a p.zombie_pool → (p.tcbs a).status ≡ zombie
  pub known : 0 < places p a → (thread_at p (p.tcbs a).tid ≡ some a) × (a ≢ 0)

-- There is no current thread, or it is the idle thread, or one that has not ended.
abbrev pub Current : Scheduler → Type 0
Current s =
    (s.cur_tcb ≡ 0)
    ⊎ (s.cur_tcb ≡ s.idle_tcb)
    ⊎ (0
        < count s.cur_tcb s.thr_pool.runnable_pool
          + count s.cur_tcb s.thr_pool.waiting_pool
          + count s.cur_tcb s.thr_pool.sleeping_pool)

pub record IsValid (s : Scheduler) : Type 0 where
  pub placed : (a : ℕ) → Placed s.thr_pool s.num_ticks a
  pub listed :
      (tid a : ℕ)
      → thread_at s.thr_pool tid ≡ some a
      → ((tcb_at s a).tid ≡ tid) × (0 < places s.thr_pool a)
  pub sorted : Sorted (time s.thr_pool.tcbs) s.thr_pool.sleeping_pool
  pub one_runs :
      (a : ℕ) → 0 < count a s.thr_pool.runnable_pool → (tcb_at s a).status ≡ running → a ≡ s.cur_tcb
  pub idle_apart : places s.thr_pool s.idle_tcb ≡ 0
  pub idle_there : s.idle_tcb ≢ 0
  pub current : Current s

pub Current-map {ℓ} : {A B C D : Type ℓ} → (C → D) → A ⊎ (B ⊎ C) → A ⊎ (B ⊎ D)
Current-map f (inl a) = inl a
Current-map f (inr (inl b)) = inr (inl b)
Current-map f (inr (inr c)) = inr (inr (f c))
