-- ===== src/TcbPool/Moves.antt =====
-- What a move of kern/scheduler/tcb_pool.c does to a thread that its pool holds.
use custom_os_kernel.Base.{
  count, ℕ, ◌<◌, ◌≡◌, ◌≢◌, refl, true, false, none, some, [], ◌∷◌, ◌++◌, arith, ◌==◌,
}
use custom_os_kernel.Base.Int.{pos, neg}
use custom_os_kernel.Semaphore.{sem_signal}
use custom_os_kernel.Tcb.{zombie, running, runnable, waiting, sleeping}
use custom_os_kernel.TcbPool.{TcbPool, without, put_tcb}
use custom_os_kernel.TcbPool.Lists.{Sorted, time, inserted, link_sorted-inserted, unlink-held}
use custom_os_kernel.TcbPool.Ops.{
  is_waiting, tcb_pool_make_waiting, tcb_pool_make_sleeping, tcb_pool_make_runnable,
  tcb_pool_make_zombie, end_thread, wake_reaper, made_runnable,
}
use custom_os_kernel.TcbPool.Tables.{thread_at, tcb_pool_find_tcb}

module _ (p : TcbPool) (tid a : ℕ) (at : thread_at p tid ≡ some a) (ne : a ≢ 0) where
  ne_null : (a == 0) ≡ false
  ne_null = ground (arith, ne)

  pub find_tcb-at : tcb_pool_find_tcb p tid true ≡ (pos 0, some a)
  unfolding tcb_pool_find_tcb
  find_tcb-at = rw (at, ne_null) refl

  pub make_waiting-held :
      is_waiting (p.tcbs a).status ≡ false
      → 0 < count a p.runnable_pool
      → tcb_pool_make_waiting p tid
        ≡ some (
          pos 0,
          record p {
            runnable_pool = without a p.runnable_pool;
            waiting_pool = p.waiting_pool ++ (a ∷ []);
          },
        )
  unfolding tcb_pool_make_waiting
  make_waiting-held active held =
      rw (at, tcb_pool_make_waiting) (rw (ne_null, active, unlink-held a p.runnable_pool held) refl)

  pub make_sleeping-held :
      0 < count a p.runnable_pool
      → Sorted (time p.tcbs) p.sleeping_pool
      → tcb_pool_make_sleeping p tid
        ≡ some (
          pos 0,
          record p {
            runnable_pool = without a p.runnable_pool;
            sleeping_pool = inserted (time p.tcbs) a p.sleeping_pool;
          },
        )
  unfolding tcb_pool_make_sleeping
  make_sleeping-held held sorted =
      rw (at, tcb_pool_make_sleeping)
        (rw
          (
            ne_null,
            unlink-held a p.runnable_pool held,
            link_sorted-inserted p.tcbs a p.sleeping_pool sorted,
          )
          refl)

  pub make_runnable-waits :
      (p.tcbs a).status ≡ waiting
      → 0 < count a p.waiting_pool
      → tcb_pool_make_runnable p tid
        ≡ some (
          pos 0,
          record p {
            waiting_pool = without a p.waiting_pool;
            runnable_pool = p.runnable_pool ++ (a ∷ []);
          },
        )
  unfolding tcb_pool_make_runnable
  make_runnable-waits waits held =
      rw (at, tcb_pool_make_runnable)
        (rw (ne_null, waits, unlink-held a p.waiting_pool held) (rw waits refl))

  pub make_runnable-sleeps :
      (p.tcbs a).status ≡ sleeping
      → 0 < count a p.sleeping_pool
      → tcb_pool_make_runnable p tid
        ≡ some (
          pos 0,
          record p {
            sleeping_pool = without a p.sleeping_pool;
            runnable_pool = p.runnable_pool ++ (a ∷ []);
          },
        )
  unfolding tcb_pool_make_runnable
  make_runnable-sleeps sleeps held =
      rw (at, tcb_pool_make_runnable)
        (rw (ne_null, sleeps, unlink-held a p.sleeping_pool held) (rw sleeps refl))

  pub end_thread-held :
      (p.tcbs a).status ≡ running
      → 0 < count a p.runnable_pool
      → end_thread a p
        ≡ some (
          pos 0,
          put_tcb a
              (record (p.tcbs a) { status = zombie })
              (record p {
                runnable_pool = without a p.runnable_pool;
                zombie_pool = p.zombie_pool ++ (a ∷ []);
              }),
        )
  unfolding end_thread
  end_thread-held runs held =
      rw (runs, end_thread) (rw (unlink-held a p.runnable_pool held) (rw runs refl))

  pub make_zombie-woken :
      {p' : TcbPool}
      → wake_reaper
          (sem_signal p.zombies_sem).1
          (record p { zombies_sem = (sem_signal p.zombies_sem).0 })
        ≡ some p'
      → tcb_pool_make_zombie p tid ≡ end_thread a p'
  unfolding tcb_pool_make_zombie
  make_zombie-woken woken = rw (at, tcb_pool_make_zombie) (rw (ne_null, woken) refl)

  pub make_runnable-runnable :
      (p.tcbs a).status ≡ runnable → tcb_pool_make_runnable p tid ≡ some (neg 4, p)
  unfolding tcb_pool_make_runnable
  make_runnable-runnable ready = rw (at, tcb_pool_make_runnable) (rw (ne_null, ready) refl)

pub make_runnable-missing :
    (p : TcbPool) (tid : ℕ)
    → thread_at p tid ≡ none
    → tcb_pool_make_runnable p tid ≡ some (neg 2, p)
unfolding tcb_pool_make_runnable
make_runnable-missing p tid at = rw (at, tcb_pool_make_runnable) refl

-- What the wake-up of the thread does where it waits, sleeps, or is runnable already.
pub wake_reaper-waits :
    (p : TcbPool) (tid a : ℕ)
    → thread_at p tid ≡ some a
    → a ≢ 0
    → (p.tcbs a).status ≡ waiting
    → 0 < count a p.waiting_pool
    → wake_reaper (some tid) p
      ≡ some (
          put_tcb a
            (record (p.tcbs a) { status = runnable })
            (record p {
              waiting_pool = without a p.waiting_pool;
              runnable_pool = p.runnable_pool ++ (a ∷ []);
            }))
unfolding wake_reaper made_runnable
wake_reaper-waits p tid a at ne waits held =
    rw (make_runnable-waits p tid a at ne waits held, wake_reaper)
      (rw
        (find_tcb-at
          (record p {
            waiting_pool = without a p.waiting_pool;
            runnable_pool = p.runnable_pool ++ (a ∷ []);
          })
          tid a at ne)
        refl)

pub wake_reaper-sleeps :
    (p : TcbPool) (tid a : ℕ)
    → thread_at p tid ≡ some a
    → a ≢ 0
    → (p.tcbs a).status ≡ sleeping
    → 0 < count a p.sleeping_pool
    → wake_reaper (some tid) p
      ≡ some (
          put_tcb a
            (record (p.tcbs a) { status = runnable })
            (record p {
              sleeping_pool = without a p.sleeping_pool;
              runnable_pool = p.runnable_pool ++ (a ∷ []);
            }))
unfolding wake_reaper made_runnable
wake_reaper-sleeps p tid a at ne sleeps held =
    rw (make_runnable-sleeps p tid a at ne sleeps held, wake_reaper)
      (rw
        (find_tcb-at
          (record p {
            sleeping_pool = without a p.sleeping_pool;
            runnable_pool = p.runnable_pool ++ (a ∷ []);
          })
          tid a at ne)
        refl)
