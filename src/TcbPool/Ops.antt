-- ===== src/TcbPool/Ops.antt =====
-- The operations of kern/scheduler/tcb_pool.c.
use custom_os_kernel.Base.{
  ℕ, zero, suc, ◌+◌, Bool, true, false, Option, none, some, List, [], ◌∷◌, ◌++◌, if◌then◌else◌,
  ◌==◌, length,
}
use custom_os_kernel.Base.Int.{ℤ, pos, neg, is_neg}
use custom_os_kernel.CircBuf.{CircBuf}
use custom_os_kernel.HashTable.{ht_remove, note}
use custom_os_kernel.Semaphore.{sem_signal}
use custom_os_kernel.Tcb.{
  Status, uninit, runnable, waiting, zombie, running, sleeping, tcb_t_wakeup_cmp,
}
use custom_os_kernel.TcbPool.{TcbPool, put_tcb, unlink, link_sorted}
use custom_os_kernel.TcbPool.Tables.{thread_at, tcb_pool_find_tcb}

-- The order of two threads in the sleeping pool.
abbrev pub wakes_before : TcbPool → ℕ → ℕ → ℤ
wakes_before p a b = tcb_t_wakeup_cmp (p.tcbs a) (p.tcbs b)

unfoldable pub tcb_pool_make_sleeping : TcbPool → (tid : ℕ) → Option (ℤ × TcbPool)
tcb_pool_make_sleeping p tid = elim (thread_at p tid) [
  | none ↦ some (neg 2, p)
  | some a ↦ if a == 0 then some (neg 3, p) else elim (unlink a p.runnable_pool) [
    | none ↦ none
    | some (unlinked, pool) ↦
        if is_neg unlinked
        then some (neg 5, p)
        else elim (link_sorted (wakes_before p) a p.sleeping_pool) [
          | none ↦ none
          | some sleepers ↦
              some (pos 0, record p { runnable_pool = pool; sleeping_pool = sleepers })
        ]
  ]
]

abbrev pub is_waiting : Status → Bool
is_waiting waiting = true
is_waiting uninit = false
is_waiting runnable = false
is_waiting zombie = false
is_waiting running = false
is_waiting sleeping = false

abbrev pub is_runnable : Status → Bool
is_runnable runnable = true
is_runnable uninit = false
is_runnable waiting = false
is_runnable zombie = false
is_runnable running = false
is_runnable sleeping = false

unfoldable pub tcb_pool_make_waiting : TcbPool → (tid : ℕ) → Option (ℤ × TcbPool)
tcb_pool_make_waiting p tid = elim (thread_at p tid) [
  | none ↦ some (neg 2, p)
  | some a ↦
      if a == 0
      then some (neg 3, p)
      else if is_waiting (p.tcbs a).status
      then some (neg 4, p)
      else elim (unlink a p.runnable_pool) [
        | none ↦ none
        | some (unlinked, pool) ↦
            if is_neg unlinked
            then some (neg 5, p)
            else some (
              pos 0,
              record p { runnable_pool = pool; waiting_pool = p.waiting_pool ++ (a ∷ []) },
            )
      ]
]

-- The pool that `tcb_pool_make_runnable` takes a thread out of, by whether it waits.
abbrev pub left_pool : Bool → TcbPool → List ℕ
left_pool true p = p.waiting_pool
left_pool false p = p.sleeping_pool

abbrev pub leave : Bool → List ℕ → TcbPool → TcbPool
leave true pool p = record p { waiting_pool = pool }
leave false pool p = record p { sleeping_pool = pool }

unfoldable pub tcb_pool_make_runnable : TcbPool → (tid : ℕ) → Option (ℤ × TcbPool)
tcb_pool_make_runnable p tid = elim (thread_at p tid) [
  | none ↦ some (neg 2, p)
  | some a ↦
      if a == 0
      then some (neg 3, p)
      else if is_runnable (p.tcbs a).status
      then some (neg 4, p)
      else let waits = is_waiting (p.tcbs a).status in
        elim (unlink a (left_pool waits p)) [
          | none ↦ none
          | some (unlinked, pool) ↦
              if is_neg unlinked
              then some (neg 5, p)
              else some (
                pos 0,
                record (leave waits pool p) { runnable_pool = p.runnable_pool ++ (a ∷ []) },
              )
        ]
]

-- A round of the loop of `tcb_pool_wakeup` at the head of the sleeping pool; `next` is the rest of the
-- loop.
abbrev pub wakeup_round :
    (next : TcbPool → Option (ℤ × TcbPool))
    → TcbPool
    → (curr_time : ℕ) → List ℕ
    → Option (ℤ × TcbPool)
wakeup_round next p curr_time [] = some (pos 0, p)
wakeup_round next p curr_time (a ∷ rest) =
    if (p.tcbs a).t_wakeup == curr_time
    then elim (tcb_pool_make_runnable p (p.tcbs a).tid) [ none ↦ none | some (made, p') ↦ next p' ]
    else some (pos 0, p)

-- The loop, for at most as many rounds; `none` is also a run that does not end in them.
unfoldable pub wakeup_loop : (rounds : ℕ) → TcbPool → (curr_time : ℕ) → Option (ℤ × TcbPool)
wakeup_loop zero p curr_time = none
wakeup_loop (suc rounds) p curr_time =
    wakeup_round (λ p'. wakeup_loop rounds p' curr_time) p curr_time p.sleeping_pool

unfoldable pub tcb_pool_wakeup : TcbPool → (curr_time : ℕ) → Option (ℤ × TcbPool)
tcb_pool_wakeup p curr_time = wakeup_loop (length p.sleeping_pool + 1) p curr_time

-- The pool of a thread by its status, and the pool without one of its nodes.
abbrev pub pool_of : Status → TcbPool → Option (List ℕ)
pool_of runnable p = some p.runnable_pool
pool_of running p = some p.runnable_pool
pool_of waiting p = some p.waiting_pool
pool_of zombie p = some p.zombie_pool
pool_of sleeping p = none
pool_of uninit p = none

abbrev pub set_pool : Status → List ℕ → TcbPool → TcbPool
set_pool runnable pool p = record p { runnable_pool = pool }
set_pool running pool p = record p { runnable_pool = pool }
set_pool waiting pool p = record p { waiting_pool = pool }
set_pool zombie pool p = record p { zombie_pool = pool }
set_pool sleeping pool p = p
set_pool uninit pool p = p

-- The pool that `tcb_pool_make_zombie` takes a thread out of.
abbrev pub live_pool : Status → TcbPool → Option (List ℕ)
live_pool runnable p = some p.runnable_pool
live_pool running p = some p.runnable_pool
live_pool waiting p = some p.waiting_pool
live_pool zombie p = none
live_pool sleeping p = none
live_pool uninit p = none

-- The end of `tcb_pool_make_zombie`, after the signal to the reaper.
unfoldable pub end_thread : (a : ℕ) → TcbPool → Option (ℤ × TcbPool)
end_thread a p = elim (live_pool (p.tcbs a).status p) [
  | none ↦ some (neg 6, p)
  | some live ↦ elim (unlink a live) [
    | none ↦ none
    | some (unlinked, pool) ↦
        if is_neg unlinked
        then some (neg 5, p)
        else some (
          pos 0,
          put_tcb a (record (p.tcbs a) { status = zombie })
              (record (set_pool (p.tcbs a).status pool p) {
                zombie_pool = p.zombie_pool ++ (a ∷ []);
              }),
        )
  ]
]

-- What `thr_make_runnable` does to the pools, for the thread that a signal wakes; its status is dropped.
unfoldable pub made_runnable : (tid : ℕ) → (moved : ℤ) → TcbPool → TcbPool
made_runnable tid moved p = if is_neg moved then p else elim (tcb_pool_find_tcb p tid true).1 [
  | none ↦ p
  | some a ↦ put_tcb a (record (p.tcbs a) { status = runnable }) p
]

unfoldable pub wake_reaper : Option ℕ → TcbPool → Option TcbPool
wake_reaper none p = some p
wake_reaper (some tid) p = elim (tcb_pool_make_runnable p tid) [
  | none ↦ none
  | some (moved, q) ↦ some (made_runnable tid moved q)
]

-- The reaper is signalled, and made runnable where it waits, before the pool of the thread is known.
unfoldable pub tcb_pool_make_zombie : TcbPool → (tid : ℕ) → Option (ℤ × TcbPool)
tcb_pool_make_zombie p tid = elim (thread_at p tid) [
  | none ↦ some (neg 2, p)
  | some a ↦
      if a == 0
      then some (neg 3, p)
      else let (sem, woken) = sem_signal p.zombies_sem in
        elim (wake_reaper woken (record p { zombies_sem = sem })) [
          | none ↦ none
          | some q ↦ end_thread a q
        ]
]

unfoldable pub tcb_pool_remove_tcb :
    TcbPool → (tid : ℕ) → (addrs : Option CircBuf) → Option (ℤ × TcbPool × Option CircBuf)
tcb_pool_remove_tcb p tid addrs =
    let (removed, node, threads, addrs') = ht_remove (some p.threads) tid true addrs in
    elim node [
      | none ↦ some (neg 2, p, addrs')
      | some a ↦ elim threads [
        | none ↦ some (neg 2, p, addrs')
        | some table ↦
            let q = record p { threads = table } in
            if a == 0 then some (neg 3, q, addrs') else elim (pool_of (p.tcbs a).status q) [
              | none ↦ some (neg 4, q, addrs')
              | some held ↦ elim (unlink a held) [
                | none ↦ none
                | some (unlinked, pool) ↦
                    if is_neg unlinked
                    then some (neg 5, q, addrs')
                    else some (pos 0, set_pool (p.tcbs a).status pool q, note addrs' a)
              ]
            ]
      ]
    ]
