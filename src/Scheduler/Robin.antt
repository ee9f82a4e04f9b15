-- ===== src/Scheduler/Robin.antt =====
-- The runnable pool is served in turn, and the calls that switch threads keep the invariant.
use custom_os_kernel.Base.{
  count, ℕ, suc, ◌+◌, ◌-◌, ◌%◌, ◌^◌, ◌<◌, ◌≡◌, ◌≢◌, refl, ap, ◌∙◌, true, false, Option, none, some,
  List, [], ◌∷◌, ◌++◌, arith, ◌==◌, inl, inr,
}
use custom_os_kernel.Base.Int.{ℤ, pos, neg, is_neg, to_int}
use custom_os_kernel.Tcb.{running}
use custom_os_kernel.TcbPool.{TcbPool, rotate}
use custom_os_kernel.TcbPool.Tables.{thread_at, tcb_pool_get_next_tcb}
use custom_os_kernel.TcbPool.Moves.{find_tcb-at}
use custom_os_kernel.Scheduler.{Scheduler, tcb_at, scheduler_get_tcb_by_tid}
use custom_os_kernel.Scheduler.Switch.{
  scheduler_defer_current_tcb, scheduler_set_running_tcb, scheduler_get_next_tcb, context_switch,
  run_tcb, c_timer_handler, scheduler_wakeup,
}
use custom_os_kernel.Scheduler.Inv.{IsValid}
use custom_os_kernel.Scheduler.Wakeup.{with_pool, at_tick, wakeup-Awake}
use custom_os_kernel.Scheduler.Turns.{defer-IsValid, queued, rotated-IsValid, run, run-IsValid}

-- The first thread after a turn.
abbrev pub head_of : ℕ → List ℕ → ℕ
head_of a [] = a
head_of a (b ∷ rest) = b

-- What `scheduler_get_next_tcb` does by the result of the rotation.
abbrev next_of : Scheduler → ℤ × Option ℕ × TcbPool → ℤ × ℕ × Scheduler
next_of s t = elim t.1 [ none ↦ (pos 0, s.idle_tcb, s) | some a ↦ (pos 0, a, with_pool t.2 s) ]

abbrev picked : TcbPool → List ℕ → ℤ × Option ℕ × TcbPool
picked p [] = (neg 2, none, p)
picked p (a ∷ rest) = (pos 0, some a, record p { runnable_pool = a ∷ rest })

get_next-idle :
    (s : Scheduler)
    → s.thr_pool.runnable_pool ≡ []
    → scheduler_get_next_tcb s true ≡ (pos 0, s.idle_tcb, s)
unfolding scheduler_get_next_tcb tcb_pool_get_next_tcb
get_next-idle s e = ap (λ xs. next_of s (picked s.thr_pool (rotate xs).1)) e

get_next-head :
    (s : Scheduler) (a : ℕ) (rest : List ℕ)
    → s.thr_pool.runnable_pool ≡ a ∷ rest
    → scheduler_get_next_tcb s true ≡ (pos 0, head_of a rest, queued (rest ++ (a ∷ [])) s)
unfolding scheduler_get_next_tcb tcb_pool_get_next_tcb
get_next-head s a [] e = ap (λ xs. next_of s (picked s.thr_pool (rotate xs).1)) e
get_next-head s a (b ∷ rest) e = ap (λ xs. next_of s (picked s.thr_pool (rotate xs).1)) e

set_running-run :
    (s : Scheduler) (a : ℕ)
    → a ≢ 0
    → run_tcb (scheduler_set_running_tcb s a true) ≡ some ((tcb_at s a).tmp_k_stack, run a s)
unfolding scheduler_set_running_tcb
set_running-run s a ne = let there : (a == 0) ≡ false = ground (arith, ne) in rw there refl

-- A thread of the pool is not NULL.
in_pool-ne : (s : Scheduler) (a : ℕ) → IsValid s → 0 < count a s.thr_pool.runnable_pool → a ≢ 0
in_pool-ne s a v held = ((v.placed a).known (omega arith)).1

defer-runnable :
    (s : Scheduler) (old_esp : ℕ)
    → (scheduler_defer_current_tcb s old_esp).thr_pool.runnable_pool ≡ s.thr_pool.runnable_pool
unfolding scheduler_defer_current_tcb
defer-runnable s old_esp = ground arith

defer-num_ticks :
    (s : Scheduler) (old_esp : ℕ) → (scheduler_defer_current_tcb s old_esp).num_ticks ≡ s.num_ticks
unfolding scheduler_defer_current_tcb
defer-num_ticks s old_esp = ground arith

defer-thread_at :
    (s : Scheduler) (old_esp tid : ℕ)
    → thread_at (scheduler_defer_current_tcb s old_esp).thr_pool tid ≡ thread_at s.thr_pool tid
unfolding scheduler_defer_current_tcb
defer-thread_at s old_esp tid = ground arith

run-running : (s : Scheduler) (a : ℕ) → (tcb_at (run a s) a).status ≡ running
run-running s a = let itself : (a == a) ≡ true = ground arith in rw itself refl

head-held : (a : ℕ) (rest : List ℕ) → 0 < count (head_of a rest) (rest ++ (a ∷ []))
head-held a [] = ground arith
head-held a (b ∷ rest) = ground arith

-- A context switch that picks the thread itself gives the turn to the thread behind the first one.
abbrev pub Turned : Scheduler → ℕ × Scheduler → ℕ → List ℕ → Type 0
Turned s (new_esp, s') a rest =
    IsValid s'
    × (s'.cur_tcb ≡ head_of a rest)
    × (s'.thr_pool.runnable_pool ≡ rest ++ (a ∷ []))
    × ((tcb_at s' s'.cur_tcb).status ≡ running)
    × (s'.num_ticks ≡ s.num_ticks)

pub switch-Turned :
    (s : Scheduler) (old_esp a : ℕ) (rest : List ℕ)
    → IsValid s
    → s.thr_pool.runnable_pool ≡ a ∷ rest
    → (r : ℕ × Scheduler) × (context_switch s old_esp (2 ^ 32 - 1) ≡ some r) × Turned s r a rest
unfolding context_switch
switch-Turned s old_esp a rest v e =
    let q = scheduler_defer_current_tcb s old_esp in
    let (vq, quiet) = defer-IsValid s old_esp v in
    let eq : q.thr_pool.runnable_pool ≡ a ∷ rest = defer-runnable s old_esp ∙ e in
    let t = queued (rest ++ (a ∷ [])) q in
    let (vt, quiet') = rotated-IsValid q a rest vq quiet eq in
    let held : 0 < count (head_of a rest) t.thr_pool.runnable_pool = head-held a rest in
    (
      ((tcb_at t (head_of a rest)).tmp_k_stack, run (head_of a rest) t),
      ap (λ (x : ℤ × ℕ × Scheduler). run_tcb (scheduler_set_running_tcb x.2 x.1 true))
            (get_next-head q a rest eq)
          ∙ set_running-run t (head_of a rest) (in_pool-ne t (head_of a rest) vt held),
      (
        run-IsValid t (head_of a rest) vt quiet' (inl held),
        refl,
        refl,
        run-running t (head_of a rest),
        defer-num_ticks s old_esp,
      ),
    )

-- With an empty pool the idle thread runs.
switch_idle :
    (s : Scheduler) (old_esp : ℕ)
    → IsValid s
    → s.thr_pool.runnable_pool ≡ []
    → (r : ℕ × Scheduler) × (context_switch s old_esp (2 ^ 32 - 1) ≡ some r) × IsValid r.1
unfolding context_switch
switch_idle s old_esp v e =
    let q = scheduler_defer_current_tcb s old_esp in
    let (vq, quiet) = defer-IsValid s old_esp v in
    let eq : q.thr_pool.runnable_pool ≡ [] = defer-runnable s old_esp ∙ e in
    (
      ((tcb_at q q.idle_tcb).tmp_k_stack, run q.idle_tcb q),
      ap (λ (x : ℤ × ℕ × Scheduler). run_tcb (scheduler_set_running_tcb x.2 x.1 true))
            (get_next-idle q eq)
          ∙ set_running-run q q.idle_tcb vq.idle_there,
      run-IsValid q q.idle_tcb vq quiet (inr refl),
    )

-- A context switch that picks the thread itself keeps the invariant.
pub switch-IsValid :
    (s : Scheduler) (old_esp : ℕ)
    → IsValid s
    → (r : ℕ × Scheduler) × (context_switch s old_esp (2 ^ 32 - 1) ≡ some r) × IsValid r.1
switch-IsValid s old_esp v = go s.thr_pool.runnable_pool refl
  where
    go :
        (xs : List ℕ)
        → s.thr_pool.runnable_pool ≡ xs
        → (r : ℕ × Scheduler) × (context_switch s old_esp (2 ^ 32 - 1) ≡ some r) × IsValid r.1
    go [] e = switch_idle s old_esp v e
    go (a ∷ rest) e =
        let (r, ran, turned) = switch-Turned s old_esp a rest v e in (r, ran, turned.0)

-- A switch to a thread that is runnable keeps the invariant.
pub switch_to-IsValid :
    (s : Scheduler) (old_esp tid a : ℕ)
    → IsValid s
    → tid < 2 ^ 31
    → thread_at s.thr_pool tid ≡ some a
    → 0 < count a s.thr_pool.runnable_pool
    → (r : ℕ × Scheduler) × (context_switch s old_esp tid ≡ some r)
      × IsValid r.1
      × (r.1.cur_tcb ≡ a)
unfolding context_switch scheduler_get_tcb_by_tid
switch_to-IsValid s old_esp tid a v small at held =
    let q = scheduler_defer_current_tcb s old_esp in
    let (vq, quiet) = defer-IsValid s old_esp v in
    let ne = in_pool-ne s a v held in
    let at' : thread_at q.thr_pool tid ≡ some a = defer-thread_at s old_esp tid ∙ at in
    let forward : is_neg (to_int tid) ≡ false = ground arith in
    let held' : 0 < count a q.thr_pool.runnable_pool =
      omega (arith, ap (count a) (defer-runnable s old_esp), held) in
    (
      ((tcb_at q a).tmp_k_stack, run a q),
      rw (find_tcb-at q.thr_pool tid a at' ne) (rw forward (set_running-run q a ne)),
      run-IsValid q a vq quiet (inl held'),
      refl,
    )

abbrev after_wakeup : (old_esp : ℕ) → Option (ℤ × Scheduler) → Option (ℕ × Scheduler)
after_wakeup old_esp none = none
after_wakeup old_esp (some (status, s)) = context_switch s old_esp (2 ^ 32 - 1)

pub timer_lem :
    (s : Scheduler) (old_esp : ℕ) {u : Scheduler} {r : ℤ}
    → s.num_ticks + 1 < 2 ^ 31
    → scheduler_wakeup (at_tick (suc s.num_ticks) s) ≡ some (r, u)
    → c_timer_handler s old_esp ≡ context_switch u old_esp (2 ^ 32 - 1)
unfolding c_timer_handler
timer_lem s old_esp fits woke =
    let clock : (s.num_ticks + 1) % 2 ^ 32 ≡ suc s.num_ticks = omega arith in
    ap (λ n. after_wakeup old_esp (scheduler_wakeup (at_tick n s))) clock
    ∙ ap (after_wakeup old_esp) woke

-- A tick of the timer wakes the sleepers whose time has come and gives the turn to the thread behind
-- the first one.
pub timer-Turned :
    (s : Scheduler) (old_esp a : ℕ) (rest : List ℕ)
    → IsValid s
    → s.num_ticks + 1 < 2 ^ 31
    → s.thr_pool.runnable_pool ≡ a ∷ rest
    → (r : ℕ × Scheduler) × (woken : List ℕ) × (c_timer_handler s old_esp ≡ some r)
      × Turned (at_tick (suc s.num_ticks) s) r a (rest ++ woken)
timer-Turned s old_esp a rest v fits e =
    let (p', woke, (woken, order, valid, same)) = wakeup-Awake s v in
    let u = at_tick (suc s.num_ticks) (with_pool p' s) in
    let (r, ran, turned) =
      switch-Turned u old_esp a (rest ++ woken) valid (order ∙ ap (λ xs. xs ++ woken) e) in
    (r, woken, timer_lem s old_esp fits woke ∙ ran, turned)
