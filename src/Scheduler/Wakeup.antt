-- ===== src/Scheduler/Wakeup.antt =====
-- The timer wakes the sleepers whose time has come, kern/scheduler/tcb_pool.c and
-- kern/scheduler/scheduler.c.
use custom_os_kernel.Base.{
  count, count-snoc, ℕ, zero, suc, ◌+◌, ◌≤◌, ◌<◌, ◌≡◌, refl, sym, ap, subst, ◌∙◌, true, false,
  Option, none, some, List, [], ◌∷◌, ◌++◌, append_assoc, append-nil, arith, ◌==◌, Bool-cases, inl,
  inr, length,
}
use custom_os_kernel.Base.Int.{ℤ, pos}
use custom_os_kernel.TcbPool.{TcbPool, without}
use custom_os_kernel.TcbPool.Lists.{
  Sorted, time, Sorted-without, Sorted-head, count-without, without-head,
}
use custom_os_kernel.TcbPool.Moves.{make_runnable-sleeps}
use custom_os_kernel.TcbPool.Ops.{
  wakeup_loop, wakeup_round, tcb_pool_wakeup, tcb_pool_make_runnable,
}
use custom_os_kernel.Scheduler.{Scheduler, tcb_at}
use custom_os_kernel.Scheduler.Switch.{scheduler_wakeup}
use custom_os_kernel.Scheduler.Inv.{IsValid, Current-map}
use custom_os_kernel.Scheduler.Keeps.{roused, timer-Placed, places-roused}

abbrev pub with_pool : TcbPool → Scheduler → Scheduler
with_pool p s = record s { thr_pool = p }

abbrev pub at_tick : ℕ → Scheduler → Scheduler
at_tick n s = record s { num_ticks = n }

roused-IsValid :
    (s : Scheduler) (a : ℕ)
    → IsValid s
    → 0 < count a s.thr_pool.sleeping_pool
    → IsValid (with_pool (roused a s.thr_pool) s)
roused-IsValid s a v held =
    let p = s.thr_pool in
    record {
      placed = λ b. timer-Placed p s.num_ticks a b (v.placed a) (v.placed b) held;
      listed = λ tid b found. ground (arith, v.listed tid b found, places-roused p a b held);
      sorted = Sorted-without (time p.tcbs) a p.sleeping_pool v.sorted;
      one_runs = λ b h r.
          ground
            (arith, v.one_runs b, count-snoc b p.runnable_pool a, (v.placed a).in_sleeping held);
      idle_apart = omega (arith, v.idle_apart, places-roused p a s.idle_tcb held);
      idle_there = v.idle_there;
      current =
          Current-map
            (λ alive. omega (
              arith,
              count-snoc s.cur_tcb p.runnable_pool a,
              count-without s.cur_tcb a p.sleeping_pool held,
              alive,
            ))
            v.current;
    }

-- The clock moves on where every sleeper's time is still to come.
tick-IsValid :
    (s : Scheduler)
    → IsValid s
    → ((b : ℕ) → 0 < count b s.thr_pool.sleeping_pool → suc s.num_ticks < (tcb_at s b).t_wakeup)
    → IsValid (at_tick (suc s.num_ticks) s)
tick-IsValid s v later = record {
  placed = λ b. record {
    once = (v.placed b).once;
    in_runnable = (v.placed b).in_runnable;
    in_waiting = (v.placed b).in_waiting;
    in_sleeping = λ h. (((v.placed b).in_sleeping h).0, later b h);
    in_zombie = (v.placed b).in_zombie;
    known = (v.placed b).known;
  };
  listed = v.listed;
  sorted = v.sorted;
  one_runs = v.one_runs;
  idle_apart = v.idle_apart;
  idle_there = v.idle_there;
  current = v.current;
}

-- After the loop: the pool, the threads that it woke, and the clock one tick on.
abbrev pub Awake : Scheduler → TcbPool → Type 0
Awake s p' =
    (woken : List ℕ) × (p'.runnable_pool ≡ s.thr_pool.runnable_pool ++ woken)
    × IsValid (at_tick (suc s.num_ticks) (with_pool p' s))
    × (p'.tcbs ≡ s.thr_pool.tcbs)

abbrev Wakes : (rounds : ℕ) → Scheduler → Type 0
Wakes rounds s =
    (p' : TcbPool) × (wakeup_loop rounds s.thr_pool (suc s.num_ticks) ≡ some (pos 0, p'))
    × Awake s p'

-- The loop stops.
stops-Wakes :
    (rounds : ℕ) (s : Scheduler)
    → IsValid s
    → wakeup_loop rounds s.thr_pool (suc s.num_ticks) ≡ some (pos 0, s.thr_pool)
    → ((b : ℕ) → 0 < count b s.thr_pool.sleeping_pool → suc s.num_ticks < (tcb_at s b).t_wakeup)
    → Wakes rounds s
stops-Wakes rounds s v e later =
    (s.thr_pool, e, ([], sym (append-nil s.thr_pool.runnable_pool), tick-IsValid s v later, refl))

module _ (rounds : ℕ) (p : TcbPool) (now : ℕ) where
  abbrev loop_at : List ℕ → Option (ℤ × TcbPool)
  loop_at xs = wakeup_round (λ p'. wakeup_loop rounds p' now) p now xs

  wakeup-nil : p.sleeping_pool ≡ [] → wakeup_loop (suc rounds) p now ≡ some (pos 0, p)
  unfolding wakeup_loop
  wakeup-nil e = ap loop_at e

  wakeup-later :
      (a : ℕ) (rest : List ℕ)
      → p.sleeping_pool ≡ a ∷ rest
      → ((p.tcbs a).t_wakeup == now) ≡ false
      → wakeup_loop (suc rounds) p now ≡ some (pos 0, p)
  unfolding wakeup_loop
  wakeup-later a rest e other =
      let stops : loop_at (a ∷ rest) ≡ some (pos 0, p) = rw other refl in ap loop_at e ∙ stops

  wakeup-now :
      (a : ℕ) (rest : List ℕ)
      → p.sleeping_pool ≡ a ∷ rest
      → ((p.tcbs a).t_wakeup == now) ≡ true
      → tcb_pool_make_runnable p (p.tcbs a).tid ≡ some (pos 0, roused a p)
      → wakeup_loop (suc rounds) p now ≡ wakeup_loop rounds (roused a p) now
  unfolding wakeup_loop
  wakeup-now a rest e due made =
      let goes : loop_at (a ∷ rest) ≡ wakeup_loop rounds (roused a p) now = rw (due, made) refl in
      ap loop_at e ∙ goes

round-Wakes :
    (rounds : ℕ) (s : Scheduler)
    → IsValid s
    → ((s' : Scheduler) → IsValid s' → length s'.thr_pool.sleeping_pool < rounds → Wakes rounds s')
    → length s.thr_pool.sleeping_pool < suc rounds
    → (xs : List ℕ) → s.thr_pool.sleeping_pool ≡ xs
    → Wakes (suc rounds) s
round-Wakes rounds s v ih fuel [] e =
    stops-Wakes (suc rounds) s v (wakeup-nil rounds s.thr_pool (suc s.num_ticks) e)
      (λ b held. absurd (omega (arith, ap (count b) e)))
round-Wakes rounds s v ih fuel (a ∷ rest) e =
    let p = s.thr_pool in
    let held : 0 < count a p.sleeping_pool = ground (arith, ap (count a) e) in
    let asleep = (v.placed a).in_sleeping held in
    elim (Bool-cases ((p.tcbs a).t_wakeup == suc s.num_ticks)) [
      | inl due ↦
          let known = (v.placed a).known (omega arith) in
          let made = make_runnable-sleeps p (p.tcbs a).tid a known.0 known.1 asleep.0 held in
          let left : without a p.sleeping_pool ≡ rest = ap (without a) e ∙ without-head a rest in
          let (p', ran, (woken, order, valid, same)) =
            ih (with_pool (roused a p) s) (roused-IsValid s a v held)
              (omega (arith, ap (length {A = ℕ}) left, ap (length {A = ℕ}) e)) in
          (
            p',
            wakeup-now rounds p (suc s.num_ticks) a rest e due made ∙ ran,
            (a ∷ woken, order ∙ append_assoc p.runnable_pool (a ∷ []) woken, valid, same),
          )
      | inr other ↦
          stops-Wakes (suc rounds) s v (wakeup-later rounds p (suc s.num_ticks) a rest e other)
            (λ b h.
              let first : (p.tcbs a).t_wakeup ≤ (p.tcbs b).t_wakeup =
                Sorted-head (time p.tcbs) a b rest (subst (Sorted (time p.tcbs)) e v.sorted)
                  (omega (arith, ap (count b) e)) in
              ground (arith, asleep.1))
    ]

wakeup_loop-Wakes :
    (rounds : ℕ) (s : Scheduler)
    → IsValid s
    → length s.thr_pool.sleeping_pool < rounds
    → Wakes rounds s
wakeup_loop-Wakes zero s v fuel = elim fuel [ ]
wakeup_loop-Wakes (suc rounds) s v fuel =
    round-Wakes rounds s v (wakeup_loop-Wakes rounds) fuel s.thr_pool.sleeping_pool refl

abbrev told : Scheduler → Option (ℤ × TcbPool) → Option (ℤ × Scheduler)
told s none = none
told s (some (status, pool)) = some (status, at_tick (suc s.num_ticks) (with_pool pool s))

-- On a valid scheduler, the wakeup at the next tick ends and returns 0; it appends the threads that it
-- wakes to the runnable pool, and leaves no sleeper whose time has passed.
pub wakeup-Awake :
    (s : Scheduler)
    → IsValid s
    → (p' : TcbPool) × (scheduler_wakeup (at_tick (suc s.num_ticks) s)
        ≡ some (pos 0, at_tick (suc s.num_ticks) (with_pool p' s)))
      × Awake s p'
unfolding scheduler_wakeup tcb_pool_wakeup
wakeup-Awake s v =
    let (p', ran, awake) =
      wakeup_loop-Wakes (length s.thr_pool.sleeping_pool + 1) s v (omega arith) in
    (p', ap (told s) ran, awake)
