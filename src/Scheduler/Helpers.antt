-- ===== src/Scheduler/Helpers.antt =====
-- kern/scheduler/thr_helpers.c: what a thread does to itself and to others. A call that switches to
-- another thread does not return here: it restores a stack. The mutexes of processes are free.
use custom_os_kernel.Base.{ℕ, ◌-◌, ◌^◌, Bool, true, Option, none, some, if◌then◌else◌, ◌==◌}
use custom_os_kernel.Base.Int.{ℤ, pos, neg, is_neg, to_int, to_word}
use custom_os_kernel.Pcb.{
  Pcb, pcb_get_ppid, pcb_inc_children_s, pcb_dec_threads_s, pcb_signal_status,
}
use custom_os_kernel.TcbPool.{put_pcb}
use custom_os_kernel.Scheduler.{
  Scheduler, tcb_at, set_tcb, scheduler_check_is_runnable, scheduler_get_current_tid,
  scheduler_get_pcb_by_pid, scheduler_get_init_pcb, scheduler_deschedule_current_safe,
  scheduler_make_runnable_safe, scheduler_make_current_sleeping_safe,
  scheduler_make_current_zombie_safe,
}
use custom_os_kernel.Scheduler.Switch.{context_switch_safe}

-- How a call leaves: it returns a status, or the stack of another thread is restored.
pub data Exit : Type 0 where
  returns : ℤ → Exit
  restores : (esp : ℕ) → Exit

abbrev pub switched : Option (ℕ × Scheduler) → Option (Exit × Scheduler)
switched none = none
switched (some (esp, s)) = some (restores esp, s)

-- `tid` is the bit pattern of an `int`. The thread is looked up before the scheduler is locked.
unfoldable pub thr_yield : Scheduler → (old_esp tid : ℕ) → Option (Exit × Scheduler)
thr_yield s old_esp tid =
    if is_neg (to_int tid)
    then switched (context_switch_safe s old_esp tid)
    else elim (scheduler_check_is_runnable s tid) [
      | ℤ.negsuc n ↦ some (returns (neg 2), s)
      | ℤ.pos n ↦
          if n == 0 then some (returns (neg 3), s) else switched (context_switch_safe s old_esp tid)
    ]

-- -1
abbrev pub anybody : ℕ
anybody = 2 ^ 32 - 1

-- `mapped` says that the page directory maps the address of the flag, whose value is `reject`; the new
-- value of the flag comes back too.
unfoldable pub thr_deschedule :
    Scheduler → (old_esp : ℕ) → (mapped : Bool) → (reject : ℕ) → Option (Exit × ℕ × Scheduler)
thr_deschedule s old_esp mapped reject =
    if s.cur_tcb == 0
    then none
    else if mapped
    then if reject == 0
      then elim (scheduler_deschedule_current_safe s) [
        | none ↦ none
        | some (status, s') ↦
            if is_neg status
            then some (returns (neg 3), 0, s')
            else elim (thr_yield s' old_esp anybody) [
              | none ↦ none
              | some (exit, s'') ↦ some (exit, 0, s'')
            ]
      ]
      else some (returns (pos 0), 0, s)
    else some (returns (neg 3), reject, s)

unfoldable pub thr_make_runnable : Scheduler → (tid : ℕ) → Option (ℤ × Scheduler)
thr_make_runnable s tid = elim (scheduler_make_runnable_safe s tid) [
  | none ↦ none
  | some (status, s') ↦ some (if is_neg status then neg 2 else pos 0, s')
]

-- A store through NULL is `none`.
unfoldable pub thr_set_status : Scheduler → (status : ℤ) → Option Scheduler
thr_set_status s status =
    if s.cur_tcb == 0
    then none
    else some (set_tcb s.cur_tcb (record (tcb_at s s.cur_tcb) { exit_status = status }) s)

unfoldable pub thr_sleep : Scheduler → (old_esp : ℕ) → (ticks : ℤ) → Option (Exit × Scheduler)
thr_sleep s old_esp ticks = elim (scheduler_make_current_sleeping_safe s ticks) [
  | none ↦ none
  | some (status, s') ↦
      if is_neg status then some (returns (neg 3), s') else thr_yield s' old_esp anybody
]

unfoldable pub thr_gettid : Scheduler → ℤ
thr_gettid s = elim (scheduler_get_current_tid s).1 [ none ↦ neg 1 | some tid ↦ to_int tid ]

abbrev pub pcb_at : Scheduler → ℕ → Pcb
pcb_at s a = s.thr_pool.pcbs a

abbrev pub set_pcb : ℕ → Option Pcb → Scheduler → Scheduler
set_pcb a none s = s
set_pcb a (some p) s = record s { thr_pool = put_pcb a p s.thr_pool }

-- `sem_signal` inside makes the thread that it wakes runnable.
abbrev pub wake : Option ℕ → Scheduler → Option Scheduler
wake none s = some s
wake (some tid) s = elim (thr_make_runnable s tid) [ none ↦ none | some (status, s') ↦ some s' ]

-- `pcb_signal_status` on the process at an address; its status is dropped.
abbrev pub signal :
    (metadata node : Bool) → (pcb : ℕ) → (status original_tid : ℤ) → Scheduler → Option Scheduler
signal metadata node pcb status original_tid s =
    let (signalled, woken, p) =
      pcb_signal_status metadata node (some (pcb_at s pcb)) status original_tid in
    wake woken (set_pcb pcb p s)

-- The current process loses a thread; with its last one it signals the process that waits for it.
abbrev pub leave_process :
    (metadata node : Bool)
    → (cur_pcb waiter : ℕ) → (status original_tid : ℤ) → Scheduler
    → Option Scheduler
leave_process metadata node cur_pcb waiter status original_tid s =
    let (left, p) = pcb_dec_threads_s (some (pcb_at s cur_pcb)) in
    let s' = set_pcb cur_pcb p s in
    elim left [
      | ℤ.negsuc n ↦ some s'
      | ℤ.pos n ↦ if n == 0 then signal metadata node waiter status original_tid s' else some s'
    ]

-- The process that collects the status, and the scheduler after `init` has adopted an orphan.
abbrev pub collector : Scheduler → (cur_pcb : ℕ) → Option (ℕ × Scheduler)
collector s cur_pcb =
    elim (scheduler_get_pcb_by_pid s (to_word (pcb_get_ppid (some (pcb_at s cur_pcb)))) true).1 [
      | some parent_pcb ↦ some (parent_pcb, s)
      | none ↦ elim (scheduler_get_init_pcb s true).1 [
        | none ↦ none
        | some init_pcb ↦
            some (init_pcb, set_pcb init_pcb (pcb_inc_children_s (some (pcb_at s init_pcb))).1 s)
      ]
    ]

-- `metadata` and `node` say whether `malloc` gives the entry of the status and its node. A failing
-- switch is a panic.
unfoldable pub thr_vanish : (metadata node : Bool) → Scheduler → Option (Exit × Scheduler)
thr_vanish metadata node s =
    if s.cur_tcb == 0
    then none
    else let t = tcb_at s s.cur_tcb in
      elim (collector s t.pcb) [
        | none ↦ none
        | some (waiter, s1) ↦
            elim (leave_process metadata node t.pcb waiter t.exit_status
              (pcb_at s t.pcb).original_tid s1) [
                | none ↦ none
                | some s2 ↦ elim (scheduler_make_current_zombie_safe s2) [
                  | none ↦ none
                  | some (status, s3) ↦ thr_yield s3 0 anybody
                ]
              ]
      ]
