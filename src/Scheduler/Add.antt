-- ===== src/Scheduler/Add.antt =====
-- New processes and threads of kern/scheduler/scheduler.c.
use custom_os_kernel.Base.{ℕ, Bool, Option, none, some, if◌then◌else◌, ◌==◌, add32}
use custom_os_kernel.Base.Int.{ℤ, pos, neg, is_neg, to_int}
use custom_os_kernel.Pcb.{Pcb, pcb_set_original_tid, pcb_inc_threads_s}
use custom_os_kernel.Tcb.{Processor, Program, tcb_init}
use custom_os_kernel.TcbPool.{put_tcb, put_pcb}
use custom_os_kernel.TcbPool.Tables.{tcb_pool_add_pcb_safe, tcb_pool_add_runnable_tcb_safe}
use custom_os_kernel.Scheduler.{Scheduler, tcb_at}

-- What `malloc` gives for a thread or for the entry of a process: addresses, 0 for NULL.
pub record Mallocs : Type 0 where
  pub tcb : ℕ
  pub k_stack : ℕ
  pub node : Bool
  pub entry : ℕ
  pub entry_node : ℕ

abbrev pub program_at : Scheduler → ℕ → ℕ × Program
program_at s pcb =
    let p = s.thr_pool.pcbs pcb in
    (pcb, record { stack_top = p.stack_top; entry_point = p.entry_point })

-- The number of the next thread.
abbrev pub take_tid : Scheduler → ℕ × Scheduler
take_tid s = (s.next_tid, record s { next_tid = add32 s.next_tid 1 })

abbrev pub take_pid : Scheduler → ℕ × Scheduler
take_pid s = (s.next_pid, record s { next_pid = add32 s.next_pid 1 })

abbrev pub set_process : ℕ → Option Pcb → Scheduler → Scheduler
set_process a none s = s
set_process a (some p) s = record s { thr_pool = put_pcb a p s.thr_pool }

-- `tcb_init` on the block that `malloc` gave.
abbrev pub init_tcb :
    Processor → Mallocs → (tid pcb : ℕ) → Option (ℕ → ℕ) → Scheduler → ℤ × Scheduler
init_tcb cpu m tid pcb regs s =
    let (status, t, memory) =
      tcb_init cpu m.k_stack (some (tcb_at s m.tcb)) tid (some (program_at s pcb)) regs s.memory in
    elim t [
      | none ↦ (status, s)
      | some t' ↦ (status, record s { thr_pool = put_tcb m.tcb t' s.thr_pool; memory = memory })
    ]

abbrev pub add_pcb : Mallocs → (pcb : ℕ) → Scheduler → ℤ × Scheduler
add_pcb m pcb s =
    let (status, pool, interrupts) =
      tcb_pool_add_pcb_safe m.node m.entry m.entry_node s.thr_pool pcb s.started s.interrupts in
    (status, record s { thr_pool = pool; interrupts = interrupts })

abbrev pub add_tcb : Mallocs → Scheduler → ℤ × Scheduler
add_tcb m s =
    let (status, pool, interrupts) =
      tcb_pool_add_runnable_tcb_safe m.node m.entry m.entry_node s.thr_pool m.tcb s.started
        s.interrupts in
    (status, record s { thr_pool = pool; interrupts = interrupts })

-- A process that is NULL is a store through NULL, `none`. `for_pcb` and `for_tcb` are what `malloc` gives
-- for the entry of the process and for the thread.
unfoldable pub scheduler_add_process :
    Processor
    → (for_pcb for_tcb : Mallocs) → Scheduler
    → (pcb : ℕ) → Option (ℕ → ℕ)
    → Option (ℤ × Scheduler)
scheduler_add_process cpu for_pcb for_tcb s pcb regs =
    if pcb == 0
    then none
    else let (pid, s1) = take_pid s in
      let s2 = set_process pcb (some (record (s.thr_pool.pcbs pcb) { pid = to_int pid })) s1 in
      let (tid, s3) = take_tid s2 in
      if for_tcb.tcb == 0
      then some (neg 2, s3)
      else let (made, s4) = init_tcb cpu for_tcb tid pcb regs s3 in
        if is_neg made
        then some (neg 3, s4)
        else let named = (pcb_set_original_tid (some (s4.thr_pool.pcbs pcb)) (to_int tid)).1 in
          let s5 = set_process pcb named s4 in
          let s6 = set_process pcb (pcb_inc_threads_s (some (s5.thr_pool.pcbs pcb))).1 s5 in
          let (put, s7) = add_pcb for_pcb pcb s6 in
          if is_neg put
          then some (neg 4, s7)
          else let (added, s8) = add_tcb for_tcb s7 in
            some (if is_neg added then neg 3 else to_int tid, s8)

unfoldable pub scheduler_add_new_thread :
    Processor → (for_tcb : Mallocs) → Scheduler → Option (ℕ → ℕ) → Option (ℤ × Scheduler)
scheduler_add_new_thread cpu for_tcb s regs =
    let (tid, s1) = take_tid s in
    if for_tcb.tcb == 0
    then some (neg 2, s1)
    else if s.cur_tcb == 0
    then none
    else let pcb = (tcb_at s s.cur_tcb).pcb in
      let (made, s2) = init_tcb cpu for_tcb tid pcb regs s1 in
      if is_neg made
      then some (neg 3, s2)
      else let s3 = set_process pcb (pcb_inc_threads_s (some (s2.thr_pool.pcbs pcb))).1 s2 in
        let (added, s4) = add_tcb for_tcb s3 in
        some (if is_neg added then neg 3 else to_int tid, s4)

unfoldable pub scheduler_add_init_process :
    Processor → (for_pcb for_tcb : Mallocs) → Scheduler → (init_pcb : ℕ) → Option (ℤ × Scheduler)
scheduler_add_init_process cpu for_pcb for_tcb s init_pcb =
    if init_pcb == 0
    then some (neg 1, s)
    else elim (scheduler_add_process cpu for_pcb for_tcb (record s { init_pcb = init_pcb }) init_pcb
        none) [ none ↦ none | some (added, s') ↦ some (if is_neg added then neg 2 else pos 0, s') ]

-- The status of `tcb_init` is dropped.
unfoldable pub scheduler_add_idle_process :
    Processor → (for_tcb : Mallocs) → Scheduler → (idle_pcb : ℕ) → Option (ℤ × Scheduler)
scheduler_add_idle_process cpu for_tcb s idle_pcb =
    if idle_pcb == 0
    then none
    else let (pid, s1) = take_pid s in
      let s2 =
        set_process idle_pcb (some (record (s.thr_pool.pcbs idle_pcb) { pid = to_int pid })) s1 in
      if for_tcb.tcb == 0
      then some (neg 2, s2)
      else let (tid, s3) = take_tid s2 in
        let (made, s4) = init_tcb cpu for_tcb tid idle_pcb none s3 in
        some (to_int tid, record s4 { idle_tcb = for_tcb.tcb })
