-- ===== src/TcbPool/Tables.antt =====
-- kern/scheduler/tcb_pool.c: the tables of threads and processes.
use custom_os_kernel.Base.{
  ℕ, Bool, true, Option, none, some, [], ◌∷◌, ◌++◌, if◌then◌else◌, ◌==◌, not,
}
use custom_os_kernel.Base.Int.{ℤ, pos, neg, is_neg, to_word}
use custom_os_kernel.CircBuf.{CircBuf}
use custom_os_kernel.HashTable.{Entry, ht_get, ht_put_entry, ht_remove, note}
use custom_os_kernel.Mutex.{SchedMutex, sched_mutex_lock, sched_mutex_unlock}
use custom_os_kernel.TcbPool.{TcbPool, rotate}

-- The lock of the scheduler, which is bound to it.
abbrev pub sched_lock : Option SchedMutex
sched_lock = some (record { sched = true })

-- What `ht_get` stores, which is nothing where it fails.
abbrev pub thread_at : TcbPool → (tid : ℕ) → Option ℕ
thread_at p tid = (ht_get (some p.threads) tid true).1

abbrev pub process_at : TcbPool → (pid : ℕ) → Option ℕ
process_at p pid = (ht_get (some p.processes) pid true).1

-- The thread is 0 for NULL. `node`, `entry` and `entry_node` are what `malloc` gives for its node, whose
-- address the thread stands for, for its entry and for the node of that. The third result is the
-- interrupt flag.
unfoldable pub tcb_pool_add_runnable_tcb_safe :
    (node : Bool)
    → (entry entry_node : ℕ) → TcbPool
    → (tcb : ℕ) → (started interrupts : Bool) → ℤ × TcbPool × Bool
tcb_pool_add_runnable_tcb_safe node entry entry_node p tcb started interrupts =
    if tcb == 0
    then (neg 1, p, interrupts)
    else if not node
    then (neg 2, p, interrupts)
    else if entry == 0
    then (neg 3, p, interrupts)
    else if entry_node == 0
    then (neg 4, p, interrupts)
    else let locked = sched_mutex_lock sched_lock started interrupts in
      let e : Entry = record {
        key = (p.tcbs tcb).tid;
        val = tcb;
        address = entry;
        node = entry_node;
      } in
      let (put, threads) = ht_put_entry (some p.threads) (some e) in
      elim threads [
        | none ↦ (neg 3, p, locked)
        | some t ↦ if is_neg put then (neg 3, record p { threads = t }, locked) else (
          pos 0,
          record p { threads = t; runnable_pool = p.runnable_pool ++ (tcb ∷ []) },
          sched_mutex_unlock sched_lock started locked,
        )
      ]

unfoldable pub tcb_pool_add_pcb_safe :
    (node : Bool)
    → (entry entry_node : ℕ) → TcbPool
    → (pcb : ℕ) → (started interrupts : Bool) → ℤ × TcbPool × Bool
tcb_pool_add_pcb_safe node entry entry_node p pcb started interrupts =
    if pcb == 0
    then (neg 1, p, interrupts)
    else if not node
    then (neg 2, p, interrupts)
    else if entry == 0
    then (neg 3, p, interrupts)
    else if entry_node == 0
    then (neg 4, p, interrupts)
    else let locked = sched_mutex_lock sched_lock started interrupts in
      let e : Entry = record {
        key = to_word (p.pcbs pcb).pid;
        val = pcb;
        address = entry;
        node = entry_node;
      } in
      let (put, processes) = ht_put_entry (some p.processes) (some e) in
      elim processes [
        | none ↦ (neg 3, p, locked)
        | some t ↦
            if is_neg put
            then (neg 3, record p { processes = t }, locked)
            else (pos 0, record p { processes = t }, sched_mutex_unlock sched_lock started locked)
      ]

unfoldable pub tcb_pool_remove_pcb :
    TcbPool → (pid : ℕ) → (addrs : Option CircBuf) → ℤ × TcbPool × Option CircBuf
tcb_pool_remove_pcb p pid addrs =
    let (removed, node, processes, addrs') = ht_remove (some p.processes) pid true addrs in
    elim node [
      | none ↦ (neg 2, p, addrs')
      | some pcb ↦ elim processes [
        | none ↦ (neg 2, p, addrs')
        | some t ↦ (pos 0, record p { processes = t }, note addrs' pcb)
      ]
    ]

-- `wanted` says that the output pointer is not NULL.
unfoldable pub tcb_pool_get_next_tcb : TcbPool → (wanted : Bool) → ℤ × Option ℕ × TcbPool
tcb_pool_get_next_tcb p wanted =
    if wanted
    then (let (rotated, pool) = rotate p.runnable_pool in
        elim pool [
          | [] ↦ (neg 2, none, p)
          | a ∷ rest ↦ (pos 0, some a, record p { runnable_pool = a ∷ rest })
        ])
    else (neg 1, none, p)

unfoldable pub tcb_pool_find_tcb : TcbPool → (tid : ℕ) → (wanted : Bool) → ℤ × Option ℕ
tcb_pool_find_tcb p tid wanted =
    if wanted
    then elim (thread_at p tid) [
      | none ↦ (neg 2, none)
      | some a ↦ if a == 0 then (neg 3, none) else (pos 0, some a)
    ]
    else (neg 1, none)

unfoldable pub tcb_pool_find_pcb : TcbPool → (pid : ℕ) → (wanted : Bool) → ℤ × Option ℕ
tcb_pool_find_pcb p pid wanted =
    if wanted
    then elim (process_at p pid) [
      | none ↦ (neg 2, none)
      | some a ↦ if a == 0 then (neg 3, none) else (pos 0, some a)
    ]
    else (neg 1, none)
