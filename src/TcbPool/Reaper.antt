-- ===== src/TcbPool/Reaper.antt =====
-- The reaper thread of kern/scheduler/tcb_pool.c.
use custom_os_kernel.Base.{
  ℕ, zero, suc, ◌+◌, Bool, true, false, Option, none, some, List, [], ◌∷◌, ◌++◌, if◌then◌else◌,
  ◌==◌,
}
use custom_os_kernel.Base.Int.{is_neg, to_word}
use custom_os_kernel.CircBuf.{CircBuf, read}
use custom_os_kernel.Mutex.{sched_mutex_lock, sched_mutex_unlock}
use custom_os_kernel.TcbPool.{TcbPool}
use custom_os_kernel.TcbPool.Ops.{tcb_pool_remove_tcb}
use custom_os_kernel.TcbPool.Tables.{sched_lock, tcb_pool_remove_pcb}

-- The loop that reads the addresses to free out of the buffer, for at most as many rounds.
unfoldable pub drain : (rounds : ℕ) → CircBuf → List ℕ × CircBuf
drain zero c = ([], c)
drain (suc rounds) c =
    let (status, addr, left) = read (some c) true in
    if is_neg status then ([], c) else elim addr [
      | none ↦ ([], c)
      | some a ↦ elim left [
        | none ↦ ([], c)
        | some c' ↦ let (freed, end) = drain rounds c' in (a ∷ freed, end)
      ]
    ]

abbrev drain_all : Option CircBuf → List ℕ × Option CircBuf
drain_all none = ([], none)
drain_all (some c) = let (freed, c') = drain (c.n + 1) c in (freed, some c')

-- What a round leaves: the pool, the buffer of addresses, the interrupt flag, and the addresses that
-- it freed, in order, less those that destroying the process frees.
pub record Round : Type 0 where
  pub pool : TcbPool
  pub addrs : Option CircBuf
  pub interrupts : Bool
  pub freed : List ℕ

-- The process of a thread, where it has no thread any more.
abbrev pub if_last : Bool → ℕ → List ℕ
if_last true pcb = pcb ∷ []
if_last false pcb = []

-- One round of the loop of `tcb_pool_reap`, after its wait on the semaphore of zombies.
unfoldable pub tcb_pool_reap :
    TcbPool → (addrs : Option CircBuf) → (started interrupts : Bool) → Option Round
tcb_pool_reap p addrs started interrupts = elim p.zombie_pool [
  | [] ↦ some (record { pool = p; addrs = addrs; interrupts = interrupts; freed = [] })
  | a ∷ rest ↦
      let t = p.tcbs a in
      let locked = sched_mutex_lock sched_lock started interrupts in
      elim (tcb_pool_remove_tcb p t.tid addrs) [
        | none ↦ none
        | some (removed, q, addrs') ↦
            if is_neg removed
            then some (record { pool = q; addrs = addrs'; interrupts = locked; freed = [] })
            else let last = (q.pcbs t.pcb).num_threads == 0 in
              let (status, q', addrs'') =
                if last
                then tcb_pool_remove_pcb q (to_word (q.pcbs t.pcb).pid) addrs'
                else (removed, q, addrs') in
              let (freed, emptied) = drain_all addrs'' in
              some (record {
                pool = q';
                addrs = emptied;
                interrupts = sched_mutex_unlock sched_lock started locked;
                freed = if_last last t.pcb ++ (t.k_stack_bot ∷ a ∷ freed);
              })
      ]
]
