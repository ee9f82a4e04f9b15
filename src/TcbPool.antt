-- ===== src/TcbPool.antt =====
-- kern/scheduler/tcb_pool.c: the pools of threads. A thread is the address of its tcb, which also
-- stands for the list node that is made with it, and a pool is the nodes that its linked list holds, in
-- order. The pool is a part of the scheduler, so its address is not NULL. A result `none` is a run that
-- fails an assertion of the list, or that unlinks a node from a list that does not hold it.
pub mod Ops
pub mod Tables
pub mod Reaper
pub mod Lists
pub mod Moves
use custom_os_kernel.Base.{
  ℕ, zero, suc, ◌+◌, ◌<◌, ◌≡◌, Bool, true, false, Option, none, some, List, [], ◌∷◌, ◌++◌,
  if◌then◌else◌, ◌==◌, ◌&&◌, ◌||◌, not, ltb, length, count,
}
use custom_os_kernel.Base.Int.{ℤ, pos, neg, is_neg, is_nonpos}
use custom_os_kernel.CircBuf.{CircBuf}
use custom_os_kernel.HashTable.{HashTable, Entry, ht_init, ht_get, ht_put_entry, ht_remove, note}
use custom_os_kernel.Mutex.{sched_mutex_lock, sched_mutex_unlock}
use custom_os_kernel.Semaphore.{Semaphore, sem_init, sem_signal}
use custom_os_kernel.Pcb.{Pcb}
use custom_os_kernel.Tcb.{
  Tcb, Status, uninit, runnable, waiting, zombie, running, sleeping, tcb_t_wakeup_cmp,
}

-- `tcb_pool_t`, and the blocks in memory. The values of the tables are addresses.
pub record TcbPool : Type 0 where
  pub threads : HashTable
  pub processes : HashTable
  pub runnable_pool : List ℕ
  pub waiting_pool : List ℕ
  pub sleeping_pool : List ℕ
  pub zombie_pool : List ℕ
  pub zombies_sem : Semaphore
  pub tcbs : ℕ → Tcb
  pub pcbs : ℕ → Pcb

abbrev pub put_tcb : ℕ → Tcb → TcbPool → TcbPool
put_tcb a t p = record p { tcbs = λ b. if b == a then t else p.tcbs b }

abbrev pub put_pcb : ℕ → Pcb → TcbPool → TcbPool
put_pcb a t p = record p { pcbs = λ b. if b == a then t else p.pcbs b }

-- The list without the first such node.
abbrev pub without : ℕ → List ℕ → List ℕ
without a [] = []
without a (b ∷ bs) = if b == a then bs else b ∷ without a bs

-- `ll_unlink_node`. On a node that the list does not hold, but another pool does, the source relinks the
-- neighbours there; such a run is outside the model, `none`.
unfoldable pub unlink : ℕ → List ℕ → Option (ℤ × List ℕ)
unlink a [] = some (neg 1, [])
unlink a (b ∷ bs) = if count a (b ∷ bs) == 0 then none else some (pos 0, without a (b ∷ bs))

-- The loop of `ll_link_node_sorted` and the link behind the node where it stops.
unfoldable pub link_behind : (ℕ → ℕ → ℤ) → ℕ → ℕ → List ℕ → Option (List ℕ)
link_behind cmp a b [] = some (b ∷ a ∷ [])
link_behind cmp a b (c ∷ cs) =
    let rest = link_behind cmp a c cs in
    if is_nonpos (cmp b c)
    then if not (is_neg (cmp a b)) && is_nonpos (cmp a c)
      then some (b ∷ a ∷ c ∷ cs)
      else elim rest [ none ↦ none | some l ↦ some (b ∷ l) ]
    else none

-- `ll_link_node_sorted`; the words of the nodes are addresses of tcbs, not NULL.
unfoldable pub link_sorted : (ℕ → ℕ → ℤ) → ℕ → List ℕ → Option (List ℕ)
link_sorted cmp a [] = some (a ∷ [])
link_sorted cmp a (b ∷ bs) = if is_neg (cmp a b) then some (a ∷ b ∷ bs) else link_behind cmp a b bs

-- `ll_rotate`
abbrev pub rotate : List ℕ → ℤ × List ℕ
rotate [] = (neg 2, [])
rotate (a ∷ rest) = (pos 0, rest ++ (a ∷ []))

abbrev pub tid_hash : ℕ → ℕ
tid_hash tid = tid

abbrev pub pid_hash : ℕ → ℕ
pid_hash pid = pid

-- `malloc` gives the arrays of the two tables or not, and `ready` says that the semaphore is made.
unfoldable pub tcb_pool_init : (malloc malloc' ready : Bool) → TcbPool → ℤ × TcbPool
tcb_pool_init malloc malloc' ready p = elim (ht_init malloc (some p.threads) 64 (some tid_hash)).1 [
  | none ↦ (neg 2, p)
  | some threads ↦
      if not malloc
      then (neg 2, record p { threads = threads })
      else elim (ht_init malloc' (some p.processes) 64 (some pid_hash)).1 [
        | none ↦ (neg 2, record p { threads = threads })
        | some processes ↦
            if not malloc'
            then (neg 2, record p { threads = threads; processes = processes })
            else (
              if ready then pos 0 else neg 4,
              record p {
                threads = threads;
                processes = processes;
                runnable_pool = [];
                waiting_pool = [];
                sleeping_pool = [];
                zombie_pool = [];
                zombies_sem = record { count = pos 0; q = [] };
              },
            )
      ]
]
