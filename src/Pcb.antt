-- ===== src/Pcb.antt =====
-- kern/scheduler/pcb.c: process control blocks, less their page directory and arguments. Calls
-- that lock the mutex of the block are steps. The queue of statuses is the list of its entries, oldest
-- first.
mod Examples
pub mod Statuses
use custom_os_kernel.Base.{
  ℕ, zero, Bool, true, false, Option, none, some, List, [], ◌∷◌, ◌++◌, if◌then◌else◌, ◌==◌, add32,
  sub32,
}
use custom_os_kernel.Base.Int.{ℤ, pos, neg, to_int}
use custom_os_kernel.Semaphore.{Semaphore, sem_init, sem_wait, sem_signal, sem_destroy}

-- `pcb_metadata_t`
pub record PcbMetadata : Type 0 where
  pub status : ℤ
  pub original_tid : ℤ

-- `pcb_t`
pub record Pcb : Type 0 where
  pub pid : ℤ
  pub ppid : ℤ
  pub original_tid : ℤ
  pub stack_top : ℕ
  pub entry_point : ℕ
  pub num_threads : ℕ
  pub num_child_proc : ℕ
  pub wait_sem : Semaphore
  pub status_queue : List PcbMetadata

-- The results of the initialisations inside are dropped.
unfoldable pub pcb_init : Option Pcb → ℤ × Option Pcb
pcb_init none = (neg 1, none)
pcb_init (some p) = (
  pos 0,
  some (record p {
    pid = neg 1;
    ppid = neg 1;
    original_tid = neg 1;
    num_child_proc = 0;
    num_threads = 0;
    status_queue = [];
    wait_sem = record { count = pos 0; q = [] };
  }),
)

-- `metadata` and `node` say whether `malloc` gives the entry and its list node. The thread that the
-- signal wakes is the second result.
unfoldable pub pcb_signal_status :
    (metadata node : Bool) → Option Pcb → (status original_tid : ℤ) → ℤ × Option ℕ × Option Pcb
pcb_signal_status metadata node none status original_tid = (neg 1, none, none)
pcb_signal_status metadata node (some p) status original_tid =
    if metadata
    then if node
      then (let (s, woken) = sem_signal p.wait_sem in
          (
            pos 0,
            woken,
            some (record p {
              status_queue =
                  p.status_queue ++ (record { status = status; original_tid = original_tid } ∷ []);
              wait_sem = s;
            }),
          ))
      else (neg 2, none, some p)
    else (neg 2, none, some p)

-- `pcb_wait_on_status` up to the wait: the status of a call that is refused, or whether the thread
-- `tid` sleeps. `node` says whether malloc gives the queue of the semaphore a node.
unfoldable pub pcb_wait_begin : (node : Bool) → (tid : ℕ) → Option Pcb → (ℤ × Bool) × Option Pcb
pcb_wait_begin node tid none = ((neg 1, false), none)
pcb_wait_begin node tid (some p) =
    if p.num_child_proc == 0
    then ((neg 2, false), some p)
    else let (s, sleeps) = sem_wait node tid p.wait_sem in
      ((pos 0, sleeps), some (record p { wait_sem = s }))

-- `pcb_wait_on_status` after the wait: what it stores through its two pointers.
unfoldable pub pcb_wait_on_status : Pcb → ℤ × Option PcbMetadata × Pcb
pcb_wait_on_status p = elim p.status_queue [
  | [] ↦ (neg 2, none, p)
  | m ∷ ms ↦ (pos 0, some m, record p { status_queue = ms })
]

unfoldable pub pcb_get_ppid : Option Pcb → ℤ
pcb_get_ppid none = neg 1
pcb_get_ppid (some p) = p.ppid

unfoldable pub pcb_set_original_tid : Option Pcb → (tid : ℤ) → ℤ × Option Pcb
pcb_set_original_tid none tid = (neg 1, none)
pcb_set_original_tid (some p) tid = (pos 0, some (record p { original_tid = tid }))

unfoldable pub pcb_get_original_tid : Option Pcb → (wanted : Bool) → ℤ × Option ℤ
pcb_get_original_tid none wanted = (neg 1, none)
pcb_get_original_tid (some p) wanted =
    if wanted then (pos 0, some p.original_tid) else (neg 1, none)

unfoldable pub pcb_inc_children_s : Option Pcb → ℤ × Option Pcb
pcb_inc_children_s none = (neg 1, none)
pcb_inc_children_s (some p) = (pos 0, some (record p { num_child_proc = add32 p.num_child_proc 1 }))

unfoldable pub pcb_dec_children_s : Option Pcb → ℤ × Option Pcb
pcb_dec_children_s none = (neg 1, none)
pcb_dec_children_s (some p) = (pos 0, some (record p { num_child_proc = sub32 p.num_child_proc 1 }))

-- The count comes back as an `int`.
unfoldable pub pcb_inc_threads_s : Option Pcb → ℤ × Option Pcb
pcb_inc_threads_s none = (neg 1, none)
pcb_inc_threads_s (some p) =
    let n = add32 p.num_threads 1 in (to_int n, some (record p { num_threads = n }))

unfoldable pub pcb_dec_threads_s : Option Pcb → ℤ × Option Pcb
pcb_dec_threads_s none = (neg 1, none)
pcb_dec_threads_s (some p) =
    let n = sub32 p.num_threads 1 in (to_int n, some (record p { num_threads = n }))
