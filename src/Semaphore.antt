-- ===== src/Semaphore.antt =====
-- kern/locks/sem.c: counting semaphores. Each call changes the semaphore under its mutex, so calls are
-- steps one after the other. The queue is the threads that its list holds, oldest first. The count
-- is taken as unbounded; past the range of an `int` the source has no meaning.
pub mod Fair
mod Examples
use custom_os_kernel.Base.{
  ℕ, zero, suc, Bool, true, false, Option, none, some, List, [], ◌∷◌, ◌++◌, if◌then◌else◌,
}
use custom_os_kernel.Base.Int.{ℤ, pos, negsuc, neg, is_neg, is_nonpos}

-- `sem_t`
pub record Semaphore : Type 0 where
  pub count : ℤ
  pub q : List ℕ

abbrev pub decrement : ℤ → ℤ
decrement (pos zero) = negsuc zero
decrement (pos (suc n)) = pos n
decrement (negsuc n) = negsuc (suc n)

abbrev pub increment : ℤ → ℤ
increment (pos n) = pos (suc n)
increment (negsuc zero) = pos zero
increment (negsuc (suc n)) = negsuc n

-- The initialisations of the queue and of the mutex succeed where `ready` says so.
unfoldable pub sem_init : (ready : Bool) → Option Semaphore → (count : ℤ) → ℤ × Option Semaphore
sem_init ready none count = (neg 1, none)
sem_init ready (some s) count =
    if is_neg count
    then (neg 1, some s)
    else (if ready then pos 0 else neg 1, some (record { count = count; q = [] }))

-- The thread `tid` takes a resource, or it queues and sleeps until a signal picks it: the second
-- result says that it sleeps. `node` says whether malloc gives the queue a node; without one the
-- thread sleeps all the same, and no signal finds it.
unfoldable pub sem_wait : (node : Bool) → (tid : ℕ) → Semaphore → Semaphore × Bool
sem_wait node tid s =
    let count = decrement s.count in
    if is_neg count
    then (record { count = count; q = if node then s.q ++ (tid ∷ []) else s.q }, true)
    else (record { count = count; q = s.q }, false)

-- The thread at the head of the queue, and the rest of the queue.
abbrev pub dequeue : ℤ → List ℕ → Semaphore × Option ℕ
dequeue count [] = (record { count = count; q = [] }, none)
dequeue count (t ∷ ts) = (record { count = count; q = ts }, some t)

-- The thread that the signal wakes is the second result.
unfoldable pub sem_signal : Semaphore → Semaphore × Option ℕ
sem_signal s =
    let count = increment s.count in
    if is_nonpos count then dequeue count s.q else (record { count = count; q = s.q }, none)

unfoldable pub sem_destroy : Semaphore → Semaphore
sem_destroy s = record { count = negsuc 0; q = [] }

unfoldable pub sem_get_value : Option Semaphore → (wanted : Bool) → ℤ × Option ℤ
sem_get_value none wanted = (neg 1, none)
sem_get_value (some s) wanted = if wanted then (pos 0, some s.count) else (neg 1, none)
