-- ===== src/Mutex.antt =====
-- kern/locks/mutex.c and kern/locks/sched_mutex.c. A thread can be switched out between the exchange
-- (`xchng`, which is atomic) and the write of the owner, so these are steps of their own. The lock of
-- the scheduler is the interrupt flag.
pub mod Exclusion
mod Examples
use custom_os_kernel.Base.{
  ℕ, zero, suc, Bool, true, false, Option, none, some, List, [], ◌∷◌, if◌then◌else◌, ◌==◌,
}
use custom_os_kernel.Base.Int.{ℤ, pos, negsuc, neg}

-- `mutex_t`; the owner is -1 or a thread.
pub record Mutex : Type 0 where
  pub lock : ℤ
  pub owner : ℤ

unfoldable pub mutex_init : Option Mutex → ℤ × Option Mutex
mutex_init none = (neg 1, none)
mutex_init (some m) = (pos 0, some (record { lock = pos 1; owner = neg 1 }))

unfoldable pub mutex_destroy : Mutex → Mutex
mutex_destroy m = record m { lock = neg 1 }

abbrev pub is_zero : ℤ → Bool
is_zero (pos n) = n == 0
is_zero (negsuc n) = false

-- Where a round of `mutex_lock` goes: out of the loop, or back to it after these calls of
-- `thr_kern_yield`.
pub data Round : Type 0 where
  granted : Mutex → Round
  yields : (tos : List ℤ) → Round

-- The yields of a round that finds the mutex taken: to its owner and, where that is refused, to a
-- thread that the scheduler picks.
abbrev pub yields_to : (refused : ℤ → Bool) → (owner : ℤ) → List ℤ
yields_to refused owner = if refused owner then owner ∷ neg 1 ∷ [] else owner ∷ []

-- One round of the loop of `mutex_lock`: the exchange, and the yields after it. `refused` says at
-- which threads `thr_kern_yield` fails in this round.
unfoldable pub mutex_lock : (started : Bool) → (refused : ℤ → Bool) → Mutex → Round
mutex_lock started refused m =
    if started
    then if is_zero m.lock
      then yields (yields_to refused m.owner)
      else granted (record m { lock = pos 0 })
    else granted m

-- The rest of `mutex_lock`; `tid` is -1 where the scheduler does not know the thread.
unfoldable pub mutex_own : (started : Bool) → (tid : ℤ) → Mutex → Mutex
mutex_own started tid m = if started then record m { owner = tid } else m

-- `mutex_unlock` up to the exchange.
unfoldable pub mutex_disown : (started : Bool) → Mutex → Mutex
mutex_disown started m = if started then record m { owner = neg 1 } else m

-- The exchange of `mutex_unlock`.
unfoldable pub mutex_unlock : (started : Bool) → Mutex → Mutex
mutex_unlock started m = if started then record m { lock = pos 1 } else m

-- `sched_mutex_t`: whether it is bound to a scheduler.
pub record SchedMutex : Type 0 where
  pub sched : Bool

unfoldable pub sched_mutex_init : Option SchedMutex → (sched : Bool) → ℤ × Option SchedMutex
sched_mutex_init none sched = (neg 1, none)
sched_mutex_init (some m) sched =
    if sched then (pos 0, some (record { sched = true })) else (neg 1, some m)

-- The interrupt flag after the call.
unfoldable pub sched_mutex_lock : Option SchedMutex → (started interrupts : Bool) → Bool
sched_mutex_lock none started interrupts = interrupts
sched_mutex_lock (some m) started interrupts =
    if m.sched then if started then false else interrupts else interrupts

unfoldable pub sched_mutex_unlock : Option SchedMutex → (started interrupts : Bool) → Bool
sched_mutex_unlock none started interrupts = interrupts
sched_mutex_unlock (some m) started interrupts =
    if m.sched then if started then true else interrupts else interrupts

unfoldable pub sched_mutex_destroy : SchedMutex → SchedMutex
sched_mutex_destroy m = record { sched = false }
