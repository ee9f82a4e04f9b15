-- ===== src/Mutex/Exclusion.antt =====
-- At most one thread is between the two exchanges of a mutex, kern/locks/mutex.c.
use custom_os_kernel.Base.{
  ◌≡◌, ◌≢◌, refl, sym, subst, ap, Bool, true, Bool-cases, inl, inr, List, [], ◌∷◌, if◌then◌else◌,
}
use custom_os_kernel.Base.Int.{ℤ, pos, neg}
use custom_os_kernel.Mutex.{
  Mutex, granted, yields, Round, yields_to, mutex_lock, mutex_own, mutex_disown, mutex_unlock,
}

-- Where the thread that passed the exchange is: before it writes the owner, in the critical section,
-- or before it gives the lock back.
pub data Phase : Type 0 where
  free : Phase
  taking owning leaving : (tid : ℤ) → Phase

-- The mutexes that steps of threads reach once the scheduler has started.
pub data Held : Mutex → Phase → Type 0 where
  starts : Held (record { lock = pos 1; owner = neg 1 }) free
  takes :
      {m m' : Mutex} {phase : Phase} (tid : ℤ) (refused : ℤ → Bool)
      → Held m phase
      → mutex_lock true refused m ≡ granted m'
      → Held m' (taking tid)
  owns : {m : Mutex} {tid : ℤ} → Held m (taking tid) → Held (mutex_own true tid m) (owning tid)
  leaves : {m : Mutex} {tid : ℤ} → Held m (owning tid) → Held (mutex_disown true m) (leaving tid)
  frees : {m : Mutex} {tid : ℤ} → Held m (leaving tid) → Held (mutex_unlock true m) free

abbrev pub owner_of : Phase → ℤ
owner_of free = neg 1
owner_of (taking tid) = neg 1
owner_of (owning tid) = tid
owner_of (leaving tid) = neg 1

abbrev lock_of : Phase → ℤ
lock_of free = pos 1
lock_of (taking tid) = pos 0
lock_of (owning tid) = pos 0
lock_of (leaving tid) = pos 0

-- What a mutex looks like in this phase.
abbrev pub mutex_of : Phase → Mutex
mutex_of phase = record { lock = lock_of phase; owner = owner_of phase }

abbrev mutex_in : Mutex → Round → Mutex
mutex_in d (granted m) = m
mutex_in d (yields tos) = d

yields-ne_granted : (tos : List ℤ) (m : Mutex) → yields tos ≢ granted m
yields-ne_granted tos m = cc

-- Only a free mutex passes the exchange.
locks_free :
    (phase : Phase) (tid : ℤ) (refused : ℤ → Bool) (m : Mutex)
    → mutex_lock true refused (mutex_of phase) ≡ granted m
    → m ≡ mutex_of (taking tid)
unfolding mutex_lock
locks_free free tid refused m e = sym (ap (mutex_in m) e)
locks_free (taking t) tid refused m e = absurd (yields-ne_granted (yields_to refused (neg 1)) m e)
locks_free (owning t) tid refused m e = absurd (yields-ne_granted (yields_to refused t) m e)
locks_free (leaving t) tid refused m e = absurd (yields-ne_granted (yields_to refused (neg 1)) m e)

pub Held-mutex_of : (m : Mutex) (phase : Phase) → Held m phase → m ≡ mutex_of phase
unfolding mutex_own mutex_disown mutex_unlock
Held-mutex_of m phase starts = refl
Held-mutex_of m phase (takes {m = m0} {phase = p} tid refused h e) =
    locks_free p tid refused m
      (subst (λ x. mutex_lock true refused x ≡ granted m) (Held-mutex_of m0 p h) e)
Held-mutex_of m phase (owns {m = m0} {tid = t} h) =
    ap (mutex_own true t) (Held-mutex_of m0 (taking t) h)
Held-mutex_of m phase (leaves {m = m0} {tid = t} h) =
    ap (mutex_disown true) (Held-mutex_of m0 (owning t) h)
Held-mutex_of m phase (frees {m = m0} {tid = t} h) =
    ap (mutex_unlock true) (Held-mutex_of m0 (leaving t) h)

yielded :
    (refused : ℤ → Bool) (owner : ℤ)
    → yields_to refused owner ≡ owner ∷ (if refused owner then neg 1 ∷ [] else [])
yielded refused owner = elim (Bool-cases (refused owner)) [ inl e ↦ rw e refl | inr e ↦ rw e refl ]

-- Whatever steps came before, a mutex that a thread took and has not given back is not granted again;
-- the call yields to that thread where the thread has written itself as the owner and is not yet
-- leaving, and to -1 otherwise, and where this yield is refused, to -1 after it.
pub Held-yields :
    (m : Mutex) (phase : Phase) (refused : ℤ → Bool)
    → Held m phase
    → phase ≢ free
    → mutex_lock true refused m
      ≡ yields (owner_of phase ∷ (if refused (owner_of phase) then neg 1 ∷ [] else []))
unfolding mutex_lock
Held-yields m free refused h held = absurd (held refl)
Held-yields m (taking t) refused h held =
    rw (Held-mutex_of m (taking t) h) (ap yields (yielded refused (neg 1)))
Held-yields m (owning t) refused h held =
    rw (Held-mutex_of m (owning t) h) (ap yields (yielded refused t))
Held-yields m (leaving t) refused h held =
    rw (Held-mutex_of m (leaving t) h) (ap yields (yielded refused (neg 1)))
