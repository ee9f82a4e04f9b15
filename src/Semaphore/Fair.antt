-- ===== src/Semaphore/Fair.antt =====
-- A semaphore hands out exactly the resources it has, to its waiters in the order they came.
use custom_os_kernel.Base.{
  ℕ, zero, suc, ◌+◌, ◌^◌, ◌<◌, ◌≡◌, refl, sym, ap, subst, ◌∙◌, Bool, true, false, Option, none,
  some, List, [], ◌∷◌, ◌++◌, append_assoc, append-nil, arith, length, length-append,
}
use custom_os_kernel.Base.Int.{ℤ, pos, negsuc}
use custom_os_kernel.Semaphore.{Semaphore, sem_wait, sem_signal}

abbrev pub if_slept : Bool → ℕ → List ℕ
if_slept true tid = tid ∷ []
if_slept false tid = []

abbrev pub listed : Option ℕ → List ℕ
listed none = []
listed (some t) = t ∷ []

-- The value is one of an `int`.
abbrev pub InInt : ℤ → Type 0
InInt (pos c) = c < 2 ^ 31
InInt (negsuc k) = k < 2 ^ 31

abbrev pub taken : Bool → ℕ
taken true = 0
taken false = 1

-- The semaphores that calls of wait and signal reach from the count `n` while malloc gives each waiter
-- its node in the queue and the count stays one of an `int`, with the number of signals,
-- the number of resources handed out, the threads that went to sleep and those that were woken.
pub data Reaches (n : ℕ) : Semaphore → (signals handed : ℕ) → (slept woken : List ℕ) → Type 0 where
  init : InInt (pos n) → Reaches n (record { count = pos n; q = [] }) 0 0 [] []
  wait :
      {s : Semaphore} {signals handed : ℕ} {slept woken : List ℕ} (tid : ℕ)
      → Reaches n s signals handed slept woken
      → InInt (sem_wait true tid s).0.count
      → Reaches n
          (sem_wait true tid s).0
          signals
          (handed + taken (sem_wait true tid s).1)
          (slept ++ if_slept (sem_wait true tid s).1 tid)
          woken
  signal :
      {s : Semaphore} {signals handed : ℕ} {slept woken : List ℕ}
      → Reaches n s signals handed slept woken
      → InInt (sem_signal s).0.count
      → Reaches n
          (sem_signal s).0
          (suc signals)
          (handed + length (listed (sem_signal s).1))
          slept
          (woken ++ listed (sem_signal s).1)

-- Resources are left only where nobody waits; a negative count is the number of waiters.
abbrev pub Balanced : ℤ → List ℕ → (handed total : ℕ) → Type 0
Balanced (pos c) q handed total = (q ≡ []) × (handed + c ≡ total)
Balanced (negsuc k) q handed total = (length q ≡ suc k) × (handed ≡ total)

no_length : (q : List ℕ) → length q ≡ 0 → q ≡ []
no_length [] e = refl
no_length (t ∷ q) e = absurd (omega arith)

wait-Balanced :
    (tid : ℕ) (c : ℤ) (q : List ℕ) (handed total : ℕ) (slept woken : List ℕ)
    → Balanced c q handed total
    → woken ++ q ≡ slept
    → Balanced
        (sem_wait true tid (record { count = c; q = q })).0.count
        (sem_wait true tid (record { count = c; q = q })).0.q
        (handed + taken (sem_wait true tid (record { count = c; q = q })).1)
        total
      × (woken ++ (sem_wait true tid (record { count = c; q = q })).0.q
          ≡ slept ++ if_slept (sem_wait true tid (record { count = c; q = q })).1 tid)
unfolding sem_wait
wait-Balanced tid (pos zero) q handed total slept woken b o = (
  (omega (arith, length-append q (tid ∷ []), ap length b.0), omega (arith, b.1)),
  sym (append_assoc woken q (tid ∷ [])) ∙ ap (λ l. l ++ (tid ∷ [])) o,
)
wait-Balanced tid (pos (suc c)) q handed total slept woken b o =
    ((b.0, omega (arith, b.1)), o ∙ sym (append-nil slept))
wait-Balanced tid (negsuc k) q handed total slept woken b o = (
  (omega (arith, b.0, length-append q (tid ∷ [])), omega (arith, b.1)),
  sym (append_assoc woken q (tid ∷ [])) ∙ ap (λ l. l ++ (tid ∷ [])) o,
)

signal-Balanced :
    (c : ℤ) (q : List ℕ) (handed total : ℕ) (slept woken : List ℕ)
    → Balanced c q handed total
    → woken ++ q ≡ slept
    → Balanced
        (sem_signal (record { count = c; q = q })).0.count
        (sem_signal (record { count = c; q = q })).0.q
        (handed + length (listed (sem_signal (record { count = c; q = q })).1))
        (suc total)
      × ((woken ++ listed (sem_signal (record { count = c; q = q })).1)
            ++ (sem_signal (record { count = c; q = q })).0.q
          ≡ slept)
unfolding sem_signal
signal-Balanced (pos c) q handed total slept woken b o =
    ((b.0, omega (arith, b.1)), ap (λ l. l ++ q) (append-nil woken) ∙ o)
signal-Balanced (negsuc k) [] handed total slept woken b o = absurd (omega (arith, b.0))
signal-Balanced (negsuc zero) (t ∷ q) handed total slept woken b o =
    ((no_length q (omega (arith, b.0)), omega (arith, b.1)), append_assoc woken (t ∷ []) q ∙ o)
signal-Balanced (negsuc (suc k)) (t ∷ q) handed total slept woken b o =
    ((omega (arith, b.0), omega (arith, b.1)), append_assoc woken (t ∷ []) q ∙ o)

-- From a count n that is not negative, whatever waits and signals came, where malloc gave each thread
-- that had to wait its node in the queue and the count stayed in the range of an int, the resources handed out and those left are n and
-- one for each signal, none is left while a thread waits, as many threads wait as the count is below
-- 0, and the threads woken and then those waiting are those that went to sleep, in their order.
pub Reaches-Balanced :
    (n : ℕ) (s : Semaphore) (signals handed : ℕ) (slept woken : List ℕ)
    → Reaches n s signals handed slept woken
    → Balanced s.count s.q handed (n + signals) × (woken ++ s.q ≡ slept)
Reaches-Balanced n s signals handed slept woken (init small) = ((refl, omega arith), refl)
Reaches-Balanced n s signals handed slept woken
      (wait {s = s0} {handed = h0} {slept = l0} tid r small) =
    let (b, o) = Reaches-Balanced n s0 signals h0 l0 woken r in
    wait-Balanced tid s0.count s0.q h0 (n + signals) l0 woken b o
Reaches-Balanced n s signals handed slept woken
      (signal {s = s0} {signals = g0} {handed = h0} {woken = w0} r small) =
    let (b, o) = Reaches-Balanced n s0 g0 h0 slept w0 r in
    let (b', o') = signal-Balanced s0.count s0.q h0 (n + g0) slept w0 b o in
    let next : suc (n + g0) ≡ n + suc g0 = omega arith in (subst (Balanced _ _ _) next b', o')
