-- ===== src/Semaphore/Examples.antt =====
-- The theorem of sem.c at a semaphore with one resource, for which two threads wait.
use custom_os_kernel.Base.{ℕ, ◌+◌, ◌++◌, ◌≡◌, [], ◌∷◌, arith}
use custom_os_kernel.Base.Int.{pos}
use custom_os_kernel.Semaphore.{Semaphore, sem_wait, sem_signal}
use custom_os_kernel.Semaphore.Fair.{Reaches, init, wait, signal, Balanced, Reaches-Balanced}

-- Thread 7 takes the resource, thread 8 sleeps, and a signal wakes it.
abbrev handed_on : Semaphore
handed_on = record { count = pos 0; q = [] }

handed_on-Reaches : Reaches 1 handed_on 1 2 (8 ∷ []) (8 ∷ [])
unfolding sem_wait sem_signal
handed_on-Reaches =
    signal (wait 8 (wait 7 (init (omega arith)) (omega arith)) (omega arith)) (omega arith)

Reaches-Balanced_example : Balanced (pos 0) [] 2 (1 + 1) × (◌++◌ {A = ℕ} (8 ∷ []) [] ≡ 8 ∷ [])
Reaches-Balanced_example = Reaches-Balanced 1 handed_on 1 2 (8 ∷ []) (8 ∷ []) handed_on-Reaches
