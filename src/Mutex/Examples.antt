-- ===== src/Mutex/Examples.antt =====
-- The theorem of kern/locks/mutex.c at a mutex that thread 7 holds.
use custom_os_kernel.Base.{◌≡◌, ◌≢◌, refl, true, false, [], ◌∷◌}
use custom_os_kernel.Base.Int.{pos, neg}
use custom_os_kernel.Mutex.{Mutex, yields, mutex_lock, mutex_own}
use custom_os_kernel.Mutex.Exclusion.{Held, free, owning, starts, takes, owns, Held-yields}

abbrev taken : Mutex
taken = record { lock = pos 0; owner = pos 7 }

taken-Held : Held taken (owning (pos 7))
unfolding mutex_lock mutex_own
taken-Held = owns (takes (pos 7) (λ t. false) starts refl)

owning-ne_free : owning (pos 7) ≢ free
owning-ne_free = cc

-- The owner sleeps.
Held-yields_example : mutex_lock true (λ t. true) taken ≡ yields (pos 7 ∷ neg 1 ∷ [])
Held-yields_example = Held-yields taken (owning (pos 7)) (λ t. true) taken-Held owning-ne_free
