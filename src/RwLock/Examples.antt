-- ===== src/RwLock/Examples.antt =====
-- The theorems of rwlock.c at a lock that a reader took and left.
use custom_os_kernel.Base.{ℕ, ◌≡◌, refl, false, true}
use custom_os_kernel.Base.Int.{pos}
use custom_os_kernel.RwLock.{RwLock, nobody, one, rwlock_lock, rwlock_unlock}
use custom_os_kernel.RwLock.Exclusion.{
  Held, free, reads, reader_leaves, Excludes, Held-Excludes, write-Excludes,
}

abbrev read_once : RwLock
read_once = record { count = pos 0; writer_locked = false }

abbrev being_read : RwLock
being_read = record { count = pos 1; writer_locked = false }

being_read-Held : Held being_read 1 false
unfolding rwlock_lock
being_read-Held = reads {k = nobody} free refl

read_once-Held : Held read_once 0 false
unfolding rwlock_unlock
read_once-Held = reader_leaves {k = one} being_read-Held refl

Held-Excludes_example : Excludes being_read 1 false
Held-Excludes_example = Held-Excludes being_read 1 false being_read-Held

write-Excludes_example :
    ((◌≡◌ {A = ℕ} 0 0))
    × (false ≡ false)
    × Excludes (record { count = pos 0; writer_locked = true }) 0 true
unfolding rwlock_lock
write-Excludes_example =
    write-Excludes read_once 0 false (record { count = pos 0; writer_locked = true }) nobody
      read_once-Held refl
