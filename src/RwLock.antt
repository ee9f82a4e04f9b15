-- ===== src/RwLock.antt =====
-- kern/locks/rwlock.c: readers-writer locks. Each call changes the lock under its mutex, so calls are
-- steps one after the other; a thread that waits on the condition variable tries again later. The
-- count is taken as unbounded.
pub mod Exclusion
mod Examples
use custom_os_kernel.Base.{
  ℕ, zero, suc, Bool, true, false, not, ◌&&◌, ◌||◌, Option, none, some, if◌then◌else◌,
}
use custom_os_kernel.Base.Int.{ℤ, pos, neg, is_neg, is_nonpos}
use custom_os_kernel.Semaphore.{increment, decrement}

-- `rwlock_t`, less its mutex and its condition variable.
pub record RwLock : Type 0 where
  pub count : ℤ
  pub writer_locked : Bool

pub data LockType : Type 0 where
  read : LockType
  write : LockType

-- Whom the call wakes on the condition variable.
pub data Wakes : Type 0 where
  nobody : Wakes
  one : Wakes
  everybody : Wakes

pub data Step : Type 0 where
  granted : RwLock → Wakes → Step
  waits : Step
  panics : Step

-- The initialisations of the mutex and of the condition variable succeed where `ready` says so.
unfoldable pub rwlock_init : (ready : Bool) → Option RwLock → ℤ × Option RwLock
rwlock_init ready none = (neg 1, none)
rwlock_init ready (some l) =
    if ready
    then (pos 0, some (record { count = pos 0; writer_locked = false }))
    else (neg 1, some l)

-- One round of `rwlock_lock`: the lock is granted, or the test of its loop holds and it waits.
unfoldable pub rwlock_lock : LockType → RwLock → Step
rwlock_lock read l =
    if is_neg l.count
    then panics
    else if l.writer_locked
    then waits
    else granted (record l { count = increment l.count }) nobody
rwlock_lock write l =
    if is_neg l.count
    then panics
    else if l.writer_locked || not (is_nonpos l.count)
    then waits
    else granted (record l { writer_locked = true }) nobody

abbrev pub is_zero : ℤ → Bool
is_zero c = is_nonpos c && not (is_neg c)

unfoldable pub rwlock_unlock : RwLock → Step
rwlock_unlock l =
    if is_nonpos l.count && not l.writer_locked
    then panics
    else if l.writer_locked
    then granted (record l { writer_locked = false }) everybody
    else let count = decrement l.count in
      granted (record l { count = count }) (if is_zero count then one else nobody)

unfoldable pub rwlock_destroy : RwLock → RwLock
rwlock_destroy l = record l { count = neg 1 }

unfoldable pub rwlock_downgrade : RwLock → Step
rwlock_downgrade l =
    if not l.writer_locked
    then panics
    else granted (record { count = increment l.count; writer_locked = false }) everybody
