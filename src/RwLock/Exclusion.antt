-- ===== src/RwLock/Exclusion.antt =====
-- A writer holds a readers-writer lock alone.
use custom_os_kernel.Base.{ℕ, zero, suc, ◌≡◌, ◌≢◌, refl, ap, ap₂, subst, Bool, true, false, arith}
use custom_os_kernel.Base.Int.{pos}
use custom_os_kernel.RwLock.{
  RwLock, read, write, Wakes, Step, granted, waits, panics, rwlock_lock, rwlock_unlock,
  rwlock_downgrade,
}

-- The locks that calls of holders and of threads that want to hold them reach, with the number of
-- readers that hold them, and whether a writer does.
pub data Held : RwLock → (readers : ℕ) → (writer : Bool) → Type 0 where
  free : Held (record { count = pos 0; writer_locked = false }) 0 false
  reads :
      {l l' : RwLock} {r : ℕ} {w : Bool} {k : Wakes}
      → Held l r w
      → rwlock_lock read l ≡ granted l' k
      → Held l' (suc r) w
  writes :
      {l l' : RwLock} {r : ℕ} {w : Bool} {k : Wakes}
      → Held l r w
      → rwlock_lock write l ≡ granted l' k
      → Held l' r true
  reader_leaves :
      {l l' : RwLock} {r : ℕ} {w : Bool} {k : Wakes}
      → Held l (suc r) w
      → rwlock_unlock l ≡ granted l' k
      → Held l' r w
  writer_leaves :
      {l l' : RwLock} {r : ℕ} {k : Wakes}
      → Held l r true
      → rwlock_unlock l ≡ granted l' k
      → Held l' r false
  downgrades :
      {l l' : RwLock} {r : ℕ} {k : Wakes}
      → Held l r true
      → rwlock_downgrade l ≡ granted l' k
      → Held l' (suc r) false

-- The lock counts its readers and knows its writer, who is alone.
pub record Excludes (l : RwLock) (readers : ℕ) (writer : Bool) : Type 0 where
  pub counted : l.count ≡ pos readers
  pub known : l.writer_locked ≡ writer
  pub alone : writer ≡ true → readers ≡ 0

abbrev lock_of : ℕ → Bool → RwLock
lock_of r w = record { count = pos r; writer_locked = w }

-- The lock of a granted step.
abbrev lock_in : RwLock → Step → RwLock
lock_in d (granted l k) = l
lock_in d waits = d
lock_in d panics = d

-- A step that grants one lock grants no other.
granted-Excludes :
    {l l' : RwLock} {k k' : Wakes} {r : ℕ} {w : Bool}
    → granted l k ≡ granted l' k'
    → Excludes l r w
    → Excludes l' r w
granted-Excludes {l} {r = r} {w = w} e x = subst (λ y. Excludes y r w) (ap (lock_in l) e) x

module _ {l' : RwLock} {k : Wakes} where
  reads-Excludes :
      (r : ℕ) (w : Bool) → rwlock_lock read (lock_of r w) ≡ granted l' k → Excludes l' (suc r) w
  unfolding rwlock_lock
  reads-Excludes r true e = absurd (waits-ne_granted l' k e)
    where
      waits-ne_granted : (y : RwLock) (j : Wakes) → waits ≢ granted y j
      waits-ne_granted y j = cc
  reads-Excludes r false e =
      granted-Excludes e (record { counted = refl; known = refl; alone = cc })

  writes-Excludes :
      (r : ℕ) (w : Bool) → rwlock_lock write (lock_of r w) ≡ granted l' k → Excludes l' r true
  unfolding rwlock_lock
  writes-Excludes zero true e = ground (arith, e)
  writes-Excludes (suc r) true e = ground (arith, e)
  writes-Excludes zero false e =
      granted-Excludes e (record { counted = refl; known = refl; alone = λ t. refl })
  writes-Excludes (suc r) false e = ground (arith, e)

  reader_leaves-Excludes :
      (r : ℕ) (w : Bool)
      → (w ≡ true → suc r ≡ 0)
      → rwlock_unlock (lock_of (suc r) w) ≡ granted l' k
      → Excludes l' r w
  unfolding rwlock_unlock
  reader_leaves-Excludes r true alone e = absurd (suc-ne (alone refl))
    where
      suc-ne : suc r ≢ 0
      suc-ne e = omega arith
  reader_leaves-Excludes r false alone e =
      granted-Excludes e (record { counted = refl; known = refl; alone = cc })

  writer_leaves-Excludes :
      (r : ℕ) → rwlock_unlock (lock_of r true) ≡ granted l' k → Excludes l' r false
  unfolding rwlock_unlock
  writer_leaves-Excludes zero e =
      granted-Excludes e (record { counted = refl; known = refl; alone = cc })
  writer_leaves-Excludes (suc r) e =
      granted-Excludes e (record { counted = refl; known = refl; alone = cc })

  downgrades-Excludes :
      (r : ℕ) → rwlock_downgrade (lock_of r true) ≡ granted l' k → Excludes l' (suc r) false
  unfolding rwlock_downgrade
  downgrades-Excludes r e = granted-Excludes e (record { counted = refl; known = refl; alone = cc })

-- The fields of a lock, once they are known.
lock-eq : (l : RwLock) (r : ℕ) (w : Bool) → Excludes l r w → l ≡ lock_of r w
lock-eq l r w x = ap₂ (λ c b. record { count = c; writer_locked = b }) x.counted x.known

-- Whatever sequence of granted calls led to a lock, its count is the number of its readers, its flag
-- says whether a writer holds it, and where one does no reader holds it.
pub Held-Excludes :
    (l : RwLock) (readers : ℕ) (writer : Bool) → Held l readers writer → Excludes l readers writer
Held-Excludes l readers writer free = record { counted = refl; known = refl; alone = λ e. refl }
Held-Excludes l readers writer (reads {l = l0} {r = r0} {k = k} h e) =
    let x = Held-Excludes l0 r0 writer h in
    reads-Excludes r0 writer
      (subst (λ y. rwlock_lock read y ≡ granted l k) (lock-eq l0 r0 writer x) e)
Held-Excludes l readers writer (writes {l = l0} {w = w0} {k = k} h e) =
    let x = Held-Excludes l0 readers w0 h in
    writes-Excludes readers w0
      (subst (λ y. rwlock_lock write y ≡ granted l k) (lock-eq l0 readers w0 x) e)
Held-Excludes l readers writer (reader_leaves {l = l0} {k = k} h e) =
    let x = Held-Excludes l0 (suc readers) writer h in
    reader_leaves-Excludes readers writer x.alone
      (subst (λ y. rwlock_unlock y ≡ granted l k) (lock-eq l0 (suc readers) writer x) e)
Held-Excludes l readers writer (writer_leaves {l = l0} {k = k} h e) =
    let x = Held-Excludes l0 readers true h in
    writer_leaves-Excludes readers
      (subst (λ y. rwlock_unlock y ≡ granted l k) (lock-eq l0 readers true x) e)
Held-Excludes l readers writer (downgrades {l = l0} {r = r0} {k = k} h e) =
    let x = Held-Excludes l0 r0 true h in
    downgrades-Excludes r0 (subst (λ y. rwlock_downgrade y ≡ granted l k) (lock-eq l0 r0 true x) e)

write_granted :
    (r : ℕ) (w : Bool) (l' : RwLock) (k : Wakes)
    → rwlock_lock write (lock_of r w) ≡ granted l' k
    → (r ≡ 0) × (w ≡ false)
unfolding rwlock_lock
write_granted zero true l' k e = ground (arith, e)
write_granted (suc r) true l' k e = ground (arith, e)
write_granted zero false l' k e = (refl, refl)
write_granted (suc r) false l' k e = ground (arith, e)

-- A thread that is granted the lock as a writer, whatever sequence of granted calls came before, finds
-- neither a reader nor a writer that holds it, and then a writer holds it alone.
pub write-Excludes :
    (l : RwLock) (readers : ℕ) (writer : Bool) (l' : RwLock) (k : Wakes)
    → Held l readers writer
    → rwlock_lock write l ≡ granted l' k
    → (readers ≡ 0) × (writer ≡ false) × Excludes l' 0 true
write-Excludes l readers writer l' k h e =
    let x = Held-Excludes l readers writer h in
    let e' = subst (λ y. rwlock_lock write y ≡ granted l' k) (lock-eq l readers writer x) e in
    let (no_readers, no_writer) = write_granted readers writer l' k e' in
    (
      no_readers,
      no_writer,
      subst (λ r. Excludes l' r true) no_readers (writes-Excludes readers writer e'),
    )
