-- ===== src/Heap/Ends.antt =====
-- A command ends: no fault, no failed assertion, enough rounds; and the postcondition holds.
use custom_os_kernel.Heap.{Heap, Outcome, done, M, bind}

pub data Ends {A : Type 0} (P : A → Heap → Type 0) : Outcome A → Type 0 where
  ends : {a : A} {h : Heap} → P a h → Ends P (done a h)

module _ {A : Type 0} {P : A → Heap → Type 0} where
  pub and_then :
      {B : Type 0} {Q : B → Heap → Type 0} {o : Outcome A} {k : A → M B}
      → Ends P o
      → ((a : A) (h : Heap) → P a h → Ends Q (k a h))
      → Ends Q (bind o k)
  and_then (ends p) go_on = go_on _ _ p

  pub weaken :
      {Q : A → Heap → Type 0} {o : Outcome A}
      → Ends P o
      → ((a : A) (h : Heap) → P a h → Q a h)
      → Ends Q o
  weaken (ends p) imp = ends (imp _ _ p)
