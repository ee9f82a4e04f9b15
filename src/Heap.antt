-- ===== src/Heap.antt =====
-- The kernel heap as seen by kern/data_structures: list nodes at addresses, and commands over it.
pub mod Ends
pub mod Dll
pub mod Rules
use custom_os_kernel.Base.{ℕ, Bool, true, false, Option, none, some, ◌==◌, if◌then◌else◌}

abbrev pub Ptr : Type 0
Ptr = ℕ

abbrev pub null : Ptr
null = 0

-- `ll_node_t`: the word that it carries, and its neighbours.
pub record Node : Type 0 where
  pub e : ℕ
  pub next : Ptr
  pub prev : Ptr

abbrev pub node : ℕ → Ptr → Ptr → Node
node e next prev = record { e = e; next = next; prev = prev }

abbrev pub Heap : Type 0
Heap = Ptr → Option Node

unfoldable pub write : Heap → Ptr → Option Node → Heap
write h p c q = if q == p then c else h q

-- `fault` is an access through NULL or through an address that holds no node, `panic` a failed
-- ASSERT, `hang` a loop that used up its rounds.
pub data Outcome (A : Type 0) : Type 0 where
  done : A → Heap → Outcome A
  fault panic hang : Outcome A

abbrev pub M : Type 0 → Type 0
M A = Heap → Outcome A

abbrev pub pure : {A : Type 0} → A → M A
pure = done

module _ {A B : Type 0} where
  abbrev pub bind : Outcome A → (A → M B) → Outcome B
  bind (done a h) k = k a h
  bind fault k = fault
  bind panic k = panic
  bind hang k = hang

  infixl 5 ◌>>=◌ ◌>>◌
  abbrev pub ◌>>=◌ : M A → (A → M B) → M B
  ◌>>=◌ m k h = bind (m h) k

  abbrev pub ◌>>◌ : M A → M B → M B
  ◌>>◌ m k h = bind (m h) (λ _. k)

-- `ASSERT(b)`, with the contracts enabled.
unfoldable pub assert : Bool → M (Unit {0})
assert true h = done tt h
assert false h = panic

unfoldable pub load : Ptr → M Node
load p h = if p == null then fault else elim (h p) [ none ↦ fault | some n ↦ done n h ]

-- What `malloc` does when it returns `p`: NULL changes nothing, else the memory becomes live, and
-- what it holds is overwritten by the caller.
unfoldable pub alloc : Ptr → M (Unit {0})
alloc p h = if p == null then done tt h else done tt (write h p (some (node 0 null null)))

unfoldable pub store : Ptr → Node → M (Unit {0})
unfolding load
store p n = do load p; λ h. done tt (write h p (some n))

unfoldable pub set_next : Ptr → Ptr → M (Unit {0})
unfolding load
set_next p q = do n ← load p; λ h. done tt (write h p (some (record n { next = q })))

unfoldable pub set_prev : Ptr → Ptr → M (Unit {0})
unfolding load
set_prev p q = do n ← load p; λ h. done tt (write h p (some (record n { prev = q })))

unfoldable pub free : Ptr → M (Unit {0})
unfolding load
free p = do load p; λ h. done tt (write h p none)
