-- ===== src/Queue.antt =====
-- kern/data_structures/queue.c and kern/data_structures/stack.c: a queue and a stack over a linked
-- list. A `queue_t` or `stack_t` is the list that its pointer reaches, `none` for NULL; a pointer to
-- it is an `Option` again. `malloc` is the address of a new list node.
pub mod Order
mod Examples
use custom_os_kernel.Base.{ℕ, Bool, Option, none, some}
use custom_os_kernel.Base.Int.{ℤ, pos, neg}
use custom_os_kernel.Heap.{Ptr, M, pure, ◌>>=◌}
use custom_os_kernel.LinkedList.{
  Ll, ll_init, ll_add_last, ll_add_first, ll_remove_first, ll_peek, ll_size,
}
use custom_os_kernel.LinkedList.Loops.{ll_destroy}

-- `queue_t`, and `stack_t`
pub record Queue : Type 0 where
  pub ll : Option Ll

pub record Stack : Type 0 where
  pub ll : Option Ll

-- The list that `malloc` gives, its contents not set.
unfoldable pub queue_init : (malloc : Option Ll) → Option Queue → ℤ × Option Queue
queue_init malloc none = (neg 1, none)
queue_init malloc (some q) = let (s, l) = ll_init malloc in (s, some (record { ll = l }))

unfoldable pub queue_enq : (malloc : Ptr) → Option Queue → ℕ → M (ℤ × Option Queue)
queue_enq malloc none v = pure (neg 1, none)
queue_enq malloc (some q) v = do
  (s, l) ← ll_add_last malloc q.ll v
  pure (s, some (record { ll = l }))

unfoldable pub queue_deq : Option Queue → (wanted : Bool) → M (ℤ × Option ℕ × Option Queue)
queue_deq none wanted = pure (neg 1, none, none)
queue_deq (some q) wanted = do
  (s, v, l) ← ll_remove_first q.ll wanted
  pure (s, v, some (record { ll = l }))

-- Frees the nodes, and then the list itself.
unfoldable pub queue_destroy : Option Queue → M (Unit {0})
queue_destroy none = pure tt
queue_destroy (some q) = ll_destroy q.ll

unfoldable pub queue_peek : Option Queue → (wanted : Bool) → M (ℤ × Option ℕ)
queue_peek none wanted = pure (neg 1, none)
queue_peek (some q) wanted = ll_peek q.ll wanted

unfoldable pub queue_size : Option Queue → ℤ
queue_size none = neg 1
queue_size (some q) = ll_size q.ll

unfoldable pub stack_init : (malloc : Option Ll) → Option Stack → ℤ × Option Stack
stack_init malloc none = (neg 1, none)
stack_init malloc (some t) = let (s, l) = ll_init malloc in (s, some (record { ll = l }))

unfoldable pub stack_push : (malloc : Ptr) → Option Stack → ℕ → M (ℤ × Option Stack)
stack_push malloc none v = pure (neg 1, none)
stack_push malloc (some t) v = do
  (s, l) ← ll_add_first malloc t.ll v
  pure (s, some (record { ll = l }))

unfoldable pub stack_pop : Option Stack → (wanted : Bool) → M (ℤ × Option ℕ × Option Stack)
stack_pop none wanted = pure (neg 1, none, none)
stack_pop (some t) wanted = do
  (s, v, l) ← ll_remove_first t.ll wanted
  pure (s, v, some (record { ll = l }))

-- Frees the nodes, and then the stack itself, not its list.
unfoldable pub stack_destroy : Option Stack → M (Unit {0})
stack_destroy none = pure tt
stack_destroy (some t) = ll_destroy t.ll

unfoldable pub stack_peek : Option Stack → (wanted : Bool) → M (ℤ × Option ℕ)
stack_peek none wanted = pure (neg 1, none)
stack_peek (some t) wanted = ll_peek t.ll wanted

unfoldable pub stack_size : Option Stack → ℤ
stack_size none = neg 1
stack_size (some t) = ll_size t.ll
