-- ===== src/LinkedList.antt =====
-- kern/data_structures/ll.c: doubly linked lists. The `ll_t` stands outside the heap of nodes, so a
-- function that updates `*ll` returns it; a pointer to it is an `Option`, whose `none` is NULL. A
-- value that goes through an output pointer is an `Option` too, and `wanted` says that the pointer
-- is not NULL. `malloc` is the
-- address that it returns.
pub mod Inv
pub mod Link
pub mod Unlink
pub mod Search
pub mod Sorted
pub mod Behind
pub mod Walk
mod Examples
pub mod Remove
pub mod Loops
use custom_os_kernel.Base.{
  ℕ, Bool, not, ◌&&◌, ◌||◌, Option, none, some, if◌then◌else◌, ◌==◌, add32, sub32,
}
use custom_os_kernel.Base.Int.{ℤ, pos, neg, is_neg, to_int}
use custom_os_kernel.CircBuf
use custom_os_kernel.CircBuf.{CircBuf}
use custom_os_kernel.Heap.{
  Ptr, null, node, M, pure, ◌>>=◌, ◌>>◌, alloc, assert, load, store, set_next, set_prev, free,
}

-- `ll_t`
pub record Ll : Type 0 where
  pub head : Ptr
  pub tail : Ptr
  pub size : ℕ

abbrev pub when : Bool → M (Unit {0}) → M (Unit {0})
when b m = if b then m else pure tt

unfoldable pub ll_node_init : Ptr → ℕ → M ℤ
ll_node_init p v = if p == null then pure (neg 1) else do store p (node v null null); pure (pos 0)

unfoldable pub ll_node_get_data : Ptr → M (ℤ × Option ℕ)
ll_node_get_data p = if p == null then pure (neg 1, none) else do n ← load p; pure (pos 0, some n.e)

unfoldable pub ll_init : Option Ll → ℤ × Option Ll
ll_init none = (neg 1, none)
ll_init (some l) = (pos 0, some (record { head = null; tail = null; size = 0 }))

unfoldable pub ll_link_node_last : Option Ll → Ptr → M (ℤ × Option Ll)
ll_link_node_last none b = pure (neg 1, none)
ll_link_node_last (some l) b =
    if b == null
    then pure (neg 1, some l)
    else if l.head == null
    then (do
      assert (l.tail == null)
      pure (pos 0, some (record { head = b; tail = b; size = add32 l.size 1 })))
    else do
      set_next l.tail b
      set_prev b l.tail
      pure (pos 0, some (record l { tail = b; size = add32 l.size 1 }))

unfoldable pub ll_link_node_first : Option Ll → Ptr → M (ℤ × Option Ll)
ll_link_node_first none b = pure (neg 1, none)
ll_link_node_first (some l) b =
    if b == null
    then pure (neg 1, some l)
    else if l.head == null
    then (do
      assert (l.tail == null)
      pure (pos 0, some (record { head = b; tail = b; size = add32 l.size 1 })))
    else do
      set_prev l.head b
      set_next b l.head
      pure (pos 0, some (record l { head = b; size = add32 l.size 1 }))

unfoldable pub ll_add_last : (malloc : Ptr) → Option Ll → ℕ → M (ℤ × Option Ll)
ll_add_last malloc none v = pure (neg 1, none)
ll_add_last malloc (some l) v = do
  alloc malloc
  s ← ll_node_init malloc v
  if is_neg s then pure (neg 2, some l) else ll_link_node_last (some l) malloc

unfoldable pub ll_add_first : (malloc : Ptr) → Option Ll → ℕ → M (ℤ × Option Ll)
ll_add_first malloc none v = pure (neg 1, none)
ll_add_first malloc (some l) v = do
  alloc malloc
  s ← ll_node_init malloc v
  if is_neg s then pure (neg 2, some l) else ll_link_node_first (some l) malloc

abbrev pub stored : (wanted : Bool) → ℕ → Option ℕ
stored wanted v = if wanted then some v else none

unfoldable pub ll_remove_first : Option Ll → (wanted : Bool) → M (ℤ × Option ℕ × Option Ll)
ll_remove_first none wanted = pure (neg 1, none, none)
ll_remove_first (some l) wanted = if l.size == 0 then pure (neg 2, none, some l) else do
  let tail' = if l.head == l.tail then null else l.tail
  n ← load l.head
  when (not (n.next == null)) (set_prev n.next null)
  n' ← load l.head
  free l.head
  let l' : Ll = record { head = n.next; tail = tail'; size = sub32 l.size 1 }
  pure (pos 0, stored wanted n'.e, some l')

unfoldable pub ll_remove_last : Option Ll → (wanted : Bool) → M (ℤ × Option ℕ × Option Ll)
ll_remove_last none wanted = pure (neg 1, none, none)
ll_remove_last (some l) wanted = if l.size == 0 then pure (neg 2, none, some l) else do
  let head' = if l.tail == l.head then null else l.head
  n ← load l.tail
  when (not (n.prev == null)) (set_next n.prev null)
  n' ← load l.tail
  free l.tail
  let l' : Ll = record { head = head'; tail = n.prev; size = sub32 l.size 1 }
  pure (pos 0, stored wanted n'.e, some l')

unfoldable pub ll_peek : Option Ll → (wanted : Bool) → M (ℤ × Option ℕ)
ll_peek none wanted = pure (neg 1, none)
ll_peek (some l) wanted =
    if not wanted || l.size == 0
    then pure (neg 1, none)
    else do n ← load l.head; pure (pos 0, some n.e)

unfoldable pub ll_rotate : Option Ll → M (ℤ × Option Ll)
ll_rotate none = pure (neg 1, none)
ll_rotate (some l) =
    if l.size == 0 then pure (neg 2, some l) else if l.size == 1 then pure (pos 0, some l) else do
      n ← load l.head
      set_prev n.next null
      set_next l.head null
      set_prev l.head l.tail
      set_next l.tail l.head
      pure (pos 0, some (record l { head = n.next; tail = l.head }))

-- The new head and tail of `ll_unlink_node`.
unfoldable pub unlinked_ends : Ll → Ptr → M Ll
unlinked_ends l p =
    if p == l.head && p == l.tail
    then pure (record l { head = null; tail = null })
    else if p == l.head
    then (do n ← load p; pure (record l { head = n.next }))
    else if p == l.tail
    then (do n ← load p; pure (record l { tail = n.prev }))
    else pure l

unfoldable pub ll_unlink_node : Option Ll → Ptr → M (ℤ × Option Ll)
ll_unlink_node none p = pure (neg 1, none)
ll_unlink_node (some l) p = if p == null || l.size == 0 then pure (neg 1, some l) else do
  l' ← unlinked_ends l p
  n ← load p
  when (not (n.next == null)) (set_prev n.next n.prev)
  n' ← load p
  when (not (n'.prev == null)) (set_next n'.prev n'.next)
  set_next p null
  set_prev p null
  pure (pos 0, some (record l' { size = sub32 l.size 1 }))

-- `addrs_to_free` takes the address where it is not NULL; what `circ_buf_write` returns is dropped.
unfoldable pub ll_remove_node :
    Option Ll → Ptr → (addrs : Option CircBuf) → M (ℤ × Option Ll × Option CircBuf)
ll_remove_node none p addrs = pure (neg 1, none, addrs)
ll_remove_node (some l) p addrs = if p == null then pure (neg 1, some l, addrs) else do
  (_, l') ← ll_unlink_node (some l) p
  elim addrs [
    | none ↦ do free p; pure (pos 0, l', none)
    | some c ↦ let (_, c') = CircBuf.write (some c) p in pure (pos 0, l', c')
  ]

-- The size is converted to `int`, so from 2^31 on it reads as a negative number.
unfoldable pub ll_size : Option Ll → ℤ
ll_size none = neg 1
ll_size (some l) = to_int l.size

unfoldable pub ll_head : Option Ll → (wanted : Bool) → ℤ × Option Ptr
ll_head none wanted = (neg 1, none)
ll_head (some l) wanted = if wanted then (pos 0, some l.head) else (neg 1, none)

unfoldable pub ll_tail : Option Ll → (wanted : Bool) → ℤ × Option Ptr
ll_tail none wanted = (neg 1, none)
ll_tail (some l) wanted = if wanted then (pos 0, some l.tail) else (neg 1, none)
