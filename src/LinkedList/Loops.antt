-- ===== src/LinkedList/Loops.antt =====
-- The functions of kern/data_structures/ll.c that walk along a list. A walk runs for `size + 1`
-- rounds at most, which a well-formed list never uses up.
use custom_os_kernel.Base.{
  ℕ, zero, suc, ◌+◌, Bool, not, ◌&&◌, Option, none, some, List, [], ◌∷◌, ◌++◌, if◌then◌else◌, ◌==◌,
  add32,
}
use custom_os_kernel.Base.Int.{ℤ, pos, neg, is_neg, is_nonpos}
use custom_os_kernel.CircBuf.{CircBuf}
use custom_os_kernel.Heap.{
  Ptr, null, hang, M, pure, ◌>>=◌, ◌>>◌, assert, load, set_next, set_prev, free,
}
use custom_os_kernel.LinkedList.{Ll, stored, ll_link_node_first, ll_link_node_last, ll_remove_node}

-- The first node from `p` on whose word `func` takes to `c_val`.
unfoldable pub find_loop : (rounds : ℕ) → (func : ℕ → ℕ) → (c_val : ℕ) → Ptr → M (Option Ptr)
find_loop zero func c_val p = λ _. hang
find_loop (suc k) func c_val p =
    if p == null
    then pure none
    else do n ← load p; if func n.e == c_val then pure (some p) else find_loop k func c_val n.next

unfoldable pub ll_find : Option Ll → (func : Option (ℕ → ℕ)) → (c_val : ℕ) → M (ℤ × Option ℕ)
ll_find none func c_val = pure (neg 1, none)
ll_find (some l) none c_val = pure (neg 1, none)
ll_find (some l) (some func) c_val = do
  found ← find_loop (l.size + 1) func c_val l.head
  elim found [ none ↦ pure (neg 2, none) | some p ↦ do n ← load p; pure (pos 0, some n.e) ]

unfoldable pub ll_remove :
    Option Ll
    → (func : Option (ℕ → ℕ)) → (c_val : ℕ) → (wanted : Bool) → (addrs : Option CircBuf)
    → M (ℤ × Option ℕ × Option Ll × Option CircBuf)
ll_remove none func c_val wanted addrs = pure (neg 1, none, none, addrs)
ll_remove (some l) none c_val wanted addrs = pure (neg 1, none, some l, addrs)
ll_remove (some l) (some func) c_val wanted addrs = do
  found ← find_loop (l.size + 1) func c_val l.head
  elim found [
    | none ↦ pure (neg 2, none, some l, addrs)
    | some p ↦ do
      n ← load p
      (s, l', addrs') ← ll_remove_node (some l) p addrs
      pure (s, stored wanted n.e, l', addrs')
  ]

-- The node behind which the word `v` goes, from `p` on; `none` is a node that carries NULL.
unfoldable pub sorted_loop : (rounds : ℕ) → (cmp : ℕ → ℕ → ℤ) → (v : ℕ) → Ptr → M (Option Ptr)
sorted_loop zero cmp v p = λ _. hang
sorted_loop (suc k) cmp v p = do
  n ← load p
  if n.next == null then pure (some p) else if n.e == null then pure none else do
    m ← load n.next
    assert (is_nonpos (cmp n.e m.e))
    if not (is_neg (cmp v n.e)) && is_nonpos (cmp v m.e)
        then pure (some p)
        else sorted_loop k cmp v n.next

-- Links `b` in behind `p`, which has a successor.
unfoldable pub link_behind : Ll → Ptr → Ptr → M (ℤ × Option Ll)
link_behind l p b = do
  n ← load p
  set_prev n.next b
  set_next b n.next
  set_next p b
  set_prev b p
  pure (pos 0, some (record l { size = add32 l.size 1 }))

unfoldable pub ll_link_node_sorted :
    Option Ll → Ptr → (cmp : Option (ℕ → ℕ → ℤ)) → M (ℤ × Option Ll)
ll_link_node_sorted none b cmp = pure (neg 1, none)
ll_link_node_sorted (some l) b none = pure (neg 1, some l)
ll_link_node_sorted (some l) b (some cmp) = if b == null then pure (neg 1, some l) else do
  n ← load b
  if n.e == null
      then pure (neg 2, some l)
      else if l.head == null
      then ll_link_node_last (some l) b
      else do
        m ← load l.head
        if is_neg (cmp n.e m.e) then ll_link_node_first (some l) b else do
          at ← sorted_loop (l.size + 1) cmp n.e l.head
          elim at [
            | none ↦ pure (neg 2, some l)
            | some p ↦ do
              c ← load p
              if c.next == null then ll_link_node_last (some l) b else link_behind l p b
          ]

unfoldable pub destroy_loop : (rounds : ℕ) → Ptr → M (Unit {0})
destroy_loop zero p = λ _. hang
destroy_loop (suc k) p = if p == null then pure tt else do n ← load p; free p; destroy_loop k n.next

unfoldable pub ll_destroy : Option Ll → M (Unit {0})
ll_destroy none = pure tt
ll_destroy (some l) = destroy_loop (l.size + 1) l.head

-- The words that `f` is called on, in order, where `f` leaves the nodes alone.
unfoldable pub foreach_loop : (rounds : ℕ) → Ptr → List ℕ → M (List ℕ)
foreach_loop zero p calls = λ _. hang
foreach_loop (suc k) p calls =
    if p == null then pure calls else do n ← load p; foreach_loop k n.next (calls ++ (n.e ∷ []))

unfoldable pub ll_foreach : Option Ll → M (List ℕ)
ll_foreach none = pure []
ll_foreach (some l) = foreach_loop (l.size + 1) l.head []
