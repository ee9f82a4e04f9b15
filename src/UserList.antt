-- ===== src/UserList.antt =====
-- user/libthread/ll.c: the linked list of the user thread library. A list is the nodes that follow each
-- other from its head, and the address that it keeps of its tail, 0 being NULL. A result `none` is a
-- failed assertion, or a run that uses a node that the list does not hold.
pub mod Remove
mod Examples
use custom_os_kernel.Base.{
  ℕ, zero, suc, ◌+◌, Bool, true, false, not, ◌&&◌, Option, none, some, List, [], ◌∷◌, ◌++◌,
  if◌then◌else◌, ◌==◌, add32, sub32,
}
use custom_os_kernel.Base.Int.{ℤ, pos, neg}

-- `ll_node_t` and where it stands.
pub record Node : Type 0 where
  pub address : ℕ
  pub e : ℕ

-- `ll_t`
pub record UserList : Type 0 where
  pub size : ℕ
  pub nodes : List Node
  pub tail : ℕ

unfoldable pub ll_init : Option UserList → ℤ × Option UserList
ll_init none = (neg 1, none)
ll_init (some l) = (pos 0, some (record { size = 0; nodes = []; tail = 0 }))

abbrev pub last_address : ℕ → List Node → ℕ
last_address a [] = a
last_address a (n ∷ ns) = last_address n.address ns

abbrev pub added : UserList → Node → UserList
added l n = record { size = add32 l.size 1; nodes = l.nodes ++ (n ∷ []); tail = n.address }

-- `malloc` is the address of the new node.
unfoldable pub ll_add : (malloc : ℕ) → Option UserList → (value : ℕ) → Option (ℤ × Option UserList)
ll_add malloc none value = some (neg 1, none)
ll_add malloc (some l) value =
    if malloc == 0
    then some (neg 2, some l)
    else if l.tail == last_address 0 l.nodes
    then some (pos 0, some (added l (record { address = malloc; e = value })))
    else none

-- The second result is what is stored through `val`.
unfoldable pub ll_deq : Option UserList → Option (ℤ × Option ℕ × Option UserList)
ll_deq none = some (neg 1, none, none)
ll_deq (some l) = if l.size == 0 then some (neg 1, none, some l) else elim l.nodes [
  | [] ↦ none
  | n ∷ ns ↦ some (
    pos 0,
    some n.e,
    some (record {
      size = sub32 l.size 1;
      nodes = ns;
      tail = if n.address == l.tail then 0 else l.tail;
    }),
  )
]

-- How `ll_remove` ends: no node is found; the node where it stops is the one, and the list is reset; or
-- the node behind that is unlinked.
pub data Removal : Type 0 where
  missing : Removal
  reset : Removal
  unlinked : List Node → Removal

abbrev pub in_front : Node → Removal → Removal
in_front n missing = missing
in_front n reset = reset
in_front n (unlinked ns) = unlinked (n ∷ ns)

-- The loop, from where the nodes follow, and what comes after it.
unfoldable pub remove_from : (word : ℕ) → Node → List Node → Removal
remove_from d n [] = if n.e == d then reset else missing
remove_from d n (m ∷ ns) =
    if m.e == d
    then if n.e == d then reset else unlinked (n ∷ ns)
    else in_front n (remove_from d m ns)

abbrev pub removed : UserList → Removal → ℤ × Option UserList
removed l missing = (neg 1, some l)
removed l reset = (pos 0, some (record { size = sub32 l.size 1; nodes = []; tail = 0 }))
removed l (unlinked ns) = (pos 0, some (record l { size = sub32 l.size 1; nodes = ns }))

unfoldable pub ll_remove : Option UserList → (word : ℕ) → ℤ × Option UserList
ll_remove none d = (neg 1, none)
ll_remove (some l) d = elim l.nodes [
  | [] ↦ (neg 1, some l)
  | n ∷ ns ↦ removed l (remove_from d n ns)
]

unfoldable pub find_from : (func : ℕ → ℕ) → (c_val : ℕ) → List Node → ℤ × Option ℕ
find_from func c [] = (neg 1, none)
find_from func c (n ∷ ns) = if func n.e == c then (pos 0, some n.e) else find_from func c ns

-- A function of `none` is NULL.
unfoldable pub ll_find : Option UserList → (func : Option (ℕ → ℕ)) → (c_val : ℕ) → ℤ × Option ℕ
ll_find none func c = (neg 1, none)
ll_find (some l) none c = (neg 1, none)
ll_find (some l) (some func) c = find_from func c l.nodes

-- The nodes that the loop frees, in order.
abbrev pub destroy_from : List Node → List ℕ
destroy_from [] = []
destroy_from (n ∷ ns) = n.address ∷ destroy_from ns

unfoldable pub ll_destroy : Option UserList → List ℕ
ll_destroy none = []
ll_destroy (some l) = destroy_from l.nodes
