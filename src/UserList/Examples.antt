-- ===== src/UserList/Examples.antt =====
-- The list of user/libthread/ll.c with two nodes.
use custom_os_kernel.Base.{◌≡◌, refl, none, some, Option, [], ◌∷◌, sub32, if◌then◌else◌, inr}
use custom_os_kernel.Base.Int.{ℤ, pos, neg}
use custom_os_kernel.UserList.{Node, UserList, remove_from, ll_remove, ll_add}
use custom_os_kernel.UserList.Remove.{holds, without, remove-behind}

abbrev first : Node
first = record { address = 100; e = 7 }

abbrev second : Node
second = record { address = 200; e = 8 }

abbrev two_nodes : UserList
two_nodes = record { size = 2; nodes = first ∷ second ∷ []; tail = 200 }

-- The first node holds the word, and it is not found.
remove-behind_example : ll_remove (some two_nodes) 7 ≡ (
    if holds 7 (second ∷ [])
    then (
      pos 0,
      some (record { size = sub32 2 1; nodes = first ∷ without 7 (second ∷ []); tail = 200 }),
    )
    else (neg 1, some two_nodes))
remove-behind_example = remove-behind 2 200 7 first second [] (inr refl)

abbrev add_after : ℤ × Option UserList → Option (ℤ × Option UserList)
add_after (s, l) = ll_add 300 l 9

-- Once the last node was removed, the tail is that of a node that is gone, and adding goes through it.
tail_left : add_after (ll_remove (some two_nodes) 8) ≡ none
unfolding ll_remove remove_from ll_add
tail_left = refl
