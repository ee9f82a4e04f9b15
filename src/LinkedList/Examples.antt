-- ===== src/LinkedList/Examples.antt =====
-- The theorems of ll.c at a list of three nodes, and runs of its functions.
use custom_os_kernel.Base.{
  ℕ, ◌+◌, ◌≡◌, refl, true, false, none, some, [], ◌∷◌, arith, ltb, if◌then◌else◌, ◌==◌,
}
use custom_os_kernel.Base.Int.{ℤ, pos, neg, is_neg, is_nonpos}
use custom_os_kernel.Heap.{Heap, null, node}
use custom_os_kernel.Heap.Ends.{Ends}
use custom_os_kernel.Heap.Dll.{Cells}
use custom_os_kernel.LinkedList.{ll_unlink_node}
use custom_os_kernel.LinkedList.Loops.{ll_remove, ll_link_node_sorted}
use custom_os_kernel.LinkedList.Inv.{Linked, list_of, Detached, Now}
use custom_os_kernel.LinkedList.Unlink.{unlink_lem}
use custom_os_kernel.LinkedList.Search.{Gone, noted, remove-some}
use custom_os_kernel.LinkedList.Sorted.{IsSorted, place, insert, link-IsSorted}

abbrev cells : Cells
cells = (8, 5) ∷ (16, 7) ∷ (24, 9) ∷ []

-- The three nodes, and a node at 32 outside the list.
abbrev heap : Heap
heap p =
    if p == 8
    then some (node 5 16 null)
    else if p == 16
    then some (node 7 24 8)
    else if p == 24
    then some (node 9 null 16)
    else if p == 32
    then some (node 6 null null)
    else none

cells-Linked : Linked heap cells
cells-Linked = ground arith

spare-Detached : Detached heap 32 6
spare-Detached = ground arith

abbrev compare_words : ℕ → ℕ → ℤ
compare_words a b = if ltb a b then neg 1 else if a == b then pos 0 else pos 1

compare_words_connex :
    (u w : ℕ) → is_neg (compare_words u w) ≡ false → is_nonpos (compare_words w u) ≡ true
compare_words_connex u w h = ground arith

unlink_lem_example :
    Ends
      (λ r g. Now cells ((8, 5) ∷ (24, 9) ∷ []) heap r g × Detached g 16 7)
      (ll_unlink_node (some (list_of cells)) 16 heap)
unlink_lem_example = unlink_lem 16 7 ((8, 5) ∷ []) ((24, 9) ∷ []) cells-Linked

remove-some_example :
    Ends
      (Gone
        ((8, 5) ∷ [])
        ((24, 9) ∷ [])
        16
        7
        (pos 0, some 7, some (list_of ((8, 5) ∷ (24, 9) ∷ [])), noted 16 none)
        none
        heap)
      (ll_remove (some (list_of cells)) (some (λ v. v + 1)) 8 true none heap)
remove-some_example =
    remove-some (λ v. v + 1) 8 ((8, 5) ∷ []) 16 7 ((24, 9) ∷ []) cells-Linked (refl, tt) refl true
      none

link-IsSorted_example :
    Ends
      (λ r g.
        Now ((32, 6) ∷ cells) (insert compare_words (32, 6) cells) heap r g
        × IsSorted compare_words (insert compare_words (32, 6) cells))
      (ll_link_node_sorted (some (list_of cells)) 32 (some compare_words) heap)
link-IsSorted_example =
    link-IsSorted compare_words compare_words_connex 32 6 cells spare-Detached refl cells-Linked
      refl (omega arith) (refl, (refl, tt)) (refl, (refl, (refl, tt)))

inserted_in_order : insert compare_words (32, 6) cells ≡ (8, 5) ∷ (32, 6) ∷ (16, 7) ∷ (24, 9) ∷ []
unfolding insert place
inserted_in_order = refl
