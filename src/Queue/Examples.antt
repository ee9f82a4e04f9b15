-- ===== src/Queue/Examples.antt =====
-- The theorems of queue.c and stack.c at a list of one node.
use custom_os_kernel.Base.{none, some, [], ◌∷◌, arith, if◌then◌else◌, ◌==◌}
use custom_os_kernel.Heap.{Heap, null, node}
use custom_os_kernel.Heap.Dll.{Cells}
use custom_os_kernel.LinkedList.Inv.{Linked}

abbrev cells : Cells
cells = (8, 5) ∷ []

abbrev heap : Heap
heap p = if p == 8 then some (node 5 null null) else none

cells-Linked : Linked heap cells
cells-Linked = ground arith
