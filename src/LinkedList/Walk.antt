-- ===== src/LinkedList/Walk.antt =====
-- `ll_destroy` and `ll_foreach` reach every node, each once, and end.
use custom_os_kernel.Base.{
  ℕ, zero, suc, ◌+◌, ◌<◌, ◌≡◌, refl, sym, ap, ◌∙◌, none, some, List, [], ◌∷◌, ◌++◌, arith, length,
  append_assoc, append-nil, if◌then◌else◌,
}
use custom_os_kernel.Heap.{Ptr, null, Heap, write, done}
use custom_os_kernel.Heap.Ends.{Ends, ends, weaken}
use custom_os_kernel.Heap.Dll.{Cells, has, Distinct, first, Dll, Dll-write}
use custom_os_kernel.Heap.Rules.{not_null, load-At, free-At}
use custom_os_kernel.LinkedList.Loops.{destroy_loop, ll_destroy, foreach_loop, ll_foreach}
use custom_os_kernel.LinkedList.Inv.{Linked, list_of}

-- `g` is `h` less the nodes of `xs`.
abbrev pub Without : Cells → Heap → Heap → Type 0
Without xs h g = (a : Ptr) → g a ≡ (if has a xs then none else h a)

destroy_loop-Without :
    (k : ℕ) (h : Heap) (p : Ptr) (xs : Cells)
    → Dll h p xs null
    → Distinct xs
    → length xs < k
    → Ends (λ _ g. Without xs h g) (destroy_loop k (first xs null) h)
unfolding destroy_loop write
destroy_loop-Without zero h p xs d dis fuel = absurd (omega arith)
destroy_loop-Without (suc k) h p [] d dis fuel = ends (λ a. refl)
destroy_loop-Without (suc k) h p ((a, v) ∷ xs) d dis fuel =
    rw (not_null d.0, load-At d.0, free-At d.0)
      (weaken
        (destroy_loop-Without k (write h a none) a xs (Dll-write h a xs null a none d.1 dis.0) dis.1
          (omega arith))
        (λ _ g gone b. ground (arith, gone b)))

-- On a well-formed list the walk ends, without a fault, and frees exactly the nodes of the list.
pub destroy_lem :
    {h : Heap} (xs : Cells)
    → Linked h xs
    → Ends (λ _ g. Without xs h g) (ll_destroy (some (list_of xs)) h)
unfolding ll_destroy
destroy_lem xs l = destroy_loop-Without (length xs + 1) _ null xs l.nodes l.distinct (omega arith)

-- The words of the cells, in order.
abbrev pub words : Cells → List ℕ
words [] = []
words ((a, v) ∷ xs) = v ∷ words xs

foreach_loop-words :
    (k : ℕ) {h : Heap} (p : Ptr) (xs : Cells) (calls : List ℕ)
    → Dll h p xs null
    → length xs < k
    → foreach_loop k (first xs null) calls h ≡ done (calls ++ words xs) h
unfolding foreach_loop
foreach_loop-words zero p xs calls d fuel = absurd (omega arith)
foreach_loop-words (suc k) {h} p [] calls d fuel = ap (λ c. done c h) (sym (append-nil calls))
foreach_loop-words (suc k) {h} p ((a, v) ∷ xs) calls d fuel =
    rw (not_null d.0, load-At d.0)
      (foreach_loop-words k a xs (calls ++ (v ∷ [])) d.1 (omega arith)
        ∙ ap (λ c. done c h) (append_assoc calls (v ∷ []) (words xs)))

-- On a well-formed list the walk ends, and calls the function on every word of the list, in order;
-- the nodes stay as they are.
pub foreach_lem :
    {h : Heap} (xs : Cells) → Linked h xs → ll_foreach (some (list_of xs)) h ≡ done (words xs) h
unfolding ll_foreach
foreach_lem xs l = foreach_loop-words (length xs + 1) null xs [] l.nodes (omega arith)
