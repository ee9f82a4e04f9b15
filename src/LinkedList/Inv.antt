-- ===== src/LinkedList/Inv.antt =====
-- Well-formed lists: what `ll_t` and the nodes hold for a list of cells.
use custom_os_kernel.Base.Int.{ℤ, pos}
use custom_os_kernel.Base.{
  ℕ, suc, arith, length-append, Option, some, ◌^◌, ◌<◌, ◌≡◌, refl, length, [], ◌∷◌, ◌++◌, ◌==◌,
  false,
}
use custom_os_kernel.Heap.{Ptr, null, Heap, node}
use custom_os_kernel.Heap.Dll.{
  Cells, has, Distinct, first, last, At, Dll, SameOutside, last-append, Distinct-append,
}
use custom_os_kernel.Heap.Rules.{not_null, last-At}
use custom_os_kernel.LinkedList.{Ll}

-- The nodes of `xs` are linked in this order, NULL at both ends, and can be counted in a word.
pub record Linked (h : Heap) (xs : Cells) : Type 0 where
  pub nodes : Dll h null xs null
  pub distinct : Distinct xs
  pub word : length xs < 2 ^ 32

-- The `ll_t` of the cells `xs`.
abbrev pub list_of : Cells → Ll
list_of xs = record { head = first xs null; tail = last null xs; size = length xs }

-- A node outside every list.
abbrev pub Detached : Heap → Ptr → ℕ → Type 0
Detached h b v = At h b (node v null null)

-- The head and tail tests that the code makes on a list that is not empty.
module _ {h : Heap} (ys : Cells) (t : Ptr) (w : ℕ) (l : Linked h (ys ++ ((t, w) ∷ []))) where
  pub tail-eq : last null (ys ++ ((t, w) ∷ [])) ≡ t
  tail-eq = last-append null ys ((t, w) ∷ [])

  pub tail-At : At h t (node w null (last null ys))
  tail-At = last-At h null ys t w null l.nodes l.distinct

  pub head-ne_null : (first (ys ++ ((t, w) ∷ [])) null == null) ≡ false
  head-ne_null = go ys l.nodes
    where
      go :
          (c : Cells)
          → Dll h null (c ++ ((t, w) ∷ [])) null
          → (first (c ++ ((t, w) ∷ [])) null == null) ≡ false
      go [] d = not_null d.0
      go (x ∷ c) d = not_null d.0

pub Linked-snoc :
    {g : Heap} (xs : Cells) (b v : ℕ)
    → Dll g null (xs ++ ((b, v) ∷ [])) null
    → Distinct xs
    → has b xs ≡ false
    → suc (length xs) < 2 ^ 32
    → Linked g (xs ++ ((b, v) ∷ []))
Linked-snoc xs b v d dis out room = record {
  nodes = d;
  distinct = Distinct-append xs ((b, v) ∷ []) dis (refl, tt) (λ a i. ground (arith));
  word = omega (arith, length-append xs ((b, v) ∷ []));
}

-- What a call on a list leaves: it returned 0, the list holds `ys`, and only nodes of `zs` were
-- written.
pub record Now (zs ys : Cells) (h : Heap) (r : ℤ × Option Ll) (g : Heap) : Type 0 where
  pub reply : r ≡ (pos 0, some (list_of ys))
  pub linked : Linked g ys
  pub same : SameOutside zs h g
