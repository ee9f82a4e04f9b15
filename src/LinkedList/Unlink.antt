-- ===== src/LinkedList/Unlink.antt =====
-- `ll_unlink_node` takes a node out of the middle, the front or the back, and detaches it.
use custom_os_kernel.Base.{
  ℕ, ◌≡◌, refl, true, false, some, [], ◌∷◌, ◌++◌, arith, length, length-append, append-nil, ◌==◌,
  sub32,
}
use custom_os_kernel.Base.Int.{pos}
use custom_os_kernel.Heap.{Ptr, null, Heap, node, write, done}
use custom_os_kernel.Heap.Ends.{Ends, ends, and_then}
use custom_os_kernel.Heap.Dll.{
  Cells, has, Disjoint, first, last, At, Dll, SameOutside, Dll-append, Dll-write, Dll-frame,
  Dll-front, Dll-back, Distinct-append, Distinct-split, last-append, has-append,
}
use custom_os_kernel.Heap.Rules.{
  not_null, load-At, set_next-At, set_prev-At, At-write_self, At-same, last-ne, fix_first, fix_last,
  apart_sym,
}
use custom_os_kernel.LinkedList.{unlinked_ends, ll_unlink_node}
use custom_os_kernel.LinkedList.Inv.{Linked, list_of, Detached, Now}

module _ {h : Heap} (a v : ℕ) (xs ys : Cells) (l : Linked h (xs ++ ((a, v) ∷ ys))) where
  pub node-At : At h a (node v (first ys null) (last null xs))
  node-At = (Dll-back h null xs ((a, v) ∷ ys) null l.nodes).0

  pub not-before : has a xs ≡ false
  not-before =
      apart_sym xs ((a, v) ∷ ys) a (Distinct-split xs ((a, v) ∷ ys) l.distinct).2 (ground arith)

  pub not-behind : has a ys ≡ false
  not-behind = (Distinct-split xs ((a, v) ∷ ys) l.distinct).1.0

  apart : Disjoint xs ys
  apart b i = ground (arith, (Distinct-split xs ((a, v) ∷ ys) l.distinct).2 b i)

ends-ok :
    {h : Heap} (a v : ℕ) (xs ys : Cells)
    → Linked h (xs ++ ((a, v) ∷ ys))
    → unlinked_ends (list_of (xs ++ ((a, v) ∷ ys))) a h
      ≡ done (record (list_of (xs ++ ys)) { size = length (xs ++ ((a, v) ∷ ys)) }) h
unfolding unlinked_ends
ends-ok a v [] [] l = let self : (a == a) ≡ true = ground arith in rw self
ends-ok a v [] ((c, w) ∷ ys) l =
    let self : (a == a) ≡ true = ground arith in
    rw (self, last-ne a a c w ys (not-behind a v [] ((c, w) ∷ ys) l), load-At l.nodes.0)
ends-ok a v ((b, x) ∷ xs) [] l =
    let self : (a == a) ≡ true = ground arith in
    let other : (a == b) ≡ false = ground (arith, not-before a v ((b, x) ∷ xs) [] l) in
    rw (
      other,
      last-append b xs ((a, v) ∷ []),
      self,
      load-At (node-At a v ((b, x) ∷ xs) [] l),
      append-nil,
    )
ends-ok a v ((b, x) ∷ xs) ((c, w) ∷ ys) l =
    let other : (a == b) ≡ false = ground (arith, not-before a v ((b, x) ∷ xs) ((c, w) ∷ ys) l) in
    rw (
      other,
      last-append b xs ((a, v) ∷ (c, w) ∷ ys),
      last-append b xs ((c, w) ∷ ys),
      last-ne a a c w ys (not-behind a v ((b, x) ∷ xs) ((c, w) ∷ ys) l),
    )

module _ {h : Heap} (a v : ℕ) (xs ys : Cells) (l : Linked h (xs ++ ((a, v) ∷ ys))) where
  abbrev whole : Cells
  whole = xs ++ ((a, v) ∷ ys)

  -- The four writes, once both neighbours point past the node.
  detached-Now :
      (g : Heap)
      → At g a (node v (first ys null) (last null xs))
      → Dll g null xs (first ys null)
      → Dll g (last null xs) ys null
      → SameOutside whole h g
      → Now whole
          (xs ++ ys)
          h
          (pos 0, some (list_of (xs ++ ys)))
          (write (write g a (some (node v null (last null xs)))) a (some (node v null null)))
  unfolding write
  detached-Now g at before behind same = record {
    reply = refl;
    linked = record {
      nodes =
          Dll-append _ null xs ys null
            (spare null xs (first ys null) before (not-before a v xs ys l))
            (spare (last null xs) ys null behind (not-behind a v xs ys l));
      distinct =
          (let (dx, dr, _) = Distinct-split xs ((a, v) ∷ ys) l.distinct in
            Distinct-append xs ys dx dr.1 (apart a v xs ys l));
      word = omega (arith, length-append xs ys, length-append xs ((a, v) ∷ ys), l.word);
    };
    same = λ b o. ground (arith, has-append b xs ((a, v) ∷ ys), same b o);
  }
    where
      spare :
          (p : Ptr) (zs : Cells) (n : Ptr)
          → Dll g p zs n
          → has a zs ≡ false
          → Dll
              (write (write g a (some (node v null (last null xs)))) a (some (node v null null)))
              p
              zs
              n
      spare p zs n d out = Dll-write _ p zs n a _ (Dll-write g p zs n a _ d out) out

  -- Unlinking a node of a well-formed list returns 0: the others stay linked in order, the node comes
  -- out with its word and no neighbour, and no node outside the list is written.
  pub unlink_lem :
      Ends
        (λ r g. Now whole (xs ++ ys) h r g × Detached g a v)
        (ll_unlink_node (some (list_of whole)) a h)
  unfolding ll_unlink_node
  unlink_lem =
      let at = node-At a v xs ys l in
      let counted : (length whole == 0) ≡ false = ground (arith, length-append xs ((a, v) ∷ ys)) in
      let smaller : sub32 (length whole) 1 ≡ length (xs ++ ys) =
        omega (arith, length-append xs ys, length-append xs ((a, v) ∷ ys), l.word) in
      rw (not_null at, counted, ends-ok a v xs ys l, load-At at)
        (and_then
          (fix_first a ys (last null xs) (Dll-back h null xs ((a, v) ∷ ys) null l.nodes).1
            (Distinct-split xs ((a, v) ∷ ys) l.distinct).1.1)
          λ _ g (behind, same).
            let at1 = At-same at g (same a (not-behind a v xs ys l)) in
            let front =
              Dll-frame h null xs a (Dll-front h null xs ((a, v) ∷ ys) null l.nodes)
                (λ b i. same b (apart a v xs ys l b i)) in
            rw (load-At at1) (
              and_then
                (fix_last xs a (first ys null) front (Distinct-split xs ((a, v) ∷ ys) l.distinct).0)
                λ _ g' (before, same').
                  let at2 = At-same at1 g' (same' a (not-before a v xs ys l)) in
                  let behind' =
                    Dll-frame g (last null xs) ys null behind
                      (λ b i. same' b (apart_sym xs ys b (apart a v xs ys l) i)) in
                  rw
                    (
                      set_next-At at2 null,
                      set_prev-At (At-write_self at2 (node v null (last null xs))) null,
                      smaller,
                    )
                    (ends (
                      detached-Now g' at2 before behind'
                          (λ b o. ground (arith, has-append b xs ((a, v) ∷ ys), same b, same' b)),
                      At-write_self (At-write_self at2 (node v null (last null xs)))
                          (node v null null),
                    ))))
