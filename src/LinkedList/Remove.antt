-- ===== src/LinkedList/Remove.antt =====
-- `ll_remove_first`, `ll_remove_last`, `ll_peek` and `ll_rotate`.
use custom_os_kernel.Base.{
  ℕ, suc, ◌≡◌, ◌≢◌, refl, ap, Bool, true, false, Option, none, some, [], ◌∷◌, ◌++◌, arith, length,
  length-append, ◌==◌, if◌then◌else◌,
}
use custom_os_kernel.Base.Int.{ℤ, pos, neg}
use custom_os_kernel.Heap.{Ptr, null, Heap, node, write, done}
use custom_os_kernel.Heap.Ends.{Ends, ends, and_then}
use custom_os_kernel.Heap.Dll.{
  Cells, has, first, last, Dll, SameOutside, Dll-append, Dll-write, Dll-front, Distinct-split,
  last-append, has-append,
}
use custom_os_kernel.Heap.Rules.{
  load-At, set_next-At, set_prev-At, free-At, At-write_self, At-write_ne, At-same, fix_first,
  fix_last, fix_tail, last-At, last-not-mem, last-ne,
}
use custom_os_kernel.LinkedList.{Ll, stored, ll_remove_first, ll_remove_last, ll_peek, ll_rotate}
use custom_os_kernel.LinkedList.Inv.{Linked, list_of, Now, Linked-snoc}

-- The call returned 0 and the word `v` of the node `a`, which was freed; `ys` is left.
pub record Took (a v : ℕ) (ys zs : Cells) (wanted : Bool) (h : Heap) (r : ℤ × Option ℕ × Option Ll)
    (g : Heap) : Type 0 where
  pub reply : r ≡ (pos 0, stored wanted v, some (list_of ys))
  pub linked : Linked g ys
  pub freed : g a ≡ none
  pub same : SameOutside zs h g

tail-next :
    (a : Ptr) (ys : Cells)
    → has a ys ≡ false
    → (if a == last a ys then null else last a ys) ≡ last null ys
tail-next a [] out = ground arith
tail-next a ((c, w) ∷ ys) out = rw (last-ne a a c w ys out)

module _ {h : Heap} (a v : ℕ) (ys : Cells) (l : Linked h ((a, v) ∷ ys)) where
  counted : (suc (length ys) == 0) ≡ false
  counted = ground arith

  -- On a list that is not empty the call returns 0 and the head's word, through the output pointer if
  -- there is one; the head's node is freed, the others stay linked in order, and no node outside the
  -- list is written.
  pub remove_first_lem :
      (wanted : Bool)
      → Ends
          (Took a v ys ((a, v) ∷ ys) wanted h)
          (ll_remove_first (some (list_of ((a, v) ∷ ys))) wanted h)
  unfolding ll_remove_first write
  remove_first_lem wanted =
      let (at, rest) = l.nodes in
      let (out, dis) = l.distinct in
      rw (counted, load-At at, tail-next a ys out)
        (and_then (fix_first a ys null rest dis) λ _ g (d, same).
          let at' = At-same at g (same a out) in
          rw (load-At at', free-At at')
            (ends (record {
              reply =
                  ap (λ n. (pos 0, stored wanted v, some (record (list_of ys) { size = n })))
                    (omega (arith, l.word));
              linked = record {
                nodes = Dll-write g null ys null a none d out;
                distinct = dis;
                word = omega (arith, l.word);
              };
              freed = ground arith;
              same = λ b o. ground (arith, same b);
            })))

  pub peek_lem : ll_peek (some (list_of ((a, v) ∷ ys))) true h ≡ done (pos 0, some v) h
  unfolding ll_peek
  peek_lem = rw (counted, load-At l.nodes.0)

-- On an empty list nothing is removed or read, and nothing changes.
pub empty_lem :
    (h : Heap) (wanted : Bool)
    → (ll_remove_first (some (list_of [])) wanted h ≡ done (neg 2, none, some (list_of [])) h)
      × (ll_remove_last (some (list_of [])) wanted h ≡ done (neg 2, none, some (list_of [])) h)
      × (ll_rotate (some (list_of [])) h ≡ done (neg 2, some (list_of [])) h)
      × (ll_peek (some (list_of [])) wanted h ≡ done (neg 1, none) h)
unfolding ll_remove_first ll_remove_last ll_rotate ll_peek
empty_lem h wanted = (refl, refl, refl, ground arith)

head-next :
    (ys : Cells) (t w : ℕ)
    → has t ys ≡ false
    → (if t == first (ys ++ ((t, w) ∷ [])) null then null else first (ys ++ ((t, w) ∷ [])) null)
      ≡ first ys null
head-next [] t w out = ground arith
head-next ((c, x) ∷ ys) t w out = ground arith

module _ {h : Heap} (ys : Cells) (t w : ℕ) (l : Linked h (ys ++ ((t, w) ∷ []))) where
  abbrev whole : Cells
  whole = ys ++ ((t, w) ∷ [])

  counted_whole : length whole ≡ suc (length ys)
  counted_whole = omega (arith, length-append ys ((t, w) ∷ []))

  -- On a list that is not empty the call returns 0 and the tail's word, through the output pointer if
  -- there is one; the tail's node is freed, the others stay linked in order, and no node outside the
  -- list is written.
  pub remove_last_lem :
      (wanted : Bool)
      → Ends (Took t w ys whole wanted h) (ll_remove_last (some (list_of whole)) wanted h)
  unfolding ll_remove_last write
  remove_last_lem wanted =
      let at = last-At h null ys t w null l.nodes l.distinct in
      let out = last-not-mem h null ys t w null l.nodes l.distinct in
      let dis = (Distinct-split ys ((t, w) ∷ []) l.distinct).0 in
      let counted' : (suc (length ys) == 0) ≡ false = ground arith in
      rw
        (
          counted_whole,
          counted',
          last-append null ys ((t, w) ∷ []),
          load-At at,
          head-next ys t w out,
        )
        (and_then (fix_last ys t null (Dll-front h null ys ((t, w) ∷ []) null l.nodes) dis)
          λ _ g (d, same).
            let at' = At-same at g (same t out) in
            rw (load-At at', free-At at')
              (ends (record {
                reply =
                    ap (λ n. (pos 0, stored wanted w, some (record (list_of ys) { size = n })))
                      (omega (arith, l.word, counted_whole));
                linked = record {
                  nodes = Dll-write g null ys null t none d out;
                  distinct = dis;
                  word = omega (arith, l.word, counted_whole);
                };
                freed = ground arith;
                same = λ b o. ground (arith, has-append b ys ((t, w) ∷ []), same b);
              })))

module _ {h : Heap} (a v c w : ℕ) (ys : Cells) (l : Linked h ((a, v) ∷ (c, w) ∷ ys)) where
  abbrev rest : Cells
  rest = (c, w) ∷ ys

  abbrev tail : Ptr
  tail = last null rest

  -- The heap before the old tail is made to lead to the old head.
  abbrev turned : Heap
  turned =
      write (write (write h c (some (node w (first ys null) null))) a (some (node v null null))) a
        (some (node v null tail))

  apart : c ≢ a
  apart = ground (arith, l.distinct.0)

  turned-Dll : Dll turned null rest null
  turned-Dll =
      let (at, (at_c, behind)) = l.nodes in
      let (out, (out_c, dis)) = l.distinct in
      let out' : has a ys ≡ false = ground arith in
      (
        At-write_ne (At-write_ne (At-write_self at_c _) a _ apart) a _ apart,
        Dll-write _ c ys null a _
            (Dll-write _ c ys null a _ (Dll-write h c ys null c _ behind out_c) out') out',
      )

  list_of-turned :
      record { head = c; tail = a; size = suc (suc (length ys)) } ≡ list_of (rest ++ ((a, v) ∷ []))
  list_of-turned = ground (arith, last-append c ys ((a, v) ∷ []), length-append ys ((a, v) ∷ []))

  -- On a list of two nodes or more the call returns 0, the head's node is linked behind the others,
  -- which keep their order, and no node outside the list is written.
  pub rotate_lem :
      Ends
        (Now ((a, v) ∷ rest) (rest ++ ((a, v) ∷ [])) h)
        (ll_rotate (some (list_of ((a, v) ∷ rest))) h)
  unfolding ll_rotate write
  rotate_lem =
      let (at, (at_c, behind)) = l.nodes in
      let (out, (out_c, dis)) = l.distinct in
      let some_left : (suc (suc (length ys)) == 0) ≡ false = ground arith in
      let not_one : (suc (suc (length ys)) == 1) ≡ false = ground arith in
      let at1 = At-write_ne at c (some (node w (first ys null) null)) (ground arith) in
      let at2 = At-write_self at1 (node v null null) in
      rw
        (
          some_left,
          not_one,
          load-At at,
          set_prev-At at_c null,
          set_next-At at1 null,
          set_prev-At at2 tail,
        )
        (and_then (fix_tail {h = turned} c w ys null a turned-Dll (out_c, dis)) λ _ g (d, same).
          ends (record {
            reply = ap (λ x. (pos 0, some x)) list_of-turned;
            linked =
                Linked-snoc rest a v
                  (Dll-append g null rest ((a, v) ∷ []) null d
                    (At-same (At-write_self at2 (node v null tail)) g (same a out), tt))
                  (out_c, dis) out l.word;
            same = λ b o. ground (arith, same b);
          }))
