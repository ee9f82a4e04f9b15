-- ===== src/LinkedList/Behind.antt =====
-- `link_behind`: the four writes of `ll_link_node_sorted` between two nodes.
use custom_os_kernel.Base.{
  ℕ, suc, ◌^◌, ◌<◌, ◌≡◌, ◌≢◌, sym, ap, false, some, [], ◌∷◌, ◌++◌, arith, length, length-append,
  add32,
}
use custom_os_kernel.Base.Int.{pos}
use custom_os_kernel.Heap.{null, Heap, node, write}
use custom_os_kernel.Heap.Ends.{Ends, ends}
use custom_os_kernel.Heap.Dll.{
  Cells, has, first, last, At, Dll, Dll-append, Dll-write, Dll-front, Dll-back, first-append,
  last-append, has-append, Distinct-split, Distinct-append,
}
use custom_os_kernel.Heap.Rules.{
  load-At, set_next-At, set_prev-At, At-write_self, At-write_ne, relink_last, last-At, apart_sym,
}
use custom_os_kernel.LinkedList.Loops.{link_behind}
use custom_os_kernel.LinkedList.Inv.{Linked, list_of, Detached, Now}

module _ {h : Heap} (xs : Cells) (a x c y : ℕ) (ys : Cells) (b v : ℕ)
    (l : Linked h ((xs ++ ((a, x) ∷ [])) ++ ((c, y) ∷ ys))) (new : Detached h b v)
    (out : has b ((xs ++ ((a, x) ∷ [])) ++ ((c, y) ∷ ys)) ≡ false) where
  abbrev front : Cells
  front = xs ++ ((a, x) ∷ [])

  abbrev old : Cells
  old = front ++ ((c, y) ∷ ys)

  abbrev inserted : Cells
  inserted = front ++ ((b, v) ∷ (c, y) ∷ ys)

  abbrev heap1 : Heap
  heap1 = write (write h c (some (node y (first ys null) b))) b (some (node v c null))

  abbrev heap2 : Heap
  heap2 = write (write heap1 a (some (node x b (last null xs)))) b (some (node v c a))

  front-Dll : Dll h null front c
  front-Dll = Dll-front h null front ((c, y) ∷ ys) null l.nodes

  pub back-Dll : Dll h a ((c, y) ∷ ys) null
  back-Dll =
      rw (last-append null xs ((a, x) ∷ [])) at (Dll-back h null front ((c, y) ∷ ys) null l.nodes)

  b-not-front : has b front ≡ false
  b-not-front = ground (arith, has-append b front ((c, y) ∷ ys))

  b-not-back : has b ((c, y) ∷ ys) ≡ false
  b-not-back = ground (arith, has-append b front ((c, y) ∷ ys))

  c-not-front : has c front ≡ false
  c-not-front =
      apart_sym front ((c, y) ∷ ys) c (Distinct-split front ((c, y) ∷ ys) l.distinct).2
        (ground arith)

  a-not-back : has a ((c, y) ∷ ys) ≡ false
  a-not-back =
      (Distinct-split front ((c, y) ∷ ys) l.distinct).2 a
        (ground (arith, has-append a xs ((a, x) ∷ [])))

  front2-Dll : Dll heap2 null front b
  front2-Dll =
      Dll-write _ null front b b _
        (relink_last heap1 null xs a x c
          (Dll-write _ null front c b _ (Dll-write h null front c c _ front-Dll c-not-front)
            b-not-front)
          (Distinct-split front ((c, y) ∷ ys) l.distinct).0 b)
        b-not-front

  c-At : At heap1 c (node y (first ys null) b)
  c-At = At-write_ne (At-write_self back-Dll.0 _) b _ (ground (arith, b-not-back))

  back2-Dll : Dll heap2 b ((c, y) ∷ ys) null
  back2-Dll =
      let (out_c, dis) = (Distinct-split front ((c, y) ∷ ys) l.distinct).1 in
      let a-not : has a ys ≡ false = ground (arith, a-not-back) in
      let b-not : has b ys ≡ false = ground (arith, b-not-back) in
      (
        At-write_ne (At-write_ne c-At a _ (ground (arith, a-not-back))) b _
            (ground (arith, b-not-back)),
        Dll-write _ c ys null b _
            (Dll-write _ c ys null a _
              (Dll-write _ c ys null b _ (Dll-write h c ys null c _ back-Dll.1 out_c) b-not) a-not)
            b-not,
      )

  pub a-At : At h a (node x c (last null xs))
  a-At = last-At h null xs a x c front-Dll (Distinct-split front ((c, y) ∷ ys) l.distinct).0

  list_of-inserted :
      suc (length old) < 2 ^ 32
      → record (list_of old) { size = add32 (length old) 1 } ≡ list_of inserted
  list_of-inserted room = ground (
    arith,
    first-append front ((c, y) ∷ ys) null,
    first-append front ((b, v) ∷ (c, y) ∷ ys) null,
    first-append xs ((a, x) ∷ []) c,
    first-append xs ((a, x) ∷ []) b,
    last-append null front ((c, y) ∷ ys),
    last-append null front ((b, v) ∷ (c, y) ∷ ys),
    length-append front ((c, y) ∷ ys),
    length-append front ((b, v) ∷ (c, y) ∷ ys),
  )

  inserted-Linked : suc (length old) < 2 ^ 32 → Linked heap2 inserted
  inserted-Linked room =
      let (d, e, apart) = Distinct-split front ((c, y) ∷ ys) l.distinct in
      let mid : At heap2 b (node v c a) =
        At-write_self
          (At-write_ne
            (At-write_self (At-write_ne new c _ (ground (arith, b-not-back))) (node v c null)) a
            (some (node x b (last null xs)))
            (ground (arith, b-not-front, has-append b xs ((a, x) ∷ []))))
          _ in
      record {
        nodes =
            Dll-append heap2 null front ((b, v) ∷ (c, y) ∷ ys) null front2-Dll
              (rw (last-append null xs ((a, x) ∷ [])) mid, back2-Dll);
        distinct =
            Distinct-append front ((b, v) ∷ (c, y) ∷ ys) d (b-not-back, e)
              (λ i p. ground (arith, apart i p, b-not-front));
        word =
            omega (
              arith,
              length-append front ((c, y) ∷ ys),
              length-append front ((b, v) ∷ (c, y) ∷ ys),
            );
      }

  pub link_behind_lem :
      suc (length old) < 2 ^ 32
      → Ends (Now ((b, v) ∷ old) inserted h) (link_behind (list_of old) a b h)
  unfolding link_behind write
  link_behind_lem room =
      let new1 = At-write_ne new c (some (node y (first ys null) b)) (ground (arith, b-not-back)) in
      let ne_ca : a ≢ c = ground (arith, a-not-back) in
      let ne_ab : a ≢ b = ground (arith, b-not-front, has-append b xs ((a, x) ∷ [])) in
      let a1 =
        At-write_ne (At-write_ne a-At c (some (node y (first ys null) b)) ne_ca) b
          (some (node v c null)) ne_ab in
      let b2 =
        At-write_ne (At-write_self new1 (node v c null)) a (some (node x b (last null xs)))
          (λ e. ne_ab (sym e)) in
      rw
        (
          load-At a-At,
          set_prev-At back-Dll.0 b,
          set_next-At new1 c,
          set_next-At a1 b,
          set_prev-At b2 a,
        )
        (ends (record {
          reply = ap (λ c. (pos 0, some c)) (list_of-inserted room);
          linked = inserted-Linked room;
          same = λ d o.
              ground (arith, has-append d front ((c, y) ∷ ys), has-append d xs ((a, x) ∷ []));
        }))
