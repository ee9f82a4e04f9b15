-- ===== src/LinkedList/Link.antt =====
-- `ll_link_node_last`, `ll_link_node_first`, `ll_add_last`, `ll_add_first`.
use custom_os_kernel.Base.{
  ℕ, suc, ◌^◌, ◌<◌, ◌≡◌, ◌≢◌, refl, sym, ap, subst, false, Option, none, some, [], ◌∷◌, ◌++◌, arith,
  length, length-append, add32, inl, inr,
}
use custom_os_kernel.Base.Int.{ℤ, pos, neg}
use custom_os_kernel.Heap.{null, Heap, node, write, done, alloc, assert}
use custom_os_kernel.Heap.Ends.{Ends, ends, weaken}
use custom_os_kernel.Heap.Dll.{
  Cells, has, first, last, At, Dll, Dll-append, Dll-write, first-append, last-append, has-append,
}
use custom_os_kernel.Heap.Rules.{
  not_null, set_next-At, set_prev-At, At-write_self, At-write_ne, snoc-cases, relink_last,
  not-mem_of_none, alloc-At, store-At,
}
use custom_os_kernel.LinkedList.{
  Ll, ll_node_init, ll_link_node_last, ll_link_node_first, ll_add_last, ll_add_first,
}
use custom_os_kernel.LinkedList.Inv.{
  Linked, list_of, Detached, Now, Linked-snoc, tail-eq, tail-At, head-ne_null,
}

module _ {h : Heap} (ys : Cells) (t w b v : ℕ) (l : Linked h (ys ++ ((t, w) ∷ [])))
    (new : Detached h b v) (out : has b (ys ++ ((t, w) ∷ [])) ≡ false) where
  abbrev old : Cells
  old = ys ++ ((t, w) ∷ [])

  behind-ne : b ≢ t
  behind-ne = ground (arith, has-append b ys ((t, w) ∷ []))

  behind-At : At (write h t (some (node w b (last null ys)))) b (node v null null)
  behind-At = At-write_ne new t _ behind-ne

  abbrev linked_heap : Heap
  linked_heap = write (write h t (some (node w b (last null ys)))) b (some (node v null t))

  link_behind-Dll : Dll linked_heap null (old ++ ((b, v) ∷ [])) null
  link_behind-Dll =
      Dll-append linked_heap null old ((b, v) ∷ []) null
        (Dll-write _ null old b b _ (relink_last h null ys t w null l.nodes l.distinct b) out)
        (rw (tail-eq ys t w l) (At-write_self behind-At _), tt)

  list_of-snoc :
      suc (length old) < 2 ^ 32
      → record (list_of old) { tail = b; size = add32 (length old) 1 }
        ≡ list_of (old ++ ((b, v) ∷ []))
  list_of-snoc room = ground (
    arith,
    first-append old ((b, v) ∷ []) null,
    last-append null old ((b, v) ∷ []),
    length-append old ((b, v) ∷ []),
    first-append ys ((t, w) ∷ []) null,
    first-append ys ((t, w) ∷ []) b,
  )

  link_behind-Now :
      suc (length old) < 2 ^ 32
      → Ends
          (Now ((b, v) ∷ old) (old ++ ((b, v) ∷ [])) h)
          (ll_link_node_last (some (list_of old)) b h)
  unfolding ll_link_node_last write
  link_behind-Now room =
      rw
        (
          not_null new,
          head-ne_null ys t w l,
          tail-eq ys t w l,
          set_next-At (tail-At ys t w l) b,
          set_prev-At behind-At t,
        )
        (ends (record {
          reply = ap (λ c. (pos 0, some c)) (list_of-snoc room);
          linked = Linked-snoc old b v link_behind-Dll l.distinct out room;
          same = λ a o. ground (arith, has-append a ys ((t, w) ∷ []));
        }))

module _ {h : Heap} (a w : ℕ) (ys : Cells) (b v : ℕ) (l : Linked h ((a, w) ∷ ys))
    (new : Detached h b v) (out : has b ((a, w) ∷ ys) ≡ false) where
  link_before-Now :
      suc (suc (length ys)) < 2 ^ 32
      → Ends
          (Now ((b, v) ∷ (a, w) ∷ ys) ((b, v) ∷ (a, w) ∷ ys) h)
          (ll_link_node_first (some (list_of ((a, w) ∷ ys))) b h)
  unfolding ll_link_node_first write
  link_before-Now room =
      let (head, rest) = l.nodes in
      let behind = At-write_ne new a (some (node w (first ys null) b)) (ground arith) in
      rw (not_null new, not_null head, set_prev-At head b, set_next-At behind a)
        (ends (record {
          reply =
              ap (λ c. (pos 0, some (record { head = b; tail = last a ys; size = c })))
                (omega arith);
          linked = record {
            nodes = (
              At-write_self behind _,
              (
                At-write_ne (At-write_self head _) b _ (ground arith),
                Dll-write _ a ys null b _ (Dll-write h a ys null a _ rest l.distinct.0)
                    (ground arith),
              ),
            );
            distinct = (out, l.distinct);
            word = room;
          };
          same = λ c o. ground arith;
        }))

module _ {h : Heap} (b v : ℕ) (new : Detached h b v) where
  single-Now :
      Ends (Now ((b, v) ∷ []) ((b, v) ∷ []) h) (ll_link_node_last (some (list_of [])) b h)
      × Ends (Now ((b, v) ∷ []) ((b, v) ∷ []) h) (ll_link_node_first (some (list_of [])) b h)
  unfolding ll_link_node_last ll_link_node_first assert
  single-Now =
      let now : Now ((b, v) ∷ []) ((b, v) ∷ []) h (pos 0, some (list_of ((b, v) ∷ []))) h = record {
        reply = refl;
        linked = record { nodes = (new, tt); distinct = (refl, tt); word = omega arith };
        same = λ a o. refl;
      } in
      (rw (not_null new) (ends now), rw (not_null new) (ends now))

module _ {h : Heap} (xs : Cells) (b v : ℕ) (l : Linked h xs) (new : Detached h b v)
    (out : has b xs ≡ false) (room : suc (length xs) < 2 ^ 32) where
  -- The same at the end.
  pub link_last_lem :
      Ends (Now ((b, v) ∷ xs) (xs ++ ((b, v) ∷ [])) h) (ll_link_node_last (some (list_of xs)) b h)
  link_last_lem = elim (snoc-cases xs) [
    | inl e ↦ rw e (single-Now b v new).0
    | inr (ys, t, w, e) ↦
        subst
          (λ c.
            Ends (Now ((b, v) ∷ c) (c ++ ((b, v) ∷ [])) h)
              (ll_link_node_last (some (list_of c)) b h))
          (sym e)
          (link_behind-Now ys t w b v (subst (Linked h) e l) new (rw e at out) (rw e at room))
  ]

-- A detached node that is not in the list, which has room for one more, is linked at the front: the
-- call returns 0, and only the list's nodes and the new one are written.
pub link_first_lem :
    {h : Heap} (xs : Cells) (b v : ℕ)
    → Linked h xs
    → Detached h b v
    → has b xs ≡ false
    → suc (length xs) < 2 ^ 32
    → Ends (Now ((b, v) ∷ xs) ((b, v) ∷ xs) h) (ll_link_node_first (some (list_of xs)) b h)
link_first_lem [] b v l new out room = (single-Now b v new).1
link_first_lem ((a, w) ∷ ys) b v l new out room = link_before-Now a w ys b v l new out room

module _ {h : Heap} (xs : Cells) (b v : ℕ) (l : Linked h xs) (ne : b ≢ null) (fresh : h b ≡ none)
    (room : suc (length xs) < 2 ^ 32) where
  out : has b xs ≡ false
  out = not-mem_of_none h b null xs null fresh l.nodes

  -- The heap with the new node initialised.
  abbrev init_heap : Heap
  init_heap = write (write h b (some (node 0 null null))) b (some (node v null null))

  init-Linked : Linked init_heap xs
  init-Linked = record {
    nodes = Dll-write _ null xs null b _ (Dll-write h null xs null b _ l.nodes out) out;
    distinct = l.distinct;
    word = l.word;
  }

  init-At : Detached init_heap b v
  unfolding write
  init-At = record { ne_null = ne; holds = ground arith }

  widen :
      (ys : Cells) (r : ℤ × Option Ll) (g : Heap)
      → Now ((b, v) ∷ xs) ys init_heap r g
      → Now ((b, v) ∷ xs) ys h r g
  unfolding write
  widen ys r g now = record {
    reply = now.reply;
    linked = now.linked;
    same = λ a o. ground (arith, now.same a o);
  }

  alloc-Detached : At (write h b (some (node 0 null null))) b (node 0 null null)
  unfolding write
  alloc-Detached = record { ne_null = ne; holds = ground arith }

  node_init-ok : ll_node_init b v (write h b (some (node 0 null null))) ≡ done (pos 0) init_heap
  unfolding ll_node_init
  node_init-ok = rw (not_null alloc-Detached, store-At alloc-Detached (node v null null))

  -- Where malloc returns a fresh node and the list has room for one more, the word goes to the end in
  -- that node: the call returns 0, and only the list's nodes and the new one are written.
  pub add_last_lem :
      Ends (Now ((b, v) ∷ xs) (xs ++ ((b, v) ∷ [])) h) (ll_add_last b (some (list_of xs)) v h)
  unfolding ll_add_last
  add_last_lem =
      rw (alloc-At h b ne, node_init-ok)
        (weaken (link_last_lem xs b v init-Linked init-At out room) (widen (xs ++ ((b, v) ∷ []))))

  -- The same at the front.
  pub add_first_lem :
      Ends (Now ((b, v) ∷ xs) ((b, v) ∷ xs) h) (ll_add_first b (some (list_of xs)) v h)
  unfolding ll_add_first
  add_first_lem =
      rw (alloc-At h b ne, node_init-ok)
        (weaken (link_first_lem xs b v init-Linked init-At out room) (widen ((b, v) ∷ xs)))

-- Where malloc returns NULL the status is -2, and nothing changes.
pub add_null :
    (h : Heap) (l : Ll) (v : ℕ)
    → (ll_add_last null (some l) v h ≡ done (neg 2, some l) h)
      × (ll_add_first null (some l) v h ≡ done (neg 2, some l) h)
unfolding ll_add_last ll_add_first alloc ll_node_init
add_null h l v = (refl, refl)
