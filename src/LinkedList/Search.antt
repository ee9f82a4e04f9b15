-- ===== src/LinkedList/Search.antt =====
-- `ll_find`, `ll_remove`, `ll_remove_node`, `ll_destroy`, `ll_foreach`: what a walk finds, and that it ends.
use custom_os_kernel.Base.{
  ℕ, suc, ◌+◌, ◌≡◌, ap, Bool, true, false, Option, none, some, [], ◌∷◌, ◌++◌, arith, length,
  length-append, ◌==◌,
}
use custom_os_kernel.Base.Int.{pos, neg}
use custom_os_kernel.CircBuf
use custom_os_kernel.CircBuf.{CircBuf}
use custom_os_kernel.Heap.{Ptr, null, Heap, node, write, done}
use custom_os_kernel.Heap.Ends.{Ends, ends, and_then}
use custom_os_kernel.Heap.Dll.{
  Cells, first, last, At, Dll, SameOutside, Dll-write, Dll-front, Dll-back, first-append,
  has-append,
}
use custom_os_kernel.Heap.Rules.{not_null, load-At, free-At}
use custom_os_kernel.LinkedList.{stored, ll_remove_node}
use custom_os_kernel.LinkedList.Loops.{find_loop, ll_find, ll_remove}
use custom_os_kernel.LinkedList.Inv.{Linked, list_of, Detached}
use custom_os_kernel.LinkedList.Unlink.{node-At, not-before, not-behind, unlink_lem}

-- What the buffer of addresses to free holds after `a`.
abbrev pub noted : Ptr → Option CircBuf → Option CircBuf
noted a none = none
noted a (some c) = (CircBuf.write (some c) a).1

-- The node, freed at once or kept for later.
abbrev pub Released : Ptr → ℕ → Option CircBuf → Heap → Type 0
Released a v none g = g a ≡ none
Released a v (some c) g = Detached g a v

-- The reply is `r`, the cells around `a` are left, linked, and `a` is released.
pub record Gone {R : Type 0} (xs ys : Cells) (a v : ℕ) (r : R) (addrs : Option CircBuf) (h : Heap)
    (r' : R) (g : Heap) : Type 0 where
  pub reply : r' ≡ r
  pub linked : Linked g (xs ++ ys)
  pub node : Released a v addrs g
  pub same : SameOutside (xs ++ ((a, v) ∷ ys)) h g

module _ {h : Heap} (a v : ℕ) (xs ys : Cells) (l : Linked h (xs ++ ((a, v) ∷ ys))) where
  -- The node leaves the list, and is freed, or its address is noted.
  pub remove_node_lem :
      (addrs : Option CircBuf)
      → Ends
          (Gone xs ys a v (pos 0, some (list_of (xs ++ ys)), noted a addrs) addrs h)
          (ll_remove_node (some (list_of (xs ++ ((a, v) ∷ ys)))) a addrs h)
  unfolding ll_remove_node write
  remove_node_lem none = rw (not_null (node-At a v xs ys l)) (
      and_then (unlink_lem a v xs ys l) λ r g (now, out). rw (free-At out) (
        ends (record {
          reply = rw now.reply;
          linked = record {
            nodes = Dll-write g null (xs ++ ys) null a none now.linked.nodes (
                ground (arith, has-append a xs ys, not-before a v xs ys l, not-behind a v xs ys l));
            distinct = now.linked.distinct;
            word = now.linked.word;
          };
          node = ground arith;
          same = λ b o. ground (arith, now.same b, has-append b xs ((a, v) ∷ ys));
        })))
  remove_node_lem (some c) = rw (not_null (node-At a v xs ys l)) (
      and_then (unlink_lem a v xs ys l) λ r g (now, out).
        ends (record { reply = rw now.reply; linked = now.linked; node = out; same = now.same }))

-- No word of these cells is taken to `c`.
abbrev pub Misses : (ℕ → ℕ) → ℕ → Cells → Type 0
Misses func c [] = Unit
Misses func c ((_, v) ∷ xs) = ((func v == c) ≡ false) × Misses func c xs

module _ (func : ℕ → ℕ) (c : ℕ) where
  -- A round for each cell that does not match.
  loop-Misses :
      (h : Heap) (k : ℕ) (p : Ptr) (xs : Cells) (n : Ptr)
      → Dll h p xs n
      → Misses func c xs
      → find_loop (length xs + k) func c (first xs n) h ≡ find_loop k func c n h
  unfolding find_loop
  loop-Misses h k p [] n d m = ap (λ j. find_loop j func c n h) (omega arith)
  loop-Misses h k p ((a, v) ∷ xs) n d m =
      let round : suc (length xs) + k ≡ suc (length xs + k) = omega arith in
      rw (round, not_null d.0, load-At d.0, m.0) (loop-Misses h k a xs n d.1 m.1)

  loop-hits :
      (h : Heap) (k a v next prev : ℕ)
      → At h a (node v next prev)
      → (func v == c) ≡ true
      → find_loop (suc k) func c a h ≡ done (some a) h
  unfolding find_loop
  loop-hits h k a v next prev at hit = rw (not_null at, load-At at, hit)

  module _ {h : Heap} (xs : Cells) (l : Linked h xs) (m : Misses func c xs) where
    loop-none : find_loop (length xs + 1) func c (first xs null) h ≡ done none h
    unfolding find_loop
    loop-none = loop-Misses h 1 null xs null l.nodes m

    -- Where no word matches, the status is -2 and nothing changes.
    pub find-none : ll_find (some (list_of xs)) (some func) c h ≡ done (neg 2, none) h
    unfolding ll_find
    find-none = rw loop-none

    pub remove-none :
        (wanted : Bool) (addrs : Option CircBuf)
        → ll_remove (some (list_of xs)) (some func) c wanted addrs h
          ≡ done (neg 2, none, some (list_of xs), addrs) h
    unfolding ll_remove
    remove-none wanted addrs = rw loop-none

  module _ {h : Heap} (xs : Cells) (a v : ℕ) (ys : Cells) (l : Linked h (xs ++ ((a, v) ∷ ys)))
      (m : Misses func c xs) (hit : (func v == c) ≡ true) where
    abbrev whole : Cells
    whole = xs ++ ((a, v) ∷ ys)

    hit-At : At h a (node v (first ys null) (last null xs))
    hit-At = (Dll-back h null xs ((a, v) ∷ ys) null l.nodes).0

    loop-some : find_loop (length whole + 1) func c (first whole null) h ≡ done (some a) h
    loop-some =
        let rounds : length whole + 1 ≡ length xs + suc (suc (length ys)) =
          omega (arith, length-append xs ((a, v) ∷ ys)) in
        rw
          (
            rounds,
            first-append xs ((a, v) ∷ ys) null,
            loop-Misses h (suc (suc (length ys))) null xs a
                (Dll-front h null xs ((a, v) ∷ ys) null l.nodes) m,
          )
          (loop-hits h (suc (length ys)) a v (first ys null) (last null xs) hit-At hit)

    -- The first word that matches is found.
    pub find-some : ll_find (some (list_of whole)) (some func) c h ≡ done (pos 0, some v) h
    unfolding ll_find
    find-some = rw (loop-some, load-At hit-At)

    -- Where the function takes no word of `xs` to the value and takes the next word to it, the call
    -- returns 0 and that word, through the output pointer if there is one; its node leaves the list,
    -- the others stay linked in order, and the node is freed, or kept with its address offered to the
    -- buffer. No node outside the list is written.
    pub remove-some :
        (wanted : Bool) (addrs : Option CircBuf)
        → Ends
            (Gone xs ys a v
              (pos 0, stored wanted v, some (list_of (xs ++ ys)), noted a addrs)
              addrs
              h)
            (ll_remove (some (list_of whole)) (some func) c wanted addrs h)
    unfolding ll_remove
    remove-some wanted addrs =
        rw (loop-some, load-At hit-At)
          (and_then (remove_node_lem a v xs ys l addrs) λ r g gone. ends (record {
            reply = rw gone.reply;
            linked = gone.linked;
            node = gone.node;
            same = gone.same;
          }))
