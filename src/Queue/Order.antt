-- ===== src/Queue/Order.antt =====
-- A queue gives its words back in the order they came, a stack in the reverse order.
use custom_os_kernel.Base.{
  ℕ, suc, ◌^◌, ◌<◌, ◌≡◌, ◌≢◌, refl, true, Option, none, some, [], ◌∷◌, ◌++◌, length,
}
use custom_os_kernel.Base.Int.{ℤ, pos}
use custom_os_kernel.Heap.{null, Heap, ◌>>=◌}
use custom_os_kernel.Heap.Ends.{Ends, ends, and_then}
use custom_os_kernel.Heap.Dll.{Cells}
use custom_os_kernel.LinkedList.Inv.{Linked, list_of}
use custom_os_kernel.LinkedList.Link.{add_last_lem, add_first_lem}
use custom_os_kernel.LinkedList.Remove.{remove_first_lem}
use custom_os_kernel.Queue.{Queue, Stack, queue_enq, queue_deq, stack_push, stack_pop}

-- The queue, and the stack, of a list of cells.
abbrev pub queue_of : Cells → Option Queue
queue_of xs = some (record { ll = some (list_of xs) })

abbrev pub stack_of : Cells → Option Stack
stack_of xs = some (record { ll = some (list_of xs) })

-- A call took the word `v` out and left `xs`.
pub record TookOut (A : Type 0) (v : ℕ) (left : Option A) (xs : Cells) (r : ℤ × Option ℕ × Option A)
    (g : Heap) : Type 0 where
  pub reply : r ≡ (pos 0, some v, left)
  pub linked : Linked g xs

-- A call put a word in and left `xs`.
record PutIn (A : Type 0) (left : Option A) (xs : Cells) (r : ℤ × Option A) (g : Heap)
    : Type 0 where
  reply : r ≡ (pos 0, left)
  linked : Linked g xs

module _ {h : Heap} (xs : Cells) (b v : ℕ) (l : Linked h xs) (ne : b ≢ null) (fresh : h b ≡ none)
    (room : suc (length xs) < 2 ^ 32) where
  push-PutIn :
      Ends (PutIn Stack (stack_of ((b, v) ∷ xs)) ((b, v) ∷ xs)) (stack_push b (stack_of xs) v h)
  unfolding stack_push
  push-PutIn =
      and_then (add_first_lem xs b v l ne fresh room)
        λ r g now. ends (record { reply = rw now.reply refl; linked = now.linked })

  enq-PutIn :
      Ends
        (PutIn Queue (queue_of (xs ++ ((b, v) ∷ []))) (xs ++ ((b, v) ∷ [])))
        (queue_enq b (queue_of xs) v h)
  unfolding queue_enq
  enq-PutIn =
      and_then (add_last_lem xs b v l ne fresh room)
        λ r g now. ends (record { reply = rw now.reply refl; linked = now.linked })

module _ {h : Heap} (a w : ℕ) (ys : Cells) (l : Linked h ((a, w) ∷ ys)) where
  pop-TookOut : Ends (TookOut Stack w (stack_of ys) ys) (stack_pop (stack_of ((a, w) ∷ ys)) true h)
  unfolding stack_pop
  pop-TookOut =
      and_then (remove_first_lem a w ys l true)
        λ r g took. ends (record { reply = rw took.reply refl; linked = took.linked })

  deq-TookOut : Ends (TookOut Queue w (queue_of ys) ys) (queue_deq (queue_of ((a, w) ∷ ys)) true h)
  unfolding queue_deq
  deq-TookOut =
      and_then (remove_first_lem a w ys l true)
        λ r g took. ends (record { reply = rw took.reply refl; linked = took.linked })

-- On a stack with room, pushing a word into a fresh node and popping gives the word back: both calls
-- end without a fault, and the stack holds what it held, well linked.
pub push-pop :
    {h : Heap} (xs : Cells) (b v : ℕ)
    → Linked h xs
    → b ≢ null
    → h b ≡ none
    → suc (length xs) < 2 ^ 32
    → Ends
        (TookOut Stack v (stack_of xs) xs)
        ((do (s, t) ← stack_push b (stack_of xs) v; stack_pop t true) h)
push-pop xs b v l ne fresh room =
    and_then (push-PutIn xs b v l ne fresh room)
      λ r g put. rw put.reply (pop-TookOut b v xs put.linked)

-- On a queue that is not empty and has room, enqueueing a word in a fresh node and dequeueing gives
-- the oldest word: both calls end without a fault, and the queue holds the other words and then the
-- new one, well linked.
pub enq-deq :
    {h : Heap} (a w : ℕ) (ys : Cells) (b v : ℕ)
    → Linked h ((a, w) ∷ ys)
    → b ≢ null
    → h b ≡ none
    → suc (suc (length ys)) < 2 ^ 32
    → Ends
        (TookOut Queue w (queue_of (ys ++ ((b, v) ∷ []))) (ys ++ ((b, v) ∷ [])))
        ((do (s, q) ← queue_enq b (queue_of ((a, w) ∷ ys)) v; queue_deq q true) h)
enq-deq a w ys b v l ne fresh room =
    and_then (enq-PutIn ((a, w) ∷ ys) b v l ne fresh room)
      λ r g put. rw put.reply (deq-TookOut a w (ys ++ ((b, v) ∷ [])) put.linked)
