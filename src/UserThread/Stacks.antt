-- ===== src/UserThread/Stacks.antt =====
-- The stacks of the threads, when no call of `thr_create` is interrupted.
use custom_os_kernel.Base.{
  ℕ, zero, suc, ◌+◌, ◌-◌, ◌*◌, ◌%◌, ◌^◌, ◌<◌, ◌≤◌, ◌≡◌, refl, sym, ap, subst, ◌∙◌, Bool, true,
  false, ◌⊎◌, Option-cases, none, some, inl, inr, List, [], ◌∷◌, ◌++◌, map, arith, Bool-cases,
  length, length-append, upto, ltb, sub32,
}
use native.Mathlib.Nat.{suc-mul}
use custom_os_kernel.Base.Int.{ℤ, pos, negsuc}
use custom_os_kernel.UserThread.{
  Thread, Library, Given, Created, created, hangs, panics, in_pool, then_spawn, then_reserve,
  is_dead, find_thread, at_thread, change, revived, new_thread, reserve, spawn, new_thr_page,
  add_to_pool_s, thr_create,
}
use custom_os_kernel.UserThread.Claim.{find_thread-some, claim-new, claim-old}

abbrev pub stack_tops : List Thread → List ℕ
stack_tops ts = map (λ t. t.stack_top) ts

-- The stacks lie below that of the parent, one after the other, and there are pages for all of them.
pub record LaidOut (l : Library) : Type 0 where
  pub tops :
      stack_tops l.thread_pool
      ≡ upto (λ i. l.parent_stack_top - i * l.thread_stack_size) (length l.thread_pool)
  pub pages : l.stack_bottom + length l.thread_pool * l.thread_stack_size ≤ l.parent_stack_top
  pub word : l.parent_stack_top < 2 ^ 32

at_thread-stack_tops :
    (f : Thread → Thread)
    → ((t : Thread) → (f t).stack_top ≡ t.stack_top)
    → (i : ℕ) → (ts : List Thread) → stack_tops (at_thread i f ts) ≡ stack_tops ts
unfolding at_thread
at_thread-stack_tops f same i [] = refl
at_thread-stack_tops f same zero (t ∷ ts) = ap (λ a. a ∷ stack_tops ts) (same t)
at_thread-stack_tops f same (suc i) (t ∷ ts) =
    ap (λ tops. t.stack_top ∷ tops) (at_thread-stack_tops f same i ts)

length-stack_tops : (ts : List Thread) → length (stack_tops ts) ≡ length ts
length-stack_tops [] = refl
length-stack_tops (t ∷ ts) = ap (λ n. suc n) (length-stack_tops ts)

pub change-LaidOut :
    (f : Thread → Thread)
    → ((t : Thread) → (f t).stack_top ≡ t.stack_top)
    → (i : ℕ) → (l : Library) → LaidOut l
    → LaidOut (change i f l)
change-LaidOut f same i l laid =
    let kept = at_thread-stack_tops f same i l.thread_pool in
    let as_many : length (at_thread i f l.thread_pool) ≡ length l.thread_pool =
      sym (length-stack_tops (at_thread i f l.thread_pool))
      ∙ ap length kept
      ∙ length-stack_tops l.thread_pool in
    record {
      tops =
          kept
          ∙ laid.tops
          ∙ ap (upto (λ j. l.parent_stack_top - j * l.thread_stack_size)) (sym as_many);
      pages = rw as_many laid.pages;
      word = laid.word;
    }

-- The page of the next stack: it is refused, or there are pages for one stack more.
module _ (l : Library) (laid : LaidOut l)
    (left : (length l.thread_pool + 1) * l.thread_stack_size ≤ l.parent_stack_top)
    (above : l.thread_stack_size ≤ l.stack_bottom) where
  abbrev n : ℕ
  n = length l.thread_pool

  one_more : (n + 1) * l.thread_stack_size ≡ n * l.thread_stack_size + l.thread_stack_size
  one_more = omega arith

  abbrev next_top : ℕ
  next_top = l.parent_stack_top - n * l.thread_stack_size

  claimed_top : sub32 l.parent_stack_top (n * l.thread_stack_size % 2 ^ 32) ≡ next_top
  claimed_top = omega (arith, one_more, left, laid.word)

  next_page :
      (new_pages : ℤ)
      → ((e : ℕ) × (new_thr_page new_pages next_top l.thread_stack_size l ≡ (negsuc e, l)))
        ⊎ ((b : ℕ) × (new_thr_page new_pages next_top l.thread_stack_size l
              ≡ (pos 0, record l { stack_bottom = b }))
            × (b + (n + 1) * l.thread_stack_size ≤ l.parent_stack_top))
  unfolding new_thr_page
  next_page new_pages =
      elim (Bool-cases (ltb (sub32 next_top l.thread_stack_size) l.stack_bottom)) [
        | inr e ↦
            inr
              (l.stack_bottom, rw e refl, ground (arith, e, one_more, left, laid.word, laid.pages))
        | inl e ↦ refused_or_grown new_pages e
      ]
    where
      refused_or_grown :
          (new_pages : ℤ)
          → ltb (sub32 next_top l.thread_stack_size) l.stack_bottom ≡ true
          → ((e : ℕ) × (new_thr_page new_pages next_top l.thread_stack_size l ≡ (negsuc e, l)))
            ⊎ ((b : ℕ) × (new_thr_page new_pages next_top l.thread_stack_size l
                  ≡ (pos 0, record l { stack_bottom = b }))
                × (b + (n + 1) * l.thread_stack_size ≤ l.parent_stack_top))
      refused_or_grown (negsuc c) e = inl (c, rw e refl)
      refused_or_grown (pos k) e = inr (
        sub32 l.stack_bottom l.thread_stack_size,
        rw e refl,
        omega (arith, one_more, left, laid.word, laid.pages, above),
      )

-- What a call keeps, however it ends.
abbrev pub Kept : Created → Type 0
Kept (created r l) = LaidOut l
Kept hangs = Unit
Kept panics = Unit

module _ (l : Library) (laid : LaidOut l) where
  -- A new thread at the next stack, once there are pages for it.
  added-LaidOut :
      (b : ℕ)
      → (old : Thread) → (k_tid : ℕ)
      → b + (length l.thread_pool + 1) * l.thread_stack_size ≤ l.parent_stack_top
      → LaidOut (record l {
        stack_bottom = b;
        thread_pool =
            l.thread_pool
            ++ (new_thread old k_tid
                  (l.parent_stack_top - length l.thread_pool * l.thread_stack_size)
                ∷ []);
      })
  added-LaidOut b old k_tid pages =
      let new =
        new_thread old k_tid (l.parent_stack_top - length l.thread_pool * l.thread_stack_size) in
      let as_many : length (l.thread_pool ++ (new ∷ [])) ≡ suc (length l.thread_pool) =
        omega (arith, length-append l.thread_pool (new ∷ [])) in
      record {
        tops =
            map-append (λ t. t.stack_top) l.thread_pool (new ∷ [])
            ∙ ap (λ tops. tops ++ (new.stack_top ∷ [])) laid.tops
            ∙ ap (upto (λ j. l.parent_stack_top - j * l.thread_stack_size)) (sym as_many);
        pages = rw as_many (omega (arith, pages));
        word = laid.word;
      }
    where
      map-append :
          (f : Thread → ℕ) → (xs ys : List Thread) → map f (xs ++ ys) ≡ map f xs ++ map f ys
      map-append f [] ys = refl
      map-append f (x ∷ xs) ys = ap (λ zs. f x ∷ zs) (map-append f xs ys)

  unmapped-LaidOut :
      (b : ℕ)
      → b + (length l.thread_pool + 1) * l.thread_stack_size ≤ l.parent_stack_top
      → LaidOut (record l { stack_bottom = b })
  unmapped-LaidOut b pages = record {
    tops = laid.tops;
    pages = omega (arith, pages, suc-mul (length l.thread_pool) l.thread_stack_size);
    word = laid.word;
  }

  spawn_new-Kept :
      (g : Given)
      → (thread_fork : ℤ) → (b : ℕ)
      → b + (length l.thread_pool + 1) * l.thread_stack_size ≤ l.parent_stack_top
      → Kept (
          spawn g thread_fork none
            (l.parent_stack_top - length l.thread_pool * l.thread_stack_size)
            (record l { stack_bottom = b }))
  unfolding spawn add_to_pool_s
  spawn_new-Kept g (negsuc e) b pages = unmapped-LaidOut b pages
  spawn_new-Kept g (pos child) b pages = placed g.thread g.node
    where
      placed :
          (thread node : Bool)
          → Kept (
              in_pool child (
                add_to_pool_s
                  (record g { thread = thread; node = node })
                  child
                  (l.parent_stack_top - length l.thread_pool * l.thread_stack_size)
                  (record l { stack_bottom = b })))
      placed false node = tt
      placed true false = tt
      placed true true = added-LaidOut b g.old child pages

  spawn_old-Kept :
      (g : Given) → (thread_fork : ℤ) → (i top : ℕ) → Kept (spawn g thread_fork (some i) top l)
  unfolding spawn
  spawn_old-Kept g (negsuc e) i top = tt
  spawn_old-Kept g (pos child) i top =
      change-LaidOut (λ t. record t { k_tid = child }) (λ t. refl) i l laid

module _ (g : Given) (new_pages thread_fork : ℤ) (l : Library) (laid : LaidOut l)
    (left : (length l.thread_pool + 1) * l.thread_stack_size ≤ l.parent_stack_top)
    (above : l.thread_stack_size ≤ l.stack_bottom) where
  rest_new-Kept : Kept (then_reserve g new_pages thread_fork (none, next_top l laid left above, l))
  unfolding reserve
  rest_new-Kept = elim (next_page l laid left above new_pages) [
    | inl (e, refused) ↦
        subst Kept (sym (ap (then_spawn g thread_fork none (next_top l laid left above)) refused))
          laid
    | inr (b, grows, pages) ↦
        subst Kept (sym (ap (then_spawn g thread_fork none (next_top l laid left above)) grows))
          (spawn_new-Kept l laid g thread_fork b pages)
  ]

  pub thr_create-Kept : Kept (thr_create g new_pages thread_fork l)
  unfolding thr_create reserve
  thr_create-Kept = elim (Option-cases (find_thread is_dead l.thread_pool)) [
    | inl missing ↦
        subst (λ c. Kept (then_reserve g new_pages thread_fork c))
          (sym (
            claim-new l missing ∙ ap (λ (top : ℕ). (none, top, l)) (claimed_top l laid left above)))
          rest_new-Kept
    | inr (i, found) ↦
        let (t, at, is) = find_thread-some is_dead l.thread_pool i found in
        subst (λ c. Kept (then_reserve g new_pages thread_fork c)) (sym (claim-old l i t found at))
          (spawn_old-Kept (change i revived l) (change-LaidOut revived (λ t. refl) i l laid) g
            thread_fork i t.stack_top)
  ]
