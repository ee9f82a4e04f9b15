-- ===== src/UserThread/Layout.antt =====
-- The stacks of the threads that calls reach, when no call of `thr_create` is interrupted.
use custom_os_kernel.Base.{
  ℕ, ◌+◌, ◌-◌, ◌*◌, ◌%◌, ◌^◌, ◌<◌, ◌≤◌, ◌≡◌, refl, ap, subst, Bool, true, false, Option,
  Option-cases, none, some, inl, inr, [], ◌∷◌, arith, Bool-cases, length, get_elem?, ◌==◌, ltb,
  sub32,
}
use custom_os_kernel.Base.Int.{ℤ, pos, negsuc}
use custom_os_kernel.UserThread.{
  Thread, Status, alive, dead, zombie, find_thread_by_k_tid, Library, Given, created, Joined,
  joined, waits, is_dead, awaited, collected, exited, grown, new_thr_page, add_to_pool_s, thr_init,
  with_parent, thr_create, thr_exit, thr_join, join_loop, join_resumes, aligned_size,
}
use custom_os_kernel.UserThread.Stacks.{LaidOut, Kept, change-LaidOut, thr_create-Kept}

-- The library that a successful `thr_init` and uninterrupted calls reach, while address space is left
-- for another stack at each `thr_create`.
pub data Reaches : Library → Type 0 where
  starts :
      {l' : Library}
      → (g : Given) → (new_pages : ℤ) → (gettid esp size : ℕ) → (l : Library) → (esp < 2 ^ 32)
      → (l.stack_bottom ≤ esp - esp % 4096)
      → (aligned_size size ≤ l.stack_bottom)
      → thr_init g new_pages gettid esp size l ≡ (pos 0, l')
      → Reaches l'
  creates :
      {l l' : Library}
      → (g : Given) → (new_pages thread_fork reply : ℤ) → Reaches l
      → ((length l.thread_pool + 1) * l.thread_stack_size ≤ l.parent_stack_top)
      → (l.thread_stack_size ≤ l.stack_bottom)
      → thr_create g new_pages thread_fork l ≡ created reply l'
      → Reaches l'
  exits :
      {l l' : Library}
      → (gettid status : ℕ) → (woken : Option ℕ) → Reaches l
      → thr_exit gettid status l ≡ some (woken, l')
      → Reaches l'
  joins :
      {l l' : Library}
      → (joiner k_tid : ℕ) → (reply : ℤ) → (status : Option ℕ) → Reaches l
      → thr_join joiner k_tid l ≡ joined reply status l'
      → Reaches l'
  sleeps :
      {l l' : Library}
      → (joiner k_tid i : ℕ) → Reaches l
      → thr_join joiner k_tid l ≡ waits i l'
      → Reaches l'
  resumes :
      {l l' : Library}
      → (joiner i : ℕ) → (reply : ℤ) → (status : Option ℕ) → Reaches l
      → join_resumes joiner i l ≡ some (joined reply status l')
      → Reaches l'

-- The start.
abbrev Started : ℤ × Library → Type 0
Started (negsuc e, l) = Unit
Started (pos n, l) = LaidOut l

module _ (g : Given) (gettid : ℕ) where
  parent-Started :
      (l : Library)
      → l.parent_stack_top < 2 ^ 32
      → l.stack_bottom + l.thread_stack_size ≤ l.parent_stack_top
      → Started (with_parent g gettid (pos 0, l))
  unfolding add_to_pool_s
  parent-Started l word pages = placed g.thread g.node
    where
      placed :
          (thread node : Bool)
          → Started (with_parent (record g { thread = thread; node = node }) gettid (pos 0, l))
      placed false node = tt
      placed true false = tt
      placed true true = record {
        tops = ap (λ a. a ∷ []) (omega arith);
        pages = omega (arith, pages);
        word = word;
      }

  page-Started :
      (new_pages : ℤ)
      → (l : Library) → l.parent_stack_top < 2 ^ 32
      → l.stack_bottom ≤ l.parent_stack_top
      → l.thread_stack_size ≤ l.stack_bottom
      → Started
          (with_parent g gettid (new_thr_page new_pages l.parent_stack_top l.thread_stack_size l))
  unfolding new_thr_page
  page-Started new_pages l word below above =
      elim (Bool-cases (ltb (sub32 l.parent_stack_top l.thread_stack_size) l.stack_bottom)) [
        | inr e ↦ rw (e) (parent-Started l word (ground (arith, e, word, above, below)))
        | inl e ↦ rw (e) (grown-Started new_pages)
      ]
    where
      grown-Started :
          (new_pages : ℤ) → Started (with_parent g gettid (grown new_pages l.thread_stack_size l))
      grown-Started (negsuc e) = tt
      grown-Started (pos n) =
          parent-Started (record l { stack_bottom = sub32 l.stack_bottom l.thread_stack_size }) word
            (omega (arith, word, below, above))

thr_init-Started :
    (g : Given)
    → (new_pages : ℤ) → (gettid esp size : ℕ) → (l : Library) → (esp < 2 ^ 32)
    → (l.stack_bottom ≤ esp - esp % 4096)
    → (aligned_size size ≤ l.stack_bottom)
    → Started (thr_init g new_pages gettid esp size l)
unfolding thr_init
thr_init-Started g new_pages gettid esp size l word below above = elim (Bool-cases (size == 0)) [
  | inl e ↦ rw (e) tt
  | inr e ↦ rw (e) (
      page-Started g gettid new_pages
        (record l { thread_stack_size = aligned_size size; parent_stack_top = esp - esp % 4096 })
        (omega (arith, word)) below above)
]

-- A thread leaves.
abbrev Left : Option (Option ℕ × Library) → Type 0
Left none = Unit
Left (some (woken, l)) = LaidOut l

-- A thread joins another.
abbrev Met : Joined → Type 0
Met (joined reply status l) = LaidOut l
Met (waits i l) = LaidOut l

abbrev Resumed : Option Joined → Type 0
Resumed none = Unit
Resumed (some j) = Met j

module _ (l : Library) (laid : LaidOut l) where
  thr_exit-Left : (gettid status : ℕ) → Left (thr_exit gettid status l)
  unfolding thr_exit
  thr_exit-Left gettid status = elim (Option-cases (find_thread_by_k_tid gettid l)) [
    | inl e ↦ rw (thr_exit, e) tt
    | inr (i, e) ↦ elim (Option-cases (get_elem? l.thread_pool i)) [
      | inl q ↦ rw (thr_exit, e, q) tt
      | inr (t, q) ↦ rw (thr_exit, e, q) (change-LaidOut (exited status) (λ t. refl) i l laid)
    ]
  ]

  join_loop-Met : (joiner i : ℕ) → (t : Thread) → Met (join_loop joiner i t l)
  join_loop-Met joiner i t = looked t.status t.pending_join
    where
      looked :
          (st : Status)
          → (pending : Bool)
          → Met (join_loop joiner i (record t { status = st; pending_join = pending }) l)
      looked alive true = laid
      looked alive false = change-LaidOut (awaited joiner) (λ t. refl) i l laid
      looked dead pending = change-LaidOut collected (λ t. refl) i l laid
      looked zombie pending = change-LaidOut collected (λ t. refl) i l laid

  thr_join-Met : (joiner k_tid : ℕ) → Met (thr_join joiner k_tid l)
  unfolding thr_join
  thr_join-Met joiner k_tid = elim (Option-cases (find_thread_by_k_tid k_tid l)) [
    | inl e ↦ rw (thr_join, e) laid
    | inr (i, e) ↦ elim (Option-cases (get_elem? l.thread_pool i)) [
      | inl q ↦ rw (thr_join, e, q) laid
      | inr (t, q) ↦ elim (Bool-cases (is_dead t)) [
        | inl d ↦ rw (thr_join, e, q, d) laid
        | inr d ↦ rw (thr_join, e, q, d) (join_loop-Met joiner i t)
      ]
    ]
  ]

  join_resumes-Resumed : (joiner i : ℕ) → Resumed (join_resumes joiner i l)
  unfolding join_resumes
  join_resumes-Resumed joiner i = elim (Option-cases (get_elem? l.thread_pool i)) [
    | inl q ↦ rw (join_resumes, q) tt
    | inr (t, q) ↦ rw (join_resumes, q) (join_loop-Met joiner i t)
  ]

-- Every library that uninterrupted calls reach has its stacks one below the other, and pages for all.
pub Reaches-LaidOut : (l : Library) → Reaches l → LaidOut l
Reaches-LaidOut l' (starts g new_pages gettid esp size l word below above e) =
    subst Started e (thr_init-Started g new_pages gettid esp size l word below above)
Reaches-LaidOut l' (creates {l = l} g new_pages fork reply r left above e) =
    subst Kept e (thr_create-Kept g new_pages fork l (Reaches-LaidOut l r) left above)
Reaches-LaidOut l' (exits {l = l} gettid status woken r e) =
    subst Left e (thr_exit-Left l (Reaches-LaidOut l r) gettid status)
Reaches-LaidOut l' (joins {l = l} joiner k reply status r e) =
    subst Met e (thr_join-Met l (Reaches-LaidOut l r) joiner k)
Reaches-LaidOut l' (sleeps {l = l} joiner k i r e) =
    subst Met e (thr_join-Met l (Reaches-LaidOut l r) joiner k)
Reaches-LaidOut l' (resumes {l = l} joiner i reply status r e) =
    subst Resumed e (join_resumes-Resumed l (Reaches-LaidOut l r) joiner i)
