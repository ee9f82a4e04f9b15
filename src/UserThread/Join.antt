-- ===== src/UserThread/Join.antt =====
-- Who gets the status of a thread.
use custom_os_kernel.Base.{
  ℕ, zero, suc, ◌≡◌, ◌≢◌, refl, ap, ◌∙◌, false, Option, none, some, List, [], ◌∷◌, get_elem?, ◌==◌,
  if◌then◌else◌,
}
use custom_os_kernel.Base.Int.{pos, neg}
use custom_os_kernel.UserThread.{
  Thread, alive, dead, Library, joined, waits, is_dead, has_tid, no_tid, find_thread,
  find_thread_by_k_tid, at_thread, change, awaited, exited, collected, first_of, join_loop,
  thr_join, thr_exit, join_resumes,
}

at_thread-get :
    (i : ℕ)
    → (f : Thread → Thread) → (ts : List Thread) → (t : Thread) → get_elem? ts i ≡ some t
    → get_elem? (at_thread i f ts) i ≡ some (f t)
unfolding at_thread
at_thread-get i f [] t e = absurd (none-ne_some e)
  where
    none-ne_some : none ≢ some t
    none-ne_some = cc
at_thread-get zero f (u ∷ ts) t e =
    ap (λ (o : Option Thread). elim o [ none ↦ none | some x ↦ some (f x) ]) e
at_thread-get (suc i) f (u ∷ ts) t e = at_thread-get i f ts t e

-- A store that keeps the numbers keeps what is found by them.
find-at_thread :
    (k i : ℕ)
    → (f : Thread → Thread) → ((t : Thread) → (f t).k_tid ≡ t.k_tid)
    → (ts : List Thread) → find_thread (has_tid k) (at_thread i f ts) ≡ find_thread (has_tid k) ts
unfolding find_thread at_thread
find-at_thread k i f same [] = refl
find-at_thread k zero f same (t ∷ ts) =
    ap (λ (n : ℕ). if n == k then some 0 else next (find_thread (has_tid k) ts)) (same t)
  where
    next : Option ℕ → Option ℕ
    next o = elim o [ none ↦ none | some j ↦ some (suc j) ]
find-at_thread k (suc i) f same (t ∷ ts) =
    ap (λ o. if t.k_tid == k then some 0 else next o) (find-at_thread k i f same ts)
  where
    next : Option ℕ → Option ℕ
    next o = elim o [ none ↦ none | some j ↦ some (suc j) ]

-- The thread `t` at `i` is the one that the number `k` finds.
pub record At (k i : ℕ) (t : Thread) (l : Library) : Type 0 where
  pub found : find_thread_by_k_tid k l ≡ some i
  pub here : get_elem? l.thread_pool i ≡ some t

change-At :
    (k i : ℕ)
    → (t : Thread) → (l : Library) → (f : Thread → Thread) → ((t : Thread) → (f t).k_tid ≡ t.k_tid)
    → At k i t l
    → At k i (f t) (change i f l)
unfolding find_thread_by_k_tid
change-At k i t l f same at = record {
  found = find-at_thread k i f same l.thread_pool ∙ at.found;
  here = at_thread-get i f l.thread_pool t at.here;
}

thr_join_lem :
    (joiner k i : ℕ)
    → (t : Thread) → (l : Library) → At k i t l
    → is_dead t ≡ false
    → thr_join joiner k l ≡ join_loop joiner i t l
unfolding thr_join
thr_join_lem joiner k i t l at e = rw (thr_join, at.found, at.here, e) refl

thr_exit_lem :
    (k status i : ℕ)
    → (t : Thread) → (l : Library) → At k i t l
    → thr_exit k status l ≡ some (first_of t.joiners, change i (exited status) l)
unfolding thr_exit
thr_exit_lem k status i t l at = rw (thr_exit, at.found, at.here) refl

join_resumes_lem :
    (joiner i : ℕ)
    → (t : Thread) → (l : Library) → get_elem? l.thread_pool i ≡ some t
    → join_resumes joiner i l ≡ some (join_loop joiner i t l)
unfolding join_resumes
join_resumes_lem joiner i t l e = rw (join_resumes, e) refl

-- A thread that runs and that nobody joins.
abbrev pub running : (k top old : ℕ) → Thread
running k top old = record {
  pending_join = false;
  k_tid = k;
  stack_top = top;
  status = alive;
  exit_status = old;
  joiners = [];
}

-- A thread that was joined: another thread can be made on its stack.
abbrev pub over : (top status : ℕ) → Thread
over top status = record {
  pending_join = false;
  k_tid = no_tid;
  stack_top = top;
  status = dead;
  exit_status = status;
  joiners = [];
}

module _ (k i top old status a b : ℕ) (l : Library) (at : At k i (running k top old) l) where
  abbrev sleeping : Library
  sleeping = change i (awaited a) l

  sleeping-At : At k i (awaited a (running k top old)) sleeping
  sleeping-At = change-At k i (running k top old) l (awaited a) (λ t. refl) at

  abbrev woken : Library
  woken = change i (exited status) sleeping

  woken-At : At k i (exited status (awaited a (running k top old))) woken
  woken-At =
      change-At k i (awaited a (running k top old)) sleeping (exited status) (λ t. refl) sleeping-At

  abbrev left : Library
  left = change i (exited status) l

  left-At : At k i (exited status (running k top old)) left
  left-At = change-At k i (running k top old) l (exited status) (λ t. refl) at

  pub join_before :
      (l1 l2 l3 : Library) × (thr_join a k l ≡ waits i l1)
      × (thr_join b k l1 ≡ joined (neg 1) none l1)
      × (thr_exit k status l1 ≡ some (some a, l2))
      × (join_resumes a i l2 ≡ some (joined (pos 0) (some status) l3))
      × (get_elem? l3.thread_pool i ≡ some (over top status))
  join_before = (
    sleeping,
    woken,
    change i collected woken,
    thr_join_lem a k i (running k top old) l at refl,
    thr_join_lem b k i (awaited a (running k top old)) sleeping sleeping-At refl,
    thr_exit_lem k status i (awaited a (running k top old)) sleeping sleeping-At,
    join_resumes_lem a i (exited status (awaited a (running k top old))) woken woken-At.here,
    at_thread-get i collected woken.thread_pool (exited status (awaited a (running k top old)))
        woken-At.here,
  )

  pub join_after :
      (l1 l2 : Library) × (thr_exit k status l ≡ some (none, l1))
      × (thr_join a k l1 ≡ joined (pos 0) (some status) l2)
      × (get_elem? l2.thread_pool i ≡ some (over top status))
  join_after = (
    left,
    change i collected left,
    thr_exit_lem k status i (running k top old) l at,
    thr_join_lem a k i (exited status (running k top old)) left left-At refl,
    at_thread-get i collected left.thread_pool (exited status (running k top old)) left-At.here,
  )

  -- A thread that runs and that nobody joins is joined once. A first joiner waits, a second one is
  -- refused with -1, and once the thread exits the first returns 0 with its status; where the
  -- thread exits first, the joiner returns 0 with its status at once. Either way the thread is then
  -- dead, with its stack and no number.
  pub join-Collects :
      ((l1 l2 l3 : Library) × (thr_join a k l ≡ waits i l1)
        × (thr_join b k l1 ≡ joined (neg 1) none l1)
        × (thr_exit k status l1 ≡ some (some a, l2))
        × (join_resumes a i l2 ≡ some (joined (pos 0) (some status) l3))
        × (get_elem? l3.thread_pool i ≡ some (over top status)))
      × ((l1 l2 : Library) × (thr_exit k status l ≡ some (none, l1))
          × (thr_join a k l1 ≡ joined (pos 0) (some status) l2)
          × (get_elem? l2.thread_pool i ≡ some (over top status)))
  join-Collects = (join_before, join_after)

  -- Where a joiner waits for a thread, and the thread exits, and another thread joins it before the
  -- joiner that was woken runs, then both joins return 0 with the status of the thread.
  pub join-Twice :
      (l1 l2 l3 l4 : Library) × (thr_join a k l ≡ waits i l1)
      × (thr_exit k status l1 ≡ some (some a, l2))
      × (thr_join b k l2 ≡ joined (pos 0) (some status) l3)
      × (join_resumes a i l3 ≡ some (joined (pos 0) (some status) l4))
  join-Twice =
      let t3 = exited status (awaited a (running k top old)) in
      (
        sleeping,
        woken,
        change i collected woken,
        _,
        thr_join_lem a k i (running k top old) l at refl,
        thr_exit_lem k status i (awaited a (running k top old)) sleeping sleeping-At,
        thr_join_lem b k i t3 woken woken-At refl,
        join_resumes_lem a i (collected t3) (change i collected woken)
            (at_thread-get i collected woken.thread_pool t3 woken-At.here),
      )
