-- ===== src/UserThread/Examples.antt =====
-- A program with a stack of a page that starts the library, and creates a thread.
use custom_os_kernel.Base.{◌+◌, ◌≤◌, ◌≡◌, refl, true, none, some, [], ◌∷◌, ◌++◌, arith, get_elem?}
use custom_os_kernel.Base.Int.{pos, neg}
use custom_os_kernel.UserThread.{
  Thread, Library, Given, created, joined, waits, is_dead, find_thread, claim, reserve, spawn,
  new_thr_page, add_to_pool_s, thr_init, thr_create, thr_exit, thr_join, join_resumes,
  find_thread_by_k_tid,
}
use custom_os_kernel.UserThread.Layout.{Reaches, starts, creates, Reaches-LaidOut}
use custom_os_kernel.UserThread.Race.{Reaches-Apart, create-Shares}
use custom_os_kernel.UserThread.Join.{At, running, over, join-Collects, join-Twice}

-- What malloc gives is cleared.
abbrev cleared : Thread
cleared = running 0 0 0

abbrev given : Given
given = record { thread = true; old = cleared; node = true }

abbrev not_started : Library
not_started = record {
  thread_stack_size = 0;
  parent_stack_top = 0;
  stack_bottom = 3221221376;
  thread_pool = [];
}

abbrev one_thread : Library
one_thread = record {
  thread_stack_size = 8192;
  parent_stack_top = 3221225472;
  stack_bottom = 3221213184;
  thread_pool = running 7 3221225472 0 ∷ [];
}

abbrev two_threads : Library
two_threads = record one_thread {
  stack_bottom = 3221204992;
  thread_pool = running 7 3221225472 0 ∷ running 8 3221217280 0 ∷ [];
}

init-one_thread : thr_init given (pos 0) 7 3221225476 8000 not_started ≡ (pos 0, one_thread)
unfolding thr_init new_thr_page add_to_pool_s
init-one_thread = refl

create-two_threads : thr_create given (pos 0) (pos 8) one_thread ≡ created (pos 8) two_threads
unfolding thr_create claim find_thread reserve new_thr_page spawn add_to_pool_s
create-two_threads = refl

one_thread-Reaches : Reaches one_thread
one_thread-Reaches =
    starts given (pos 0) 7 3221225476 8000 not_started (omega arith) (omega arith) (omega arith)
      init-one_thread

two_threads-Reaches : Reaches two_threads
two_threads-Reaches =
    creates given (pos 0) (pos 8) (pos 8) one_thread-Reaches (omega arith) (omega arith)
      create-two_threads

Reaches-Apart_example : (3221217280 + 8192 ≤ 3221225472) × (3221204992 + 8192 ≤ 3221217280)
Reaches-Apart_example =
    Reaches-Apart two_threads 0 1 (running 7 3221225472 0) (running 8 3221217280 0)
      two_threads-Reaches (omega arith) refl refl

no_dead : find_thread is_dead one_thread.thread_pool ≡ none
unfolding find_thread
no_dead = refl

create-Shares_example :
    (l1 l2 l3 : Library) × (claim one_thread ≡ (none, 3221217280, one_thread))
    × (reserve (pos 0) none 3221217280 one_thread ≡ (pos 0, l1))
    × (reserve (neg 1) none 3221217280 l1 ≡ (pos 0, l1))
    × (spawn given (pos 8) none 3221217280 l1 ≡ created (pos 8) l2)
    × (spawn given (pos 9) none 3221217280 l2 ≡ created (pos 9) l3)
    × (l3.thread_pool
        ≡ ((running 7 3221225472 0 ∷ []) ++ (running 8 3221217280 0 ∷ []))
          ++ (running 9 3221217280 0 ∷ []))
create-Shares_example =
    create-Shares one_thread (Reaches-LaidOut one_thread one_thread-Reaches) given given 0 (neg 1) 8
      9 no_dead (omega arith) (omega arith) (refl, refl) (refl, refl)

second-At : At 8 1 (running 8 3221217280 0) two_threads
unfolding find_thread_by_k_tid find_thread
second-At = record { found = refl; here = refl }

join-Collects_example :
    ((l1 l2 l3 : Library) × (thr_join 7 8 two_threads ≡ waits 1 l1)
      × (thr_join 9 8 l1 ≡ joined (neg 1) none l1)
      × (thr_exit 8 42 l1 ≡ some (some 7, l2))
      × (join_resumes 7 1 l2 ≡ some (joined (pos 0) (some 42) l3))
      × (get_elem? l3.thread_pool 1 ≡ some (over 3221217280 42)))
    × ((l1 l2 : Library) × (thr_exit 8 42 two_threads ≡ some (none, l1))
        × (thr_join 7 8 l1 ≡ joined (pos 0) (some 42) l2)
        × (get_elem? l2.thread_pool 1 ≡ some (over 3221217280 42)))
join-Collects_example = join-Collects 8 1 3221217280 0 42 7 9 two_threads second-At

join-Twice_example :
    (l1 l2 l3 l4 : Library) × (thr_join 7 8 two_threads ≡ waits 1 l1)
    × (thr_exit 8 42 l1 ≡ some (some 7, l2))
    × (thr_join 9 8 l2 ≡ joined (pos 0) (some 42) l3)
    × (join_resumes 7 1 l3 ≡ some (joined (pos 0) (some 42) l4))
join-Twice_example = join-Twice 8 1 3221217280 0 42 7 9 two_threads second-At
