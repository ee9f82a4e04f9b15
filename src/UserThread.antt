-- ===== src/UserThread.antt =====
-- user/libthread/thread.c: threads of a program, their stacks, and joining them. The pool is the threads
-- that its list holds, in order; an index stands for a pointer to a thread. A thread number is a word,
-- and 4294967295 is -1. What the kernel answers, and what malloc gives, are parameters. The locks of
-- the pool and of a thread are held for the whole of a step, so steps come one after the other.
pub mod Claim
pub mod Stacks
pub mod Layout
pub mod Race
pub mod Join
mod Examples
use custom_os_kernel.Base.{
  ℕ, zero, suc, ◌+◌, ◌-◌, ◌*◌, ◌/◌, ◌%◌, ◌^◌, Bool, true, false, not, Option, none, some, List, [],
  ◌∷◌, ◌++◌, if◌then◌else◌, ◌==◌, ltb, length, get_elem?, sub32,
}
use custom_os_kernel.Base.Int.{ℤ, pos, negsuc, neg}

pub data Status : Type 0 where
  alive : Status
  dead : Status
  zombie : Status

-- `thread_t`, less its mutex; the joiners are those that wait on its condition variable.
pub record Thread : Type 0 where
  pub pending_join : Bool
  pub k_tid : ℕ
  pub stack_top : ℕ
  pub status : Status
  pub exit_status : ℕ
  pub joiners : List ℕ

-- The variables of the library, less its locks.
pub record Library : Type 0 where
  pub thread_stack_size : ℕ
  pub parent_stack_top : ℕ
  pub stack_bottom : ℕ
  pub thread_pool : List Thread

abbrev pub no_tid : ℕ
no_tid = 4294967295

-- `ll_find` in the pool.
unfoldable pub find_thread : (test : Thread → Bool) → List Thread → Option ℕ
find_thread test [] = none
find_thread test (t ∷ ts) =
    if test t then some 0 else elim (find_thread test ts) [ none ↦ none | some i ↦ some (suc i) ]

-- A store through a pointer to a thread.
unfoldable pub at_thread : (i : ℕ) → (Thread → Thread) → List Thread → List Thread
at_thread i f [] = []
at_thread zero f (t ∷ ts) = f t ∷ ts
at_thread (suc i) f (t ∷ ts) = t ∷ at_thread i f ts

abbrev pub is_dead : Thread → Bool
is_dead t = elim t.status [ alive ↦ false | dead ↦ true | zombie ↦ false ]

abbrev pub has_tid : ℕ → Thread → Bool
has_tid k t = t.k_tid == k

abbrev pub change : ℕ → (Thread → Thread) → Library → Library
change i f l = record l { thread_pool = at_thread i f l.thread_pool }

-- `new_pages` is the reply of the system call.
abbrev pub grown : ℤ → (len : ℕ) → Library → ℤ × Library
grown (negsuc e) len l = (negsuc e, l)
grown (pos n) len l = (pos 0, record l { stack_bottom = sub32 l.stack_bottom len })

unfoldable pub new_thr_page : (new_pages : ℤ) → (top len : ℕ) → Library → ℤ × Library
new_thr_page new_pages top len l =
    if ltb (sub32 top len) l.stack_bottom then grown new_pages len l else (pos 0, l)

-- What malloc gives: whether there is a thread, what stands in it, and whether there is a list node.
pub record Given : Type 0 where
  pub thread : Bool
  pub old : Thread
  pub node : Bool

abbrev pub new_thread : (old : Thread) → (k_tid stack_top : ℕ) → Thread
new_thread old k_tid stack_top = record old {
  k_tid = k_tid;
  stack_top = stack_top;
  status = alive;
  joiners = [];
}

unfoldable pub add_to_pool_s : Given → (k_tid stack_top : ℕ) → Library → ℤ × Library
add_to_pool_s g k_tid stack_top l =
    if not g.thread then (neg 1, l) else if not g.node then (neg 1, l) else (
      pos 0,
      record l { thread_pool = l.thread_pool ++ (new_thread g.old k_tid stack_top ∷ []) },
    )

unfoldable pub find_thread_by_k_tid : ℕ → Library → Option ℕ
find_thread_by_k_tid k_tid l = find_thread (has_tid k_tid) l.thread_pool

abbrev pub reaped : Thread → Thread
reaped t = record t { status = dead; k_tid = no_tid; joiners = [] }

-- The pages of a stack of at least `size` bytes.
abbrev pub aligned_size : ℕ → ℕ
aligned_size size = ((size - 1) / 4096 + 1) * 4096 % 2 ^ 32

-- Once the stack of the parent is there; the replies of the exception stack and of swexn are dropped.
abbrev pub with_parent : Given → (gettid : ℕ) → ℤ × Library → ℤ × Library
with_parent g gettid (negsuc e, l) = (neg 1, l)
with_parent g gettid (pos n, l) =
    let added = add_to_pool_s g gettid l.parent_stack_top (record l { thread_pool = [] }) in
    elim added.0 [ pos n ↦ (pos 0, added.1) | negsuc e ↦ (neg 1, added.1) ]

unfoldable pub thr_init :
    Given → (new_pages : ℤ) → (gettid esp : ℕ) → (size : ℕ) → Library → ℤ × Library
thr_init g new_pages gettid esp size l =
    if size == 0
    then (neg 1, l)
    else let l' : Library = record l {
      thread_stack_size = aligned_size size;
      parent_stack_top = esp - esp % 4096;
    } in
      with_parent g gettid (new_thr_page new_pages l'.parent_stack_top l'.thread_stack_size l')

-- The search of `thr_create`: a dead thread is taken, or a stack is chosen. What it found, the stack, and
-- the library.
abbrev pub revived : Thread → Thread
revived t = record t { status = alive; joiners = [] }

unfoldable pub claim : Library → Option ℕ × ℕ × Library
claim l = elim (find_thread is_dead l.thread_pool) [
  | none ↦ (none, sub32 l.parent_stack_top (length l.thread_pool * l.thread_stack_size % 2 ^ 32), l)
  | some i ↦ elim (get_elem? l.thread_pool i) [
    | none ↦ (none, 0, l)
    | some t ↦ (some i, t.stack_top, change i revived l)
  ]
]

-- The page of a new stack, where nothing was found.
unfoldable pub reserve :
    (new_pages : ℤ) → (found : Option ℕ) → (new_esp : ℕ) → Library → ℤ × Library
reserve new_pages none new_esp l = new_thr_page new_pages new_esp l.thread_stack_size l
reserve new_pages (some i) new_esp l = (pos 0, l)

-- How a call of `thr_create` ends; it hangs on the mutex of a thread that it locked itself.
pub data Created : Type 0 where
  created : ℤ → Library → Created
  hangs : Created
  panics : Created

abbrev pub in_pool : (child_tid : ℕ) → ℤ × Library → Created
in_pool child_tid (negsuc e, l) = panics
in_pool child_tid (pos n, l) = created (pos child_tid) l

-- From the fork on.
unfoldable pub spawn :
    Given → (thread_fork : ℤ) → (found : Option ℕ) → (new_esp : ℕ) → Library → Created
spawn g (negsuc e) (some i) new_esp l = hangs
spawn g (negsuc e) none new_esp l = created (neg 1) l
spawn g (pos child_tid) none new_esp l = in_pool child_tid (add_to_pool_s g child_tid new_esp l)
spawn g (pos child_tid) (some i) new_esp l =
    created (pos child_tid) (change i (λ t. record t { k_tid = child_tid }) l)

abbrev pub then_spawn : Given → (thread_fork : ℤ) → Option ℕ → (new_esp : ℕ) → ℤ × Library → Created
then_spawn g thread_fork found new_esp (negsuc e, l) = created (neg 1) l
then_spawn g thread_fork found new_esp (pos n, l) = spawn g thread_fork found new_esp l

abbrev pub then_reserve : Given → (new_pages thread_fork : ℤ) → Option ℕ × ℕ × Library → Created
then_reserve g new_pages thread_fork (found, new_esp, l) =
    then_spawn g thread_fork found new_esp (reserve new_pages found new_esp l)

-- A call that no other thread interrupts.
unfoldable pub thr_create : Given → (new_pages thread_fork : ℤ) → Library → Created
thr_create g new_pages thread_fork l = then_reserve g new_pages thread_fork (claim l)

-- The first joiner is woken.
abbrev pub first_of : List ℕ → Option ℕ
first_of [] = none
first_of (j ∷ js) = some j

abbrev pub rest_of : List ℕ → List ℕ
rest_of [] = []
rest_of (j ∷ js) = js

abbrev pub exited : (status : ℕ) → Thread → Thread
exited status t = record t { status = zombie; exit_status = status; joiners = rest_of t.joiners }

-- The calling thread becomes a zombie; the thread that is woken comes first. `none` is a thread that is
-- not in the pool yet, and yields.
unfoldable pub thr_exit : (gettid status : ℕ) → Library → Option (Option ℕ × Library)
thr_exit gettid status l = elim (find_thread_by_k_tid gettid l) [
  | none ↦ none
  | some i ↦ elim (get_elem? l.thread_pool i) [
    | none ↦ none
    | some t ↦ some (first_of t.joiners, change i (exited status) l)
  ]
]

-- How a step of `thr_join` ends: it returns, with what it stores through the pointer, or waits for the
-- thread.
pub data Joined : Type 0 where
  joined : ℤ → Option ℕ → Library → Joined
  waits : (i : ℕ) → Library → Joined

abbrev pub awaited : (joiner : ℕ) → Thread → Thread
awaited joiner t = record t { pending_join = true; joiners = t.joiners ++ (joiner ∷ []) }

abbrev pub collected : Thread → Thread
collected t = reaped (record t { pending_join = false })

-- The loop of `thr_join`, at its start or where it is woken, on the thread `t` at `i`.
abbrev pub join_loop : (joiner i : ℕ) → Thread → Library → Joined
join_loop joiner i t l = elim t.status [
  | alive ↦ if t.pending_join then joined (neg 1) none l else waits i (change i (awaited joiner) l)
  | dead ↦ joined (pos 0) (some t.exit_status) (change i collected l)
  | zombie ↦ joined (pos 0) (some t.exit_status) (change i collected l)
]

unfoldable pub thr_join : (joiner k_tid : ℕ) → Library → Joined
thr_join joiner k_tid l = elim (find_thread_by_k_tid k_tid l) [
  | none ↦ joined (neg 1) none l
  | some i ↦ elim (get_elem? l.thread_pool i) [
    | none ↦ joined (neg 1) none l
    | some t ↦ if is_dead t then joined (neg 1) none l else join_loop joiner i t l
  ]
]

-- A thread that waited for the thread at `i` is woken.
unfoldable pub join_resumes : (joiner i : ℕ) → Library → Option Joined
join_resumes joiner i l = elim (get_elem? l.thread_pool i) [
  | none ↦ none
  | some t ↦ some (join_loop joiner i t l)
]
