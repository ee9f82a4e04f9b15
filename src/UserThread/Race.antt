-- ===== src/UserThread/Race.antt =====
-- Which stacks two threads get.
use custom_os_kernel.Base.{
  ℕ, zero, suc, ◌+◌, ◌-◌, ◌*◌, ◌%◌, ◌^◌, ◌<◌, ◌≤◌, ◌≡◌, ◌≢◌, ◌⊎◌, refl, sym, ap, ◌∙◌, true, false,
  Option, none, some, List, [], ◌∷◌, ◌++◌, arith, Bool-cases, inl, inr, length, length-upto,
  get_elem?, upto, ltb, sub32,
}
use native.Mathlib.Nat.{mul-le-mul_right}
use custom_os_kernel.Base.Int.{ℤ, pos}
use custom_os_kernel.UserThread.{
  Thread, Library, Given, created, is_dead, find_thread, new_thread, claim, reserve, spawn,
  new_thr_page, add_to_pool_s,
}
use custom_os_kernel.UserThread.Claim.{claim-new}
use custom_os_kernel.UserThread.Stacks.{LaidOut, stack_tops}
use custom_os_kernel.UserThread.Layout.{Reaches, Reaches-LaidOut}

-- What stands at a position of a list.
map-get :
    (ts : List Thread)
    → (i : ℕ) → (t : Thread) → get_elem? ts i ≡ some t
    → get_elem? (stack_tops ts) i ≡ some t.stack_top
map-get [] i t e = absurd (none-ne_some e)
  where
    none-ne_some : none ≢ some t
    none-ne_some = cc
map-get (u ∷ ts) zero t e =
    ap (λ (o : Option Thread). elim o [ none ↦ none | some x ↦ some x.stack_top ]) e
map-get (u ∷ ts) (suc i) t e = map-get ts i t e

get-append :
    (xs : List ℕ)
    → (y i x : ℕ) → get_elem? (xs ++ (y ∷ [])) i ≡ some x
    → ((i < length xs) × (get_elem? xs i ≡ some x)) ⊎ ((i ≡ length xs) × (y ≡ x))
get-append [] y zero x e = inr (refl, some-inj e)
  where
    some-inj : {m n : ℕ} → some m ≡ some n → m ≡ n
    some-inj q = cc
get-append [] y (suc i) x e = absurd (none-ne_some e)
  where
    none-ne_some : none ≢ some x
    none-ne_some = cc
get-append (w ∷ xs) y zero x e = inl (omega arith, e)
get-append (w ∷ xs) y (suc i) x e = elim (get-append xs y i x e) [
  | inl a ↦ inl (omega (arith, a.0), a.1)
  | inr a ↦ inr (omega (arith, a.0), a.1)
]

upto-get : (f : ℕ → ℕ) → (n i x : ℕ) → get_elem? (upto f n) i ≡ some x → (i < n) × (x ≡ f i)
upto-get f zero i x e = absurd (none-ne_some e)
  where
    none-ne_some : none ≢ some x
    none-ne_some = cc
upto-get f (suc n) i x e = elim (get-append (upto f n) (f n) i x e) [
  | inl a ↦ let (lt, at) = upto-get f n i x a.1 in (omega (arith, lt), at)
  | inr a ↦ (omega (arith, a.0, length-upto f n), sym a.1 ∙ ap f (sym (a.0 ∙ length-upto f n)))
]

module _ (l : Library) (laid : LaidOut l) where
  top-at :
      (i : ℕ)
      → (t : Thread) → get_elem? l.thread_pool i ≡ some t
      → (i < length l.thread_pool) × (t.stack_top ≡ l.parent_stack_top - i * l.thread_stack_size)
  top-at i t e =
      upto-get (λ j. l.parent_stack_top - j * l.thread_stack_size) (length l.thread_pool) i
        t.stack_top (sym (ap (λ tops. get_elem? tops i) laid.tops) ∙ map-get l.thread_pool i t e)

  pages_at :
      (i : ℕ)
      → i < length l.thread_pool
      → l.stack_bottom + (i + 1) * l.thread_stack_size ≤ l.parent_stack_top
  pages_at i lt =
      let le : (i + 1) * l.thread_stack_size ≤ length l.thread_pool * l.thread_stack_size =
        mul-le-mul_right l.thread_stack_size (omega arith) in
      omega (arith, le, laid.pages)

-- In every library that a successful thr_init and uninterrupted calls reach, while address space is
-- left for another stack at each thr_create, the stack of a later thread of the pool ends where
-- that of an earlier one begins or below, and there are pages for both.
pub Reaches-Apart :
    (l : Library)
    → (i j : ℕ) → (t u : Thread) → Reaches l
    → i < j
    → get_elem? l.thread_pool i ≡ some t
    → get_elem? l.thread_pool j ≡ some u
    → (u.stack_top + l.thread_stack_size ≤ t.stack_top)
      × (l.stack_bottom + l.thread_stack_size ≤ u.stack_top)
Reaches-Apart l i j t u r lt e q =
    let laid = Reaches-LaidOut l r in
    let (in_i, at_i) = top-at l laid i t e in
    let (in_j, at_j) = top-at l laid j u q in
    let pages = pages_at l laid j in_j in
    let below : (i + 1) * l.thread_stack_size ≤ j * l.thread_stack_size =
      mul-le-mul_right l.thread_stack_size (omega (arith, lt)) in
    (omega (arith, at_i, at_j, pages, below), omega (arith, at_j, pages))

-- Two calls of `thr_create` that both search before either of them has added its thread to the pool.
module _ (l : Library) (laid : LaidOut l) (g1 g2 : Given) (n1 : ℕ) (pages2 : ℤ) (c1 c2 : ℕ)
    (fresh : find_thread is_dead l.thread_pool ≡ none)
    (left : (length l.thread_pool + 1) * l.thread_stack_size ≤ l.parent_stack_top)
    (above : l.thread_stack_size ≤ l.stack_bottom) (given1 : (g1.thread ≡ true) × (g1.node ≡ true))
    (given2 : (g2.thread ≡ true) × (g2.node ≡ true)) where
  abbrev top : ℕ
  top = l.parent_stack_top - length l.thread_pool * l.thread_stack_size

  claimed_top : sub32 l.parent_stack_top (length l.thread_pool * l.thread_stack_size % 2 ^ 32) ≡ top
  claimed_top = omega (arith, left, laid.word)

  -- The pages of the second call are those of the first.
  second :
      (b : ℕ)
      → b + l.thread_stack_size ≤ top
      → reserve pages2 none top (record l { stack_bottom = b })
        ≡ (pos 0, record l { stack_bottom = b })
  unfolding reserve new_thr_page
  second b le =
      let test : ltb (sub32 top l.thread_stack_size) b ≡ false = ground (arith, le, laid.word) in
      rw test refl

  first :
      (b : ℕ) × (reserve (pos n1) none top l ≡ (pos 0, record l { stack_bottom = b }))
      × (b + l.thread_stack_size ≤ top)
  unfolding reserve new_thr_page
  first = elim (Bool-cases (ltb (sub32 top l.thread_stack_size) l.stack_bottom)) [
    | inr e ↦ (l.stack_bottom, rw e refl, ground (arith, e, laid.word, laid.pages, left))
    | inl e ↦ (
      sub32 l.stack_bottom l.thread_stack_size,
      rw e refl,
      omega (arith, laid.word, laid.pages, left, above),
    )
  ]

  spawned :
      (g : Given)
      → (g.thread ≡ true) × (g.node ≡ true)
      → (c : ℕ) → (l' : Library)
      → spawn g (pos c) none top l'
        ≡ created
            (pos c)
            (record l' { thread_pool = l'.thread_pool ++ (new_thread g.old c top ∷ []) })
  unfolding spawn add_to_pool_s
  spawned g given c l' = rw (given.0, given.1) refl

  -- Where no thread of a library that is laid out is dead, there is address space for another
  -- stack, and malloc gives both threads and their nodes, two calls of thr_create that both search
  -- before either adds its thread give both threads the same stack, and the second does not ask for
  -- pages.
  pub create-Shares :
      (l1 l2 l3 : Library) × (claim l ≡ (none, top, l))
      × (reserve (pos n1) none top l ≡ (pos 0, l1))
      × (reserve pages2 none top l1 ≡ (pos 0, l1))
      × (spawn g1 (pos c1) none top l1 ≡ created (pos c1) l2)
      × (spawn g2 (pos c2) none top l2 ≡ created (pos c2) l3)
      × (l3.thread_pool
          ≡ (l.thread_pool ++ (new_thread g1.old c1 top ∷ [])) ++ (new_thread g2.old c2 top ∷ []))
  create-Shares =
      let (b, e, le) = first in
      (
        record l { stack_bottom = b },
        _,
        _,
        claim-new l fresh ∙ ap (λ (x : ℕ). (none, x, l)) claimed_top,
        e,
        second b le,
        spawned g1 given1 c1 (record l { stack_bottom = b }),
        spawned g2 given2 c2 _,
        refl,
      )
