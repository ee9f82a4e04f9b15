-- ===== src/UserThread/Claim.antt =====
-- What the search of `thr_create` finds.
use custom_os_kernel.Base.{
  ℕ, suc, ◌*◌, ◌%◌, ◌^◌, ◌≡◌, ◌≢◌, refl, sym, ap, subst, ◌∙◌, Bool, true, Option, Option-cases,
  none, some, inl, inr, List, [], ◌∷◌, Bool-cases, length, get_elem?, if◌then◌else◌, sub32,
}
use custom_os_kernel.UserThread.{Thread, Library, is_dead, find_thread, change, revived, claim}

-- What is found is a thread of the pool that passes the test.
pub find_thread-some :
    (test : Thread → Bool)
    → (ts : List Thread) → (i : ℕ) → find_thread test ts ≡ some i
    → (t : Thread) × (get_elem? ts i ≡ some t) × (test t ≡ true)
unfolding find_thread
find_thread-some test [] i e = absurd (none-ne_some e)
  where
    none-ne_some : {n : ℕ} → none ≢ some n
    none-ne_some = cc
find_thread-some test (t ∷ ts) i e = elim (Bool-cases (test t)) [
  | inl p ↦
      let at : 0 ≡ i = some-inj (sym (ap (λ (b : Bool). if b then some 0 else behind) p) ∙ e) in
      subst (λ j. (u : Thread) × (get_elem? (t ∷ ts) j ≡ some u) × (test u ≡ true)) at (t, refl, p)
  | inr n ↦
      let later = sym (ap (λ (b : Bool). if b then some 0 else behind) n) ∙ e in
      elim (Option-cases (find_thread test ts)) [
        | inl missing ↦ absurd (none-ne_some (sym (ap (λ o. next o) missing) ∙ later))
        | inr (k, found) ↦
            let at : suc k ≡ i = some-inj (sym (ap (λ o. next o) found) ∙ later) in
            subst (λ j. (u : Thread) × (get_elem? (t ∷ ts) j ≡ some u) × (test u ≡ true)) at
              (find_thread-some test ts k found)
      ]
]
  where
    some-inj : {m n : ℕ} → some m ≡ some n → m ≡ n
    some-inj q = cc

    none-ne_some : {n : ℕ} → none ≢ some n
    none-ne_some = cc

    next : Option ℕ → Option ℕ
    next o = elim o [ none ↦ none | some k ↦ some (suc k) ]

    behind : Option ℕ
    behind = next (find_thread test ts)

pub claim-new :
    (l : Library)
    → find_thread is_dead l.thread_pool ≡ none
    → claim l
      ≡ (none, sub32 l.parent_stack_top (length l.thread_pool * l.thread_stack_size % 2 ^ 32), l)
unfolding claim
claim-new l e = rw (claim, e) refl

pub claim-old :
    (l : Library)
    → (i : ℕ) → (t : Thread) → find_thread is_dead l.thread_pool ≡ some i
    → get_elem? l.thread_pool i ≡ some t
    → claim l ≡ (some i, t.stack_top, change i revived l)
unfolding claim
claim-old l i t e q = rw (claim, e, q) refl
