-- ===== src/Heap/Rules.antt =====
-- What each heap command does at a live node, and how it keeps segments.
use custom_os_kernel.Base.{
  ℕ, ◌≡◌, ◌∙◌, ◌≢◌, refl, true, false, not, ◌==◌, Option, none, some, [], ◌∷◌, ◌++◌, arith,
  if◌then◌else◌, ◌⊎◌, inl, inr, subst, sym, ap, Bool-cases, ==_iff,
}
use mathlib.Core.Bool.{false≢true}
use custom_os_kernel.Heap.{
  Ptr, null, Node, node, Heap, write, done, pure, alloc, load, store, set_next, set_prev, free,
}
use custom_os_kernel.Heap.Ends.{Ends, ends}
use custom_os_kernel.Heap.Dll.{
  Cells, has, Distinct, first, last, At, Dll, SameOutside, Dll-append, Dll-front, Dll-back,
  Dll-write, Distinct-split, has-append, last-append, Disjoint,
}

module _ {h : Heap} {p : Ptr} {n : Node} (a : At h p n) where
  pub not_null : (p == null) ≡ false
  not_null = ground (arith, a.ne_null)

  pub load-At : load p h ≡ done n h
  unfolding load
  load-At = rw (not_null, a.holds)

  pub set_next-At : (q : Ptr) → set_next p q h ≡ done tt (write h p (some (record n { next = q })))
  unfolding set_next
  set_next-At q = rw (not_null, a.holds)

  pub set_prev-At : (q : Ptr) → set_prev p q h ≡ done tt (write h p (some (record n { prev = q })))
  unfolding set_prev
  set_prev-At q = rw (not_null, a.holds)

  pub store-At : (m : Node) → store p m h ≡ done tt (write h p (some m))
  unfolding store
  store-At m = rw (not_null, a.holds)

  pub free-At : free p h ≡ done tt (write h p none)
  unfolding free
  free-At = rw (not_null, a.holds)

  pub At-same : (g : Heap) → g p ≡ h p → At g p n
  At-same g e = record { ne_null = a.ne_null; holds = e ∙ a.holds }

  pub At-write_self : (m : Node) → At (write h p (some m)) p m
  unfolding write
  At-write_self m = record { ne_null = a.ne_null; holds = ground arith }

  pub At-write_ne : (q : Ptr) (c : Option Node) → p ≢ q → At (write h q c) p n
  unfolding write
  At-write_ne q c ne = record { ne_null = a.ne_null; holds = ground (arith, a.holds) }

pub alloc-At :
    (h : Heap) (p : Ptr) → p ≢ null → alloc p h ≡ done tt (write h p (some (node 0 null null)))
unfolding alloc
alloc-At h p ne = let b : (p == null) ≡ false = ground arith in rw b

pub same-write :
    (h : Heap) (xs : Cells) (p : Ptr) (c : Option Node)
    → has p xs ≡ true
    → SameOutside xs h (write h p c)
unfolding write
same-write h xs p c i a o = ground arith

-- `if (first != NULL) first->prev = q;` makes the segment hang from `q`.
pub fix_first :
    {h : Heap} (p : Ptr) (ys : Cells) (q : Ptr)
    → Dll h p ys null
    → Distinct ys
    → Ends
        (λ _ g. Dll g q ys null × SameOutside ys h g)
        ((if not (first ys null == null) then set_prev (first ys null) q else pure tt) h)
fix_first p [] q d dis = ends (tt, λ a o. refl)
fix_first {h} p ((a, v) ∷ ys) q d dis =
    rw (not_null d.0, set_prev-At d.0 q)
      (ends (
        (At-write_self d.0 _, Dll-write h a ys null a _ d.1 dis.0),
        same-write h ((a, v) ∷ ys) a _ (ground arith),
      ))

pub apart_sym : (xs ys : Cells) (a : Ptr) → Disjoint xs ys → has a ys ≡ true → has a xs ≡ false
apart_sym xs ys a apart i = ground (arith, apart a)

-- The empty list, or the last cell and those before it.
pub snoc-cases :
    (xs : Cells) → (xs ≡ []) ⊎ ((ys : Cells) × (t : Ptr) × (w : ℕ) × (xs ≡ ys ++ ((t, w) ∷ [])))
snoc-cases [] = inl refl
snoc-cases ((a, v) ∷ xs) = elim (snoc-cases xs) [
  | inl e ↦ inr ([], a, v, rw e)
  | inr (ys, t, w, e) ↦ inr ((a, v) ∷ ys, t, w, rw e)
]

module _ (h : Heap) (p : Ptr) (ys : Cells) (t : Ptr) (w : ℕ) (m : Ptr)
    (d : Dll h p (ys ++ ((t, w) ∷ [])) m) (dis : Distinct (ys ++ ((t, w) ∷ []))) where
  pub last-At : At h t (node w m (last p ys))
  last-At = (Dll-back h p ys ((t, w) ∷ []) m d).0

  pub last-not-mem : has t ys ≡ false
  last-not-mem = apart_sym ys ((t, w) ∷ []) t (Distinct-split ys ((t, w) ∷ []) dis).2 (ground arith)

  -- Writing the `next` field of the last node makes the segment lead elsewhere.
  pub relink_last :
      (m' : Ptr) → Dll (write h t (some (node w m' (last p ys)))) p (ys ++ ((t, w) ∷ [])) m'
  relink_last m' =
      Dll-append _ p ys ((t, w) ∷ []) m'
        (Dll-write h p ys t t _ (Dll-front h p ys ((t, w) ∷ []) m d) last-not-mem)
        (At-write_self last-At _, tt)

-- `if (last != NULL) last->next = m';` makes the segment lead on to `m'`.
pub fix_last :
    {h : Heap} (xs : Cells) (m m' : Ptr)
    → Dll h null xs m
    → Distinct xs
    → Ends
        (λ _ g. Dll g null xs m' × SameOutside xs h g)
        ((if not (last null xs == null) then set_next (last null xs) m' else pure tt) h)
fix_last {h} xs m m' d dis = elim (snoc-cases xs) [
  | inl e ↦ rw e (ends (tt, λ a o. refl))
  | inr (ys, t, w, e) ↦
      let d' = subst (λ c. Dll h null c m) e d in
      let dis' = subst Distinct e dis in
      let at = last-At h null ys t w m d' dis' in
      rw (e, last-append null ys ((t, w) ∷ []), not_null at, set_next-At at m')
        (ends (
          relink_last h null ys t w m d' dis' m',
          same-write h (ys ++ ((t, w) ∷ [])) t _ (ground (arith, has-append t ys ((t, w) ∷ []))),
        ))
]

-- An address with no node is in no segment.
pub not-mem_of_none :
    (h : Heap) (a p : Ptr) (xs : Cells) (n : Ptr) → h a ≡ none → Dll h p xs n → has a xs ≡ false
not-mem_of_none h a p [] n unused d = refl
not-mem_of_none h a p ((b, v) ∷ xs) n unused d =
    ground (arith, d.0.holds, not-mem_of_none h a b xs n unused d.1)

pub mem-ne_null :
    (h : Heap) (a p : Ptr) (xs : Cells) (n : Ptr)
    → Dll h p xs n
    → has a xs ≡ true
    → (a == null) ≡ false
mem-ne_null h a p [] n d i = cc
mem-ne_null h a p ((b, v) ∷ xs) n d i = ground (arith, d.0.ne_null, mem-ne_null h a b xs n d.1)

pub last-mem : (b c : Ptr) (w : ℕ) (ys : Cells) → has (last b ((c, w) ∷ ys)) ((c, w) ∷ ys) ≡ true
last-mem b c w [] = ground arith
last-mem b c w ((d, x) ∷ ys) = ground (arith, last-mem c d x ys)

pub last-ne :
    (b a c : Ptr) (w : ℕ) (ys : Cells)
    → has a ((c, w) ∷ ys) ≡ false
    → (a == last b ((c, w) ∷ ys)) ≡ false
last-ne b a c w ys out = elim (Bool-cases (a == last b ((c, w) ∷ ys))) [
  | inl same ↦
      let e : a ≡ last b ((c, w) ∷ ys) = (==_iff _ _).0 same in
      absurd (false≢true (sym out ∙ (ap (λ p. has p ((c, w) ∷ ys)) e ∙ last-mem b c w ys)))
  | inr differ ↦ differ
]

-- `last->next = m';` on a list that is not empty.
pub fix_tail :
    {h : Heap} (c : Ptr) (w : ℕ) (ys : Cells) (m m' : Ptr)
    → Dll h null ((c, w) ∷ ys) m
    → Distinct ((c, w) ∷ ys)
    → Ends
        (λ _ g. Dll g null ((c, w) ∷ ys) m' × SameOutside ((c, w) ∷ ys) h g)
        (set_next (last null ((c, w) ∷ ys)) m' h)
fix_tail {h} c w ys m m' d dis =
    rw (mem-ne_null h (last c ys) null ((c, w) ∷ ys) m d (last-mem null c w ys)) at
      (fix_last ((c, w) ∷ ys) m m' d dis)
