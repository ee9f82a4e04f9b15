-- ===== src/TcbPool/Lists.antt =====
-- What unlinking and linking do to the nodes of a pool and to its order, kern/scheduler/tcb_pool.c.
use custom_os_kernel.Base.{
  ℕ, ◌+◌, ◌≤◌, ◌<◌, ◌≡◌, refl, true, false, some, List, [], ◌∷◌, arith, if◌then◌else◌, ◌==◌, ltb,
  leb, inl, inr, Bool-cases, count, one_at,
}
use custom_os_kernel.Base.Int.{ℤ, pos, is_neg, is_nonpos}
use custom_os_kernel.Tcb.{Tcb, tcb_t_wakeup_cmp}
use custom_os_kernel.TcbPool.{without, unlink, link_behind, link_sorted}

pub count-without :
    (b a : ℕ) (xs : List ℕ) → 0 < count a xs → count b (without a xs) + one_at a b ≡ count b xs
count-without b a [] h = elim h [ ]
count-without b a (x ∷ xs) h = ground (arith, count-without b a xs)

pub unlink-held : (a : ℕ) (xs : List ℕ) → 0 < count a xs → unlink a xs ≡ some (pos 0, without a xs)
unfolding unlink
unlink-held a [] h = elim h [ ]
unlink-held a (x ∷ xs) h = let held : (count a (x ∷ xs) == 0) ≡ false = ground arith in rw held refl

-- Nodes by their time, earliest first.
abbrev pub Sorted : (ℕ → ℕ) → List ℕ → Type 0
Sorted w [] = Unit
Sorted w (a ∷ []) = Unit
Sorted w (a ∷ b ∷ bs) = (w a ≤ w b) × Sorted w (b ∷ bs)

abbrev pub behind : (ℕ → ℕ) → ℕ → List ℕ → List ℕ
behind w a [] = a ∷ []
behind w a (c ∷ cs) = if leb (w a) (w c) then a ∷ c ∷ cs else c ∷ behind w a cs

-- The place of a node by its time: behind the first, unless it comes before that.
abbrev pub inserted : (ℕ → ℕ) → ℕ → List ℕ → List ℕ
inserted w a [] = a ∷ []
inserted w a (b ∷ bs) = if ltb (w a) (w b) then a ∷ b ∷ bs else b ∷ behind w a bs

module _ (w : ℕ → ℕ) (a : ℕ) where
  count-behind : (b : ℕ) (xs : List ℕ) → count b (behind w a xs) ≡ count b xs + one_at a b
  count-behind b [] = ground arith
  count-behind b (x ∷ xs) = ground (arith, count-behind b xs)

  pub count-inserted : (b : ℕ) (xs : List ℕ) → count b (inserted w a xs) ≡ count b xs + one_at a b
  count-inserted b [] = ground arith
  count-inserted b (x ∷ xs) = ground (arith, count-behind b xs)

  behind-Sorted :
      (b : ℕ) (xs : List ℕ) → w b ≤ w a → Sorted w (b ∷ xs) → Sorted w (b ∷ behind w a xs)
  behind-Sorted b [] le s = (le, tt)
  behind-Sorted b (c ∷ cs) le s = elim (Bool-cases (leb (w a) (w c))) [
    | inl e ↦ rw e (le, (ground arith, s.1))
    | inr e ↦ rw e (s.0, behind-Sorted c cs (ground arith) s.1)
  ]

  pub inserted-Sorted : (xs : List ℕ) → Sorted w xs → Sorted w (inserted w a xs)
  inserted-Sorted [] s = tt
  inserted-Sorted (b ∷ bs) s = elim (Bool-cases (ltb (w a) (w b))) [
    | inl e ↦ rw e (ground arith, s)
    | inr e ↦ rw e (behind-Sorted b bs (ground arith) s)
  ]

-- The order of the wakeup times is the one that the pool of sleepers is sorted by.
abbrev wakes : (ℕ → Tcb) → ℕ → ℕ → ℤ
wakes tcbs a b = tcb_t_wakeup_cmp (tcbs a) (tcbs b)

abbrev pub time : (ℕ → Tcb) → ℕ → ℕ
time tcbs a = (tcbs a).t_wakeup

is_neg-wakes :
    (tcbs : ℕ → Tcb) (a b : ℕ) → is_neg (wakes tcbs a b) ≡ ltb (time tcbs a) (time tcbs b)
unfolding tcb_t_wakeup_cmp
is_neg-wakes tcbs a b = ground arith

is_nonpos-wakes :
    (tcbs : ℕ → Tcb) (a b : ℕ) → is_nonpos (wakes tcbs a b) ≡ leb (time tcbs a) (time tcbs b)
unfolding tcb_t_wakeup_cmp
is_nonpos-wakes tcbs a b = ground arith

module _ (tcbs : ℕ → Tcb) (a : ℕ) where
  link_behind-behind :
      (b : ℕ) (xs : List ℕ)
      → Sorted (time tcbs) (b ∷ xs)
      → time tcbs b ≤ time tcbs a
      → link_behind (wakes tcbs) a b xs ≡ some (b ∷ behind (time tcbs) a xs)
  unfolding link_behind
  link_behind-behind b [] s le = refl
  link_behind-behind b (c ∷ cs) s le =
      let in_order : leb (time tcbs b) (time tcbs c) ≡ true = ground arith in
      let after : ltb (time tcbs a) (time tcbs b) ≡ false = ground arith in
      rw
        (is_nonpos-wakes tcbs b c, is_neg-wakes tcbs a b, is_nonpos-wakes tcbs a c, in_order, after)
        (elim (Bool-cases (leb (time tcbs a) (time tcbs c))) [
          | inl e ↦ rw e refl
          | inr e ↦ rw (e, link_behind-behind c cs s.1 (ground arith)) refl
        ])

  -- On a pool in order no assertion fails, and the node comes to its place.
  pub link_sorted-inserted :
      (xs : List ℕ)
      → Sorted (time tcbs) xs
      → link_sorted (wakes tcbs) a xs ≡ some (inserted (time tcbs) a xs)
  unfolding link_sorted
  link_sorted-inserted [] s = refl
  link_sorted-inserted (b ∷ bs) s = elim (Bool-cases (ltb (time tcbs a) (time tcbs b))) [
    | inl e ↦ rw (is_neg-wakes tcbs a b, e) refl
    | inr e ↦ rw (is_neg-wakes tcbs a b, e) (link_behind-behind b bs s (ground arith))
  ]

Sorted-drop : (w : ℕ → ℕ) (a : ℕ) (xs : List ℕ) → Sorted w (a ∷ xs) → Sorted w xs
Sorted-drop w a [] s = tt
Sorted-drop w a (b ∷ xs) s = s.1

Sorted-under : (w : ℕ → ℕ) (b a : ℕ) (xs : List ℕ) → Sorted w (b ∷ xs) → Sorted w (b ∷ without a xs)
Sorted-under w b a [] s = tt
Sorted-under w b a (c ∷ []) s = elim (Bool-cases (c == a)) [ inl e ↦ rw e tt | inr e ↦ rw e s ]
Sorted-under w b a (c ∷ d ∷ xs) s = elim (Bool-cases (c == a)) [
  | inl e ↦ rw e (omega arith, s.1.1)
  | inr e ↦ rw e (s.0, Sorted-under w c a (d ∷ xs) s.1)
]

pub Sorted-without : (w : ℕ → ℕ) (a : ℕ) (xs : List ℕ) → Sorted w xs → Sorted w (without a xs)
Sorted-without w a [] s = tt
Sorted-without w a (b ∷ xs) s = elim (Bool-cases (b == a)) [
  | inl e ↦ rw e (Sorted-drop w b xs s)
  | inr e ↦ rw e (Sorted-under w b a xs s)
]

-- Only the times of the nodes in the list matter.
pub Sorted-ext :
    (w w' : ℕ → ℕ) (xs : List ℕ)
    → ((b : ℕ) → 0 < count b xs → w b ≡ w' b)
    → Sorted w xs
    → Sorted w' xs
Sorted-ext w w' [] same s = tt
Sorted-ext w w' (a ∷ []) same s = tt
Sorted-ext w w' (a ∷ b ∷ xs) same s = (
  omega (arith, same a (ground arith), same b (ground arith), s.0),
  Sorted-ext w w' (b ∷ xs) (λ c held. same c (ground arith)) s.1,
)

pub Sorted-head :
    (w : ℕ → ℕ) (a b : ℕ) (xs : List ℕ) → Sorted w (a ∷ xs) → 0 < count b (a ∷ xs) → w a ≤ w b
Sorted-head w a b [] s held = ground arith
Sorted-head w a b (c ∷ xs) s held = elim (Bool-cases (a == b)) [
  | inl e ↦ ground arith
  | inr e ↦
      let later : w c ≤ w b = Sorted-head w c b xs s.1 (ground arith) in omega (arith, later, s.0)
]

pub without-head : (a : ℕ) (xs : List ℕ) → without a (a ∷ xs) ≡ xs
without-head a xs = let itself : (a == a) ≡ true = ground arith in rw itself refl
