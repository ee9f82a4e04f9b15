-- ===== src/LinkedList/Sorted.antt =====
-- `ll_link_node_sorted` puts a node where the order wants it.
use custom_os_kernel.Base.{
  ℕ, zero, suc, ◌+◌, ◌^◌, ◌<◌, ◌≡◌, refl, sym, ap, subst, true, false, Option, some, [], ◌∷◌, ◌++◌,
  arith, length, append-nil, ◌==◌, if◌then◌else◌, inl, inr, Bool-cases,
}
use custom_os_kernel.Base.Int.{ℤ, pos, negsuc, is_neg, is_nonpos}
use custom_os_kernel.Heap.{Ptr, null, Heap, done, M, ◌>>=◌, load, assert}
use custom_os_kernel.Heap.Ends.{Ends, weaken}
use custom_os_kernel.Heap.Dll.{Cells, has, Dll}
use custom_os_kernel.Heap.Rules.{not_null, load-At, last-At}
use custom_os_kernel.LinkedList.{Ll, ll_link_node_last}
use custom_os_kernel.LinkedList.Loops.{sorted_loop, link_behind, ll_link_node_sorted}
use custom_os_kernel.LinkedList.Inv.{Linked, list_of, Detached, Now}
use custom_os_kernel.LinkedList.Behind.{a-At, back-Dll, link_behind_lem}
use custom_os_kernel.LinkedList.Link.{link_last_lem, link_first_lem}

module _ (cmp : ℕ → ℕ → ℤ) where
  -- Neighbours are in order.
  abbrev pub IsSorted : Cells → Type 0
  IsSorted [] = Unit
  IsSorted ((a, x) ∷ []) = Unit
  IsSorted ((a, x) ∷ (c, y) ∷ ys) = (is_nonpos (cmp x y) ≡ true) × IsSorted ((c, y) ∷ ys)

  abbrev pub NoNull : Cells → Type 0
  NoNull [] = Unit
  NoNull ((a, x) ∷ xs) = ((x == null) ≡ false) × NoNull xs

  -- Where a word goes that does not come before the first one.
  unfoldable pub place : Ptr × ℕ → Cells → Cells
  place n [] = n ∷ []
  place n (m ∷ []) = m ∷ n ∷ []
  place n (m ∷ (c, y) ∷ ys) =
      if is_nonpos (cmp n.1 y) then m ∷ n ∷ (c, y) ∷ ys else m ∷ place n ((c, y) ∷ ys)

  unfoldable pub insert : Ptr × ℕ → Cells → Cells
  insert n [] = n ∷ []
  insert n ((a, x) ∷ xs) = if is_neg (cmp n.1 x) then n ∷ (a, x) ∷ xs else place n ((a, x) ∷ xs)

  positive : (s : ℤ) → is_nonpos s ≡ false → is_neg s ≡ false
  positive (pos zero) e = refl
  positive (pos (suc n)) e = refl
  positive (negsuc n) e = cc

  sorted_loop_lem :
      (k : ℕ) {h : Heap} (prev b v a x : ℕ) (xs : Cells)
      → Dll h prev ((a, x) ∷ xs) null
      → IsSorted ((a, x) ∷ xs)
      → NoNull ((a, x) ∷ xs)
      → is_neg (cmp v x) ≡ false
      → length xs < k
      → (front : Cells) × (p : ℕ) × (w : ℕ) × (back : Cells) × (sorted_loop k cmp v a h
          ≡ done (some p) h)
        × ((a, x) ∷ xs ≡ (front ++ ((p, w) ∷ [])) ++ back)
        × (place (b, v) ((a, x) ∷ xs) ≡ (front ++ ((p, w) ∷ [])) ++ ((b, v) ∷ back))
  unfolding sorted_loop place assert
  sorted_loop_lem zero prev b v a x xs d s n ge fuel = elim fuel [ ]
  sorted_loop_lem (suc k) prev b v a x [] d s n ge fuel =
      ([], a, x, [], rw (load-At d.0), refl, refl)
  sorted_loop_lem (suc k) prev b v a x ((c, y) ∷ xs) d s n ge fuel =
      elim (Bool-cases (is_nonpos (cmp v y))) [
        | inl le ↦ (
          [],
          a,
          x,
          (c, y) ∷ xs,
          rw (load-At d.0, not_null d.1.0, n.0, load-At d.1.0, s.0, ge, le),
          refl,
          rw le,
        )
        | inr gt ↦
            let (front, p, w, back, run, split, placed) =
              sorted_loop_lem k a b v c y xs d.1 s.1 n.1 (positive (cmp v y) gt) (omega arith) in
            (
              (a, x) ∷ front,
              p,
              w,
              back,
              rw (load-At d.0, not_null d.1.0, n.0, load-At d.1.0, s.0, ge, gt) run,
              ap (λ l. (a, x) ∷ l) split,
              rw gt (ap (λ l. (a, x) ∷ l) placed),
            )
      ]

neg_nonpos : (s : ℤ) → is_neg s ≡ true → is_nonpos s ≡ true
neg_nonpos (pos zero) e = refl
neg_nonpos (pos (suc n)) e = cc
neg_nonpos (negsuc n) e = refl

module _ (cmp : ℕ → ℕ → ℤ) where
  -- The first cell stays first.
  place-head :
      (b v c y : ℕ) (xs : Cells) → (rest : Cells) × (place cmp (b, v) ((c, y) ∷ xs) ≡ (c, y) ∷ rest)
  unfolding place
  place-head b v c y [] = ((b, v) ∷ [], refl)
  place-head b v c y ((d, z) ∷ xs) = elim (Bool-cases (is_nonpos (cmp v z))) [
    | inl le ↦ ((b, v) ∷ (d, z) ∷ xs, rw le)
    | inr gt ↦ (place cmp (b, v) ((d, z) ∷ xs), rw gt)
  ]

  place-behind :
      (a x c y : ℕ) (zs : Cells)
      → (rest : Cells) × (zs ≡ (c, y) ∷ rest)
      → is_nonpos (cmp x y) ≡ true
      → IsSorted cmp zs
      → IsSorted cmp ((a, x) ∷ zs)
  place-behind a x c y zs (rest, e) le s = rw e (le, rw e at s)

module _ (cmp : ℕ → ℕ → ℤ)
    (connex : (u w : ℕ) → is_neg (cmp u w) ≡ false → is_nonpos (cmp w u) ≡ true) where
  before : (u w : ℕ) → is_neg (cmp u w) ≡ true → is_nonpos (cmp u w) ≡ true
  before u w = neg_nonpos (cmp u w)

  place-IsSorted :
      (b v a x : ℕ) (xs : Cells)
      → IsSorted cmp ((a, x) ∷ xs)
      → is_neg (cmp v x) ≡ false
      → IsSorted cmp (place cmp (b, v) ((a, x) ∷ xs))
  unfolding place
  place-IsSorted b v a x [] s ge = (connex v x ge, tt)
  place-IsSorted b v a x ((c, y) ∷ xs) s ge = elim (Bool-cases (is_nonpos (cmp v y))) [
    | inl le ↦ rw le (connex v x ge, (le, s.1))
    | inr gt ↦ rw gt (
        place-behind cmp a x c y (place cmp (b, v) ((c, y) ∷ xs)) (place-head cmp b v c y xs) s.0
          (place-IsSorted b v c y xs s.1 (positive cmp (cmp v y) gt)))
  ]

  -- Where neighbours were in order, they are with the new word in its place.
  pub insert-IsSorted :
      (b v : ℕ) (xs : Cells) → IsSorted cmp xs → IsSorted cmp (insert cmp (b, v) xs)
  unfolding insert
  insert-IsSorted b v [] s = tt
  insert-IsSorted b v ((a, x) ∷ xs) s = elim (Bool-cases (is_neg (cmp v x))) [
    | inl lt ↦ rw lt (before v x lt, s)
    | inr ge ↦ rw ge (place-IsSorted b v a x xs s ge)
  ]

-- The last step: behind the node `p`, at the end or between two.
step : Cells → Ptr → Ptr → M (ℤ × Option Ll)
step whole p b = do
  c ← load p
  if c.next == null
      then ll_link_node_last (some (list_of whole)) b
      else link_behind (list_of whole) p b

finish :
    {h : Heap} (front : Cells) (p w : ℕ) (back : Cells) (b v : ℕ)
    → Linked h ((front ++ ((p, w) ∷ [])) ++ back)
    → Detached h b v
    → has b ((front ++ ((p, w) ∷ [])) ++ back) ≡ false
    → suc (length ((front ++ ((p, w) ∷ [])) ++ back)) < 2 ^ 32
    → Ends
        (Now
          ((b, v) ∷ ((front ++ ((p, w) ∷ [])) ++ back))
          ((front ++ ((p, w) ∷ [])) ++ ((b, v) ∷ back))
          h)
        (step ((front ++ ((p, w) ∷ [])) ++ back) p b h)
unfolding step
finish {h} front p w [] b v l new out room =
    let same = append-nil (front ++ ((p, w) ∷ [])) in
    let l' = subst (Linked h) same l in
    rw (same, load-At (last-At h null front p w null l'.nodes l'.distinct))
      (link_last_lem (front ++ ((p, w) ∷ [])) b v l' new (rw same at out) (rw same at room))
finish {h} front p w ((c, y) ∷ ys) b v l new out room =
    rw
      (
        load-At (a-At front p w c y ys b v l new out),
        not_null (back-Dll front p w c y ys b v l new out).0,
      )
      (link_behind_lem front p w c y ys b v l new out room)

module _ (cmp : ℕ → ℕ → ℤ) {h : Heap} (b v : ℕ) (new : Detached h b v)
    (filled : (v == null) ≡ false) where
  -- The node goes behind every word that comes before its own, and before the rest.
  pub link_sorted_lem :
      (xs : Cells)
      → Linked h xs
      → has b xs ≡ false
      → suc (length xs) < 2 ^ 32
      → IsSorted cmp xs
      → NoNull cmp xs
      → Ends
          (Now ((b, v) ∷ xs) (insert cmp (b, v) xs) h)
          (ll_link_node_sorted (some (list_of xs)) b (some cmp) h)
  unfolding ll_link_node_sorted insert step
  link_sorted_lem [] l out room s n =
      rw (not_null new, load-At new, filled) (link_last_lem [] b v l new out room)
  link_sorted_lem ((a, x) ∷ xs) l out room s n = elim (Bool-cases (is_neg (cmp v x))) [
    | inl lt ↦
        rw (not_null new, load-At new, filled, not_null l.nodes.0, load-At l.nodes.0, lt)
          (link_first_lem ((a, x) ∷ xs) b v l new out room)
    | inr ge ↦
        let (front, p, w, back, run, split, placed) =
          sorted_loop_lem cmp (suc (length xs) + 1) null b v a x xs l.nodes s n ge (omega arith) in
        rw
          (
            not_null new,
            load-At new,
            filled,
            not_null l.nodes.0,
            load-At l.nodes.0,
            ge,
            run,
            placed,
          )
          (subst
            (λ whole.
              Ends (Now ((b, v) ∷ whole) ((front ++ ((p, w) ∷ [])) ++ ((b, v) ∷ back)) h)
                (step whole p b h))
            (sym split)
            (finish front p w back b v (subst (Linked h) split l) new
              (subst (λ c. has b c ≡ false) split out)
              (subst (λ c. suc (length c) < 2 ^ 32) split room)))
  ]

-- With a comparison where one of two words comes before the other, a detached node that carries a word
-- other than NULL is linked into a list in order that has no NULL words and room for one more: the
-- call returns 0, the list holds its old nodes and the new one where the order wants it, it is in
-- order again, and only these nodes are written.
pub link-IsSorted :
    (cmp : ℕ → ℕ → ℤ)
    → ((u w : ℕ) → is_neg (cmp u w) ≡ false → is_nonpos (cmp w u) ≡ true)
    → {h : Heap} (b v : ℕ) (xs : Cells) → Detached h b v
    → (v == null) ≡ false
    → Linked h xs
    → has b xs ≡ false
    → suc (length xs) < 2 ^ 32
    → IsSorted cmp xs
    → NoNull cmp xs
    → Ends
        (λ r g.
          Now ((b, v) ∷ xs) (insert cmp (b, v) xs) h r g × IsSorted cmp (insert cmp (b, v) xs))
        (ll_link_node_sorted (some (list_of xs)) b (some cmp) h)
link-IsSorted cmp connex b v xs new filled l out room s n =
    weaken (link_sorted_lem cmp b v new filled xs l out room s n)
      (λ r g now. (now, insert-IsSorted cmp connex b v xs s))
