-- ===== src/Heap/Dll.antt =====
-- Doubly linked segments over an explicit heap.
use custom_os_kernel.Base.{
  ℕ, ◌≡◌, ◌≢◌, refl, Bool, true, false, ◌||◌, ◌==◌, Option, some, List, [], ◌∷◌, ◌++◌, arith,
}
use custom_os_kernel.Heap.{Ptr, null, Node, node, Heap, write}

-- What a list stands for: address and word of each node, in order.
abbrev pub Cells : Type 0
Cells = List (Ptr × ℕ)

abbrev pub has : Ptr → Cells → Bool
has a [] = false
has a ((b, _) ∷ xs) = (a == b) || has a xs

abbrev pub Distinct : Cells → Type 0
Distinct [] = Unit
Distinct ((a, _) ∷ xs) = (has a xs ≡ false) × Distinct xs

-- The first address of `xs`, or `n` where it is empty; the last one, or `p`.
abbrev pub first : Cells → Ptr → Ptr
first [] n = n
first ((a, _) ∷ xs) n = a

abbrev pub last : Ptr → Cells → Ptr
last p [] = p
last p ((a, _) ∷ xs) = last a xs

-- `p` is a live node with these fields.
pub record At (h : Heap) (p : Ptr) (n : Node) : Type 0 where
  pub ne_null : p ≢ null
  pub holds : h p ≡ some n

-- The nodes of `xs` are linked to each other, back to `p` and on to `n`.
abbrev pub Dll : Heap → Ptr → Cells → Ptr → Type 0
Dll h p [] n = Unit
Dll h p ((a, v) ∷ xs) n = At h a (node v (first xs n) p) × Dll h a xs n

abbrev pub Disjoint : Cells → Cells → Type 0
Disjoint xs ys = (a : Ptr) → has a xs ≡ true → has a ys ≡ false

abbrev pub SameOutside : Cells → Heap → Heap → Type 0
SameOutside xs h g = (a : Ptr) → has a xs ≡ false → g a ≡ h a

abbrev pub SameOn : Cells → Heap → Heap → Type 0
SameOn xs h g = (a : Ptr) → has a xs ≡ true → g a ≡ h a

pub has-append : (a : Ptr) (xs ys : Cells) → has a (xs ++ ys) ≡ (has a xs || has a ys)
has-append a [] ys = refl
has-append a ((b, _) ∷ xs) ys = ground (arith, has-append a xs ys)

pub first-append : (xs ys : Cells) (n : Ptr) → first (xs ++ ys) n ≡ first xs (first ys n)
first-append [] ys n = refl
first-append (x ∷ xs) ys n = refl

pub last-append : (p : Ptr) (xs ys : Cells) → last p (xs ++ ys) ≡ last (last p xs) ys
last-append p [] ys = refl
last-append p ((a, _) ∷ xs) ys = last-append a xs ys

module _ (h : Heap) where
  pub Dll-frame :
      {g : Heap} (p : Ptr) (xs : Cells) (n : Ptr) → Dll h p xs n → SameOn xs h g → Dll g p xs n
  Dll-frame p [] n d same = tt
  Dll-frame p ((a, v) ∷ xs) n d same =
      (ground (arith, same a), Dll-frame a xs n d.1 (λ b i. same b (ground arith)))

  pub Dll-write :
      (p : Ptr) (xs : Cells) (n a : Ptr) (c : Option Node)
      → Dll h p xs n
      → has a xs ≡ false
      → Dll (write h a c) p xs n
  unfolding write
  Dll-write p xs n a c d out = Dll-frame p xs n d (λ b i. ground arith)

  pub Dll-append :
      (p : Ptr) (xs ys : Cells) (n : Ptr)
      → Dll h p xs (first ys n)
      → Dll h (last p xs) ys n
      → Dll h p (xs ++ ys) n
  Dll-append p [] ys n d e = e
  Dll-append p ((a, v) ∷ xs) ys n d e = (rw (first-append xs ys n) d.0, Dll-append a xs ys n d.1 e)

  pub Dll-front :
      (p : Ptr) (xs ys : Cells) (n : Ptr) → Dll h p (xs ++ ys) n → Dll h p xs (first ys n)
  Dll-front p [] ys n d = tt
  Dll-front p ((a, v) ∷ xs) ys n d = (rw (first-append xs ys n) at d.0, Dll-front a xs ys n d.1)

  pub Dll-back : (p : Ptr) (xs ys : Cells) (n : Ptr) → Dll h p (xs ++ ys) n → Dll h (last p xs) ys n
  Dll-back p [] ys n d = d
  Dll-back p ((a, v) ∷ xs) ys n d = Dll-back a xs ys n d.1

pub Distinct-append :
    (xs ys : Cells) → Distinct xs → Distinct ys → Disjoint xs ys → Distinct (xs ++ ys)
Distinct-append [] ys d e apart = e
Distinct-append ((a, v) ∷ xs) ys d e apart = (
  ground (arith, has-append a xs ys, apart a),
  Distinct-append xs ys d.1 e (λ b i. apart b (ground arith)),
)

pub Distinct-split :
    (xs ys : Cells) → Distinct (xs ++ ys) → Distinct xs × Distinct ys × Disjoint xs ys
Distinct-split [] ys d = (tt, d, λ a i. cc)
Distinct-split ((a, v) ∷ xs) ys d =
    let (dx, dy, apart) = Distinct-split xs ys d.1 in
    (
      (ground (arith, has-append a xs ys), dx),
      dy,
      λ b i. ground (arith, has-append a xs ys, apart b),
    )
