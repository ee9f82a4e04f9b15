-- ===== src/CircBuf/Spec.antt =====
-- What a circular buffer promises: a queue of fewer than `len` words, oldest first, whose last
-- write can be taken back.
use custom_os_kernel.Base.{
  ℕ, ◌+◌, Bool, Option, none, some, List, [], ◌∷◌, ◌++◌, if◌then◌else◌, ◌==◌, length, ◌≡◌, refl, ap,
}
use custom_os_kernel.Base.Int.{ℤ, pos, neg}

-- A client's calls, and what it sees of each.
pub data Op : Type 0 where
  put : ℕ → Op
  get : Bool → Op
  undo : Op

abbrev pub Reply : Type 0
Reply = ℤ × Option ℕ

-- The list without its last value.
unfoldable pub drop_last {ℓ} : {A : Type ℓ} → List A → List A
drop_last [] = []
drop_last (x ∷ []) = []
drop_last (x ∷ y ∷ xs) = x ∷ drop_last (y ∷ xs)

pub drop_last-append {ℓ} : {A : Type ℓ} (xs : List A) (x : A) → drop_last (xs ++ (x ∷ [])) ≡ xs
unfolding drop_last
drop_last-append [] x = refl
drop_last-append (y ∷ []) x = refl
drop_last-append (y ∷ z ∷ xs) x = ap (λ l. y ∷ l) (drop_last-append (z ∷ xs) x)

abbrev pub apply : (len : ℕ) → List ℕ → Op → Reply × List ℕ
apply len q (put x) =
    if length q + 1 == len then ((neg 1, none), q) else ((pos 0, none), q ++ (x ∷ []))
apply len [] (get wanted) = ((neg 2, none), [])
apply len (x ∷ q) (get wanted) = ((pos 0, if wanted then some x else none), q)
apply len [] undo = ((neg 2, none), [])
apply len (x ∷ q) undo = ((pos 0, none), drop_last (x ∷ q))

unfoldable pub run : (len : ℕ) → List ℕ → List Op → List Reply
run len q [] = []
run len q (op ∷ ops) = let (r, q') = apply len q op in r ∷ run len q' ops
