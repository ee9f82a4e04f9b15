-- ===== src/UserList/Remove.antt =====
-- Which node `ll_remove` of user/libthread/ll.c finds.
use custom_os_kernel.Base.{
  ℕ, ◌≡◌, ◌≢◌, refl, sym, ap, ◌∙◌, Bool, true, false, Bool-cases, ◌⊎◌, inl, inr, ◌||◌, some, List,
  [], ◌∷◌, if◌then◌else◌, ◌==◌, sub32, arith,
}
use custom_os_kernel.Base.Int.{pos, neg}
use custom_os_kernel.UserList.{
  Node, UserList, Removal, missing, reset, unlinked, in_front, remove_from, removed, ll_remove,
}

-- Some node holds the word, and the nodes without the first such one.
abbrev pub holds : ℕ → List Node → Bool
holds d [] = false
holds d (n ∷ ns) = n.e == d || holds d ns

abbrev pub without : ℕ → List Node → List Node
without d [] = []
without d (n ∷ ns) = if n.e == d then ns else n ∷ without d ns

-- One round of the loop, by whether the next node holds the word.
abbrev step : Bool → ℕ → Node → List Node → Removal → Removal
step b d n ns rest = if b then (if n.e == d then reset else unlinked (n ∷ ns)) else in_front n rest

step_path :
    (d : ℕ) (n m : Node) (ns : List Node)
    → (m.e == d) ≡ false
    → remove_from d n (m ∷ ns) ≡ in_front n (remove_from d m ns)
unfolding remove_from
step_path d n m ns other = ap (λ b. step b d n ns (remove_from d m ns)) other

remove_from-missing :
    (d : ℕ) (n m : Node) (ns : List Node)
    → holds d (m ∷ ns) ≡ false
    → remove_from d n (m ∷ ns) ≡ missing
unfolding remove_from
remove_from-missing d n m [] away =
    let other : (m.e == d) ≡ false = ground (arith, away) in rw (other, remove_from) refl
remove_from-missing d n m (k ∷ ns) away =
    let other : (m.e == d) ≡ false = ground (arith, away) in
    let rest = remove_from-missing d m k ns (ground (arith, away)) in
    step_path d n m (k ∷ ns) other ∙ ap (in_front n) rest

remove_from-unlinked :
    (d : ℕ) (n : Node) (ns : List Node)
    → (n.e == d) ≡ false
    → holds d ns ≡ true
    → remove_from d n ns ≡ unlinked (n ∷ without d ns)
unfolding remove_from
remove_from-unlinked d n [] other held = absurd (ground (arith, held))
remove_from-unlinked d n (m ∷ ns) other held = elim (Bool-cases (m.e == d)) [
  | inl e ↦ rw (e, remove_from) (rw other refl)
  | inr e ↦
      let rest = remove_from-unlinked d m ns e (ground (arith, held, e)) in
      step_path d n m ns e
      ∙ ap (in_front n) rest
      ∙ ap (λ b. unlinked (n ∷ (if b then ns else m ∷ without d ns))) (sym e)
]

-- On a list of two nodes or more, with a word that the first node does not hold or no node behind it
-- holds: where one behind the first holds it, the first such one is unlinked, the call returns 0, and
-- the tail stays as it was; else the call returns -1 and nothing is removed, even where the first node
-- holds the word.
pub remove-behind :
    (size tail d : ℕ) (n m : Node) (ns : List Node)
    → (n.e ≢ d) ⊎ (holds d (m ∷ ns) ≡ false)
    → ll_remove (some (record { size = size; nodes = n ∷ m ∷ ns; tail = tail })) d ≡ (
        if holds d (m ∷ ns)
        then (
          pos 0,
          some (record { size = sub32 size 1; nodes = n ∷ without d (m ∷ ns); tail = tail }),
        )
        else (neg 1, some (record { size = size; nodes = n ∷ m ∷ ns; tail = tail })))
unfolding ll_remove
remove-behind size tail d n m ns (inr away) = rw away (
    ap (removed (record { size = size; nodes = n ∷ m ∷ ns; tail = tail }))
      (remove_from-missing d n m ns away))
remove-behind size tail d n m ns (inl ne) =
    let l : UserList = record { size = size; nodes = n ∷ m ∷ ns; tail = tail } in
    elim (Bool-cases (holds d (m ∷ ns))) [
      | inl held ↦
          rw held (ap (removed l) (remove_from-unlinked d n (m ∷ ns) (ground (arith, ne)) held))
      | inr away ↦ rw away (ap (removed l) (remove_from-missing d n m ns away))
    ]
