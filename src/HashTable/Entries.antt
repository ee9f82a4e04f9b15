-- ===== src/HashTable/Entries.antt =====
-- Buckets: lists of entries with distinct keys.
use custom_os_kernel.Base.{
  ℕ, ◌≡◌, ◌≢◌, refl, subst, ◌∙◌, true, false, Bool-cases, inl, inr, none, some, List, [], ◌∷◌, ◌++◌,
  arith, ◌==◌,
}
use custom_os_kernel.HashTable.{Entry, find_entry, drop_entry}

abbrev pub Distinct : List Entry → Type 0
Distinct [] = Unit
Distinct (e ∷ es) = (find_entry e.key es ≡ none) × Distinct es

pub find-append_self :
    (es : List Entry) (e : Entry)
    → find_entry e.key es ≡ none
    → find_entry e.key (es ++ (e ∷ [])) ≡ some e
find-append_self [] e h = let itself : (e.key == e.key) ≡ true = ground arith in rw itself refl
find-append_self (x ∷ es) e h = elim (Bool-cases (x.key == e.key)) [
  | inl k ↦ ground (arith, h, k)
  | inr k ↦ rw k (find-append_self es e (ground (arith, h, k)))
]

pub find-append_other :
    (es : List Entry) (e : Entry) (j : ℕ)
    → e.key ≢ j
    → find_entry j (es ++ (e ∷ [])) ≡ find_entry j es
find-append_other [] e j ne = ground (arith, ne)
find-append_other (x ∷ es) e j ne = elim (Bool-cases (x.key == j)) [
  | inl k ↦ rw k refl
  | inr k ↦ rw k (find-append_other es e j ne)
]

pub find-drop_other :
    (es : List Entry) (k j : ℕ) → k ≢ j → find_entry j (drop_entry k es) ≡ find_entry j es
find-drop_other [] k j ne = refl
find-drop_other (x ∷ es) k j ne = elim (Bool-cases (x.key == k)) [
  | inl e ↦ let other : (x.key == j) ≡ false = ground (arith, ne) in rw (e, other) refl
  | inr e ↦ elim (Bool-cases (x.key == j)) [
    | inl e' ↦ rw (e, e') refl
    | inr e' ↦ rw (e, e') (find-drop_other es k j ne)
  ]
]

pub find-drop_self : (es : List Entry) (k : ℕ) → Distinct es → find_entry k (drop_entry k es) ≡ none
find-drop_self [] k d = refl
find-drop_self (x ∷ es) k d = elim (Bool-cases (x.key == k)) [
  | inl e ↦
      let same : x.key ≡ k = ground arith in rw e (subst (λ j. find_entry j es ≡ none) same d.0)
  | inr e ↦ rw e (rw e (find-drop_self es k d.1))
]

pub Distinct-append :
    (es : List Entry) (e : Entry)
    → Distinct es
    → find_entry e.key es ≡ none
    → Distinct (es ++ (e ∷ []))
Distinct-append [] e d h = (refl, tt)
Distinct-append (x ∷ es) e d h = elim (Bool-cases (x.key == e.key)) [
  | inl k ↦ ground (arith, h, k)
  | inr k ↦ (
    find-append_other es e x.key (ground (arith, k)) ∙ d.0,
    Distinct-append es e d.1 (ground (arith, h, k)),
  )
]

pub Distinct-drop : (es : List Entry) (k : ℕ) → Distinct es → Distinct (drop_entry k es)
Distinct-drop [] k d = tt
Distinct-drop (x ∷ es) k d = elim (Bool-cases (x.key == k)) [
  | inl e ↦ rw e d.1
  | inr e ↦ rw e (find-drop_other es k x.key (ground (arith, e)) ∙ d.0, Distinct-drop es k d.1)
]
