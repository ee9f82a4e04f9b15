-- ===== src/MemSection/Bounds.antt =====
-- What the bounding addresses and the bounding section are.
use custom_os_kernel.Base.{
  ℕ, ◌+◌, ◌-◌, ◌^◌, ◌≤◌, ◌<◌, ◌≡◌, refl, sym, ◌∙◌, subst, true, false, Bool-cases, ◌⊎◌, inl, inr,
  none, some, List, [], ◌∷◌, arith, ◌==◌, if◌then◌else◌, ltb,
}
use custom_os_kernel.Base.Int.{pos}
use custom_os_kernel.MemSection.{
  MemSection, c_high, is_empty, bounds_loop, ms_get_bounding_addr, holds, section_loop,
  ms_get_bounding_section,
}

-- The section lies in the address space.
abbrev pub InSpace : MemSection → Type 0
InSpace s = s.v_addr_start + s.len ≤ 2 ^ 32

abbrev pub AllInSpace : List MemSection → Type 0
AllInSpace [] = Unit
AllInSpace (s ∷ ss) = InSpace s × AllInSpace ss

-- Every section that is not empty lies between the bounds.
abbrev pub Within : (low high : ℕ) → List MemSection → Type 0
Within low high [] = Unit
Within low high (s ∷ ss) =
    ((0 < s.len) → (low ≤ s.v_addr_start) × (s.v_addr_start + s.len ≤ high + 1))
    × Within low high ss

-- A section that is not empty starts, or ends, at the address.
abbrev pub StartsAt : ℕ → List MemSection → Type 0
StartsAt a [] = ⊥
StartsAt a (s ∷ ss) = ((0 < s.len) × (s.v_addr_start ≡ a)) ⊎ StartsAt a ss

abbrev pub EndsAt : ℕ → List MemSection → Type 0
EndsAt a [] = ⊥
EndsAt a (s ∷ ss) = ((0 < s.len) × (s.v_addr_start + s.len ≡ a + 1)) ⊎ EndsAt a ss

c_high-eq : (s : MemSection) → InSpace s → 0 < s.len → c_high s + 1 ≡ s.v_addr_start + s.len
c_high-eq s i lt = omega (arith, i, lt)

-- The pair bounds the sections, and each of its addresses is the old one or one of theirs.
record Bounding (low high : ℕ) (ss : List MemSection) (r : ℕ × ℕ) : Type 0 where
  below : r.0 ≤ low
  above : high ≤ r.1
  within : Within r.0 r.1 ss
  starts : (r.0 ≡ low) ⊎ StartsAt r.0 ss
  ends : (r.1 ≡ high) ⊎ EndsAt r.1 ss

loop-empty :
    (s : MemSection) (ss : List MemSection) (low high : ℕ)
    → (s.len == 0) ≡ true
    → bounds_loop (s ∷ ss) low high ≡ bounds_loop ss low high
unfolding bounds_loop
loop-empty s ss low high e = rw (e, bounds_loop) refl

loop-full :
    (s : MemSection) (ss : List MemSection) (low high : ℕ)
    → (s.len == 0) ≡ false
    → bounds_loop (s ∷ ss) low high
      ≡ bounds_loop ss
          (if ltb s.v_addr_start low then s.v_addr_start else low)
          (if ltb high (c_high s) then c_high s else high)
unfolding bounds_loop
loop-full s ss low high e = rw (e, bounds_loop) refl

bounds-Bounding :
    (ss : List MemSection) (low high : ℕ)
    → AllInSpace ss
    → Bounding low high ss (bounds_loop ss low high)
unfolding bounds_loop
bounds-Bounding [] low high i = record {
  below = omega arith;
  above = omega arith;
  within = tt;
  starts = inl refl;
  ends = inl refl;
}
bounds-Bounding (s ∷ ss) low high i = elim (Bool-cases (s.len == 0)) [
  | inl e ↦
      let b = bounds-Bounding ss low high i.1 in
      subst (Bounding low high (s ∷ ss)) (sym (loop-empty s ss low high e)) (record {
        below = b.below;
        above = b.above;
        within = ((λ lt. ground arith), b.within);
        starts = elim b.starts [ inl same ↦ inl same | inr there ↦ inr (inr there) ];
        ends = elim b.ends [ inl same ↦ inl same | inr there ↦ inr (inr there) ];
      })
  | inr e ↦
      let some_len : 0 < s.len = ground arith in
      let top = c_high-eq s i.0 some_len in
      let low' = if ltb s.v_addr_start low then s.v_addr_start else low in
      let high' = if ltb high (c_high s) then c_high s else high in
      let r = bounds_loop ss low' high' in
      let b = bounds-Bounding ss low' high' i.1 in
      let below : (low' ≤ low) × (low' ≤ s.v_addr_start) = ground arith in
      let above : (high ≤ high') × (c_high s ≤ high') = ground arith in
      let from : (low' ≡ low) ⊎ (low' ≡ s.v_addr_start) = ground arith in
      let upto : (high' ≡ high) ⊎ (high' ≡ c_high s) = ground arith in
      subst (Bounding low high (s ∷ ss)) (sym (loop-full s ss low high e)) (record {
        below = omega (arith, b.below, below.0);
        above = omega (arith, b.above, above.0);
        within = (
          (λ lt. (omega (arith, b.below, below.1), omega (arith, b.above, above.1, top))),
          b.within,
        );
        starts = elim b.starts [
          | inl same ↦ elim from [
            | inl old ↦ inl (same ∙ old)
            | inr its ↦ inr (inl (some_len, sym (same ∙ its)))
          ]
          | inr there ↦ inr (inr there)
        ];
        ends = elim b.ends [
          | inl same ↦ elim upto [
            | inl old ↦ inl (same ∙ old)
            | inr its ↦ inr (inl (some_len, omega (arith, same, its, top)))
          ]
          | inr there ↦ inr (inr there)
        ];
      })
]

-- There is a section that is not empty.
abbrev pub HasFull : List MemSection → Type 0
HasFull [] = ⊥
HasFull (s ∷ ss) = (0 < s.len) ⊎ HasFull ss

-- Bounds that were never moved are those of a section at the end of the address space.
full-bounds :
    (ss : List MemSection) (low high : ℕ)
    → HasFull ss
    → AllInSpace ss
    → Within low high ss
    → (low ≤ high) × ((low ≡ 2 ^ 32 - 1) → StartsAt low ss) × ((high ≡ 0) → EndsAt high ss)
full-bounds [] low high f i w = absurd f
full-bounds (s ∷ ss) low high (inl lt) i w =
    let (a, b) = w.0 lt in
    (
      omega (arith, a, b, lt),
      λ e. inl (lt, omega (arith, e, a, b, lt, i.0)),
      λ e. inl (lt, omega (arith, e, a, b, lt)),
    )
full-bounds (s ∷ ss) low high (inr f) i w =
    let (le, a, b) = full-bounds ss low high f i.1 w.1 in (le, (λ e. inr (a e)), (λ e. inr (b e)))

not-is_empty : (ss : List MemSection) → HasFull ss → is_empty ss ≡ false
not-is_empty [] f = absurd f
not-is_empty (s ∷ ss) f = refl

-- Where every section lies in the address space and one of them is not empty, the call returns 0 and
-- the tightest bounds: every section that is not empty lies between them, one starts at the lower
-- one, and one ends at the upper one.
pub bounding_addr-Within :
    (secs : List MemSection)
    → AllInSpace secs
    → HasFull secs
    → (low : ℕ) × (high : ℕ) × (ms_get_bounding_addr (some secs) true ≡ (pos 0, some (low, high)))
      × Within low high secs
      × StartsAt low secs
      × EndsAt high secs
unfolding ms_get_bounding_addr
bounding_addr-Within secs i f =
    let b = bounds-Bounding secs (2 ^ 32 - 1) 0 i in
    let r = bounds_loop secs (2 ^ 32 - 1) 0 in
    let (le, at_top, at_bottom) = full-bounds secs r.0 r.1 f i b.within in
    let ordered : ltb r.1 r.0 ≡ false = ground (arith, le) in
    (
      r.0,
      r.1,
      rw (not-is_empty secs f, ordered) refl,
      b.within,
      elim b.starts [ inl e ↦ at_top e | inr there ↦ there ],
      elim b.ends [ inl e ↦ at_bottom e | inr there ↦ there ],
    )

-- A range that has neither end in the section.
abbrev pub Outside : (addr_low addr_high : ℕ) → List MemSection → Type 0
Outside addr_low addr_high [] = Unit
Outside addr_low addr_high (s ∷ ss) =
    (holds s addr_low ≡ false) × (holds s addr_high ≡ false) × Outside addr_low addr_high ss

loop-Outside :
    (secs : List MemSection) (addr_low addr_high : ℕ)
    → Outside addr_low addr_high secs
    → section_loop secs addr_low addr_high ≡ (pos 1, none)
unfolding section_loop
loop-Outside [] low high out = refl
loop-Outside (s ∷ ss) low high out =
    rw (out.0, out.1, section_loop) (loop-Outside ss low high out.2)

-- A section strictly inside the range is not found: where both ends lie outside every section, the
-- status is 1, whatever lies between them.
pub bounding_section-Outside :
    (secs : List MemSection) (addr_low addr_high : ℕ)
    → is_empty secs ≡ false
    → addr_low ≤ addr_high
    → Outside addr_low addr_high secs
    → ms_get_bounding_section (some secs) addr_low addr_high true ≡ (pos 1, none)
unfolding ms_get_bounding_section
bounding_section-Outside secs low high some_secs le out =
    let ordered : ltb high low ≡ false = ground (arith, le) in
    rw (some_secs, ordered) (loop-Outside secs low high out)
