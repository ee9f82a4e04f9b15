-- ===== src/FrameManager/Split.antt =====
-- What splitting a free frame does to the bins of kern/virtual_mem_mgmt/frame_manager.c.
use custom_os_kernel.Base.{
  ℕ, suc, ◌+◌, ◌-◌, ◌*◌, ◌/◌, ◌%◌, ◌^◌, ◌≤◌, ◌<◌, ◌≡◌, refl, subst, ap, List, [], ◌∷◌, ◌++◌, some,
  if◌then◌else◌, arith, ◌==◌, count, one_at, count-append, ◌⊎◌, inl, inr, Bool-cases, false, true,
}
use native.Mathlib.Nat.{mod-eq_of_lt}
use custom_os_kernel.Base.Int.{pos}
use custom_os_kernel.FrameManager.{Frame, frame_dealloc}
use custom_os_kernel.FrameManager.Ops.{
  FrameManager, set_at, split_frame, left_half, right_half, split_head,
}
use custom_os_kernel.FrameManager.Carve.{pow_pos}
use custom_os_kernel.FrameManager.Free.{
  in_frame, in_list, in_bins, free_at, in_list-append, in_bins-same, in_bins-set,
}

-- A free frame of bin `k`: its size is the bin's, and it ends within 32 bits.
pub record Block (k : ℕ) (f : Frame) : Type 0 where
  pub free : f.status ≡ frame_dealloc
  pub bin : f.i ≡ k
  pub size : f.num_pages ≡ 2 ^ k
  pub fits : f.addr + 4096 * 2 ^ k ≤ 2 ^ 32

-- Each bin holds free frames of its size, each once.
pub record IsValid (fm : FrameManager) : Type 0 where
  pub block : (k a : ℕ) → 0 < count a (fm.frame_bins k) → Block k (fm.frames a)
  pub once : (k a : ℕ) → count a (fm.frame_bins k) ≤ 1

-- Addresses for new frames: distinct, and not those of free frames.
pub record Fresh (fm : FrameManager) (addrs : List ℕ) : Type 0 where
  pub unused : (k a : ℕ) → 0 < count a addrs → count a (fm.frame_bins k) ≡ 0
  pub distinct : (a : ℕ) → count a addrs ≤ 1

-- What a step keeps.
pub record Keeps (fm fm' : FrameManager) (addrs : List ℕ) : Type 0 where
  pub valid : IsValid fm'
  pub fresh : Fresh fm' addrs
  pub covers : (x : ℕ) → free_at x fm' ≡ free_at x fm
  pub bins : fm'.num_bins ≡ fm.num_bins

append-more :
    (xs : List ℕ) (y : ℕ) (ys : List ℕ) → (q : ℕ) × (qs : List ℕ) × (xs ++ (y ∷ ys) ≡ (q ∷ qs))
append-more [] y ys = (y, ys, refl)
append-more (x ∷ xs) y ys = (x, xs ++ (y ∷ ys), refl)

pred : (h : ℕ) → suc h - 1 ≡ h
pred h = omega arith

module _ (fm : FrameManager) (v : IsValid fm) (l r : ℕ) (addrs : List ℕ)
    (fresh : Fresh fm (l ∷ r ∷ addrs)) (h p : ℕ) (ps : List ℕ)
    (at : fm.frame_bins (suc h) ≡ (p ∷ ps)) (lt : suc h < fm.num_bins) where
  abbrev fm2 : FrameManager
  fm2 = split_frame fm l r (suc h) p ps

  head_held : 0 < count p (fm.frame_bins (suc h))
  head_held = rw at (ground arith)

  head-Block : Block (suc h) (fm.frames p)
  head-Block = v.block (suc h) p head_held

  -- How often the new bins hold a frame.
  bins2 :
      (k a : ℕ)
      → count a (fm2.frame_bins k) + (if k == suc h then one_at p a else 0)
        ≡ count a (fm.frame_bins k) + (if k == h then one_at l a + one_at r a else 0)
  bins2 k a =
      let whole : count a (fm.frame_bins (suc h)) ≡ count a ps + one_at p a =
        rw at (ground arith) in
      let app = count-append a (fm.frame_bins h) (l ∷ r ∷ []) in
      elim (Bool-cases (k == h)) [
        | inl e ↦ let is : k ≡ h = ground arith in rw is (ground (arith, app))
        | inr e ↦ elim (Bool-cases (k == suc h)) [
          | inl e' ↦ let is : k ≡ suc h = ground arith in rw is (ground (arith, whole))
          | inr e' ↦ ground (arith, e, e')
        ]
      ]

  halves :
      (x : ℕ)
      → in_frame x (left_half (fm.frames p) p (suc h) r)
          + in_frame x (right_half (fm.frames p) p (suc h) l)
        ≡ in_frame x (fm.frames p)
  halves x =
      let b = head-Block in
      let half : (fm.frames p).num_pages / 2 ≡ 2 ^ h = omega (arith, b.size) in
      let next : ((fm.frames p).addr + 2 ^ h * 4096) % 2 ^ 32 ≡ (fm.frames p).addr + 2 ^ h * 4096 =
        mod-eq_of_lt (omega (arith, b.fits, pow_pos h)) in
      rw (half, next, b.size) (ground arith)

  l_new : (k : ℕ) → count l (fm.frame_bins k) ≡ 0
  l_new k = fresh.unused k l (ground arith)

  r_new : (k : ℕ) → count r (fm.frame_bins k) ≡ 0
  r_new k = fresh.unused k r (ground arith)

  l_r : (l == r) ≡ false
  l_r = let d = fresh.distinct r in ground (arith, d)

  -- A frame other than the two new ones is as it was, but for the status of the frame that is split.
  other_frame :
      (a : ℕ) → (l == a) ≡ false → (r == a) ≡ false → (p == a) ≡ false → fm2.frames a ≡ fm.frames a
  other_frame a nl nr np =
      let ql : (a == l) ≡ false = ground (arith, nl) in
      let qr : (a == r) ≡ false = ground (arith, nr) in
      let qp : (a == p) ≡ false = ground (arith, np) in rw (qr, ql, qp) refl

  in_other :
      (x a k : ℕ)
      → 0 < count a (fm.frame_bins k)
      → in_frame x (fm2.frames a) ≡ in_frame x (fm.frames a)
  in_other x a k held =
      let ql : (a == l) ≡ false =
        let n = l_new k in
        elim (Bool-cases (a == l)) [
          | inl e ↦
              let is : a ≡ l = ground arith in
              absurd (ground (arith, n, subst (λ z. 0 < count z (fm.frame_bins k)) is held))
          | inr e ↦ e
        ] in
      let qr : (a == r) ≡ false =
        let n = r_new k in
        elim (Bool-cases (a == r)) [
          | inl e ↦
              let is : a ≡ r = ground arith in
              absurd (ground (arith, n, subst (λ z. 0 < count z (fm.frame_bins k)) is held))
          | inr e ↦ e
        ] in
      rw (qr, ql)
        (elim (Bool-cases (a == p)) [
          | inl e ↦ let is : a ≡ p = ground arith in rw e (rw is refl)
          | inr e ↦ rw e refl
        ])

  left-Block : Block h (fm2.frames l)
  left-Block =
      let b = head-Block in
      let self : (l == l) ≡ true = ground arith in
      rw (l_r, self)
        (record {
          free = refl;
          bin = omega arith;
          size = omega (arith, b.size);
          fits = omega (arith, b.fits);
        })

  right-Block : Block h (fm2.frames r)
  right-Block =
      let b = head-Block in
      let self : (r == r) ≡ true = ground arith in
      let half : (fm.frames p).num_pages / 2 ≡ 2 ^ h = omega (arith, b.size) in
      let next : ((fm.frames p).addr + 2 ^ h * 4096) % 2 ^ 32 ≡ (fm.frames p).addr + 2 ^ h * 4096 =
        mod-eq_of_lt (omega (arith, b.fits, pow_pos h)) in
      rw self (
        rw half (record {
          free = refl;
          bin = omega arith;
          size = refl;
          fits = omega (arith, next, b.fits);
        }))

  -- Which frames the new bins hold.
  held2 :
      (k a : ℕ)
      → 0 < count a (fm2.frame_bins k)
      → ((k ≡ h) × ((a ≡ l) ⊎ (a ≡ r)))
        ⊎ ((0 < count a (fm.frame_bins k))
            × ((l == a) ≡ false)
            × ((r == a) ≡ false)
            × ((p == a) ≡ false))
  held2 k a held =
      let n = bins2 k a in
      elim (Bool-cases (l == a)) [
        | inl e ↦
            let is : a ≡ l = ground arith in
            let none : count a (fm.frame_bins k) ≡ 0 = rw is (l_new k) in
            inl (ground (arith, n, none, held), inl is)
        | inr nl ↦ elim (Bool-cases (r == a)) [
          | inl e ↦
              let is : a ≡ r = ground arith in
              let none : count a (fm.frame_bins k) ≡ 0 = rw is (r_new k) in
              inl (ground (arith, n, none, held), inr is)
          | inr nr ↦
              let old : 0 < count a (fm.frame_bins k) = ground (arith, n, nl, nr, held) in
              elim (Bool-cases (p == a)) [
                | inl e ↦
                    let is : a ≡ p = ground arith in
                    let there : k ≡ suc h = omega (
                      arith,
                      head-Block.bin,
                      (v.block k p (subst (λ z. 0 < count z (fm.frame_bins k)) is old)).bin,
                    ) in
                    let one = v.once k a in absurd (ground (arith, n, nl, nr, e, there, one, held))
                | inr np ↦ inr (old, nl, nr, np)
              ]
        ]
      ]

  once2 : (k a : ℕ) → count a (fm2.frame_bins k) ≤ 1
  once2 k a =
      let n = bins2 k a in
      let one = v.once k a in
      let d = fresh.distinct a in
      elim (Bool-cases (l == a)) [
        | inl e ↦
            let is : a ≡ l = ground arith in
            let none : count a (fm.frame_bins k) ≡ 0 = rw is (l_new k) in
            ground (arith, n, none, d, e)
        | inr nl ↦ elim (Bool-cases (r == a)) [
          | inl e ↦
              let is : a ≡ r = ground arith in
              let none : count a (fm.frame_bins k) ≡ 0 = rw is (r_new k) in
              ground (arith, n, none, d, e, nl)
          | inr nr ↦ ground (arith, n, nl, nr, one)
        ]
      ]

  block2-Block : (k a : ℕ) → 0 < count a (fm2.frame_bins k) → Block k (fm2.frames a)
  block2-Block k a held = elim (held2 k a held) [
    | inl (at_h, inl is) ↦ rw (at_h, is) left-Block
    | inl (at_h, inr is) ↦ rw (at_h, is) right-Block
    | inr (old, nl, nr, np) ↦ rw (other_frame a nl nr np) (v.block k a old)
  ]

  fresh2 : Fresh fm2 addrs
  fresh2 = record {
    unused = λ k a held.
        let n = bins2 k a in
        let d = fresh.distinct a in
        let u = fresh.unused k a (ground (arith, held)) in ground (arith, n, d, u, held);
    distinct = λ a. let d = fresh.distinct a in ground (arith, d);
  }

  covers2 : (x : ℕ) → free_at x fm2 ≡ free_at x fm
  covers2 x =
      let bins1 = set_at (suc h) ps fm.frame_bins in
      let n = fm.num_bins in
      let ls : (l == l) ≡ true = ground arith in
      let rs : (r == r) ≡ true = ground arith in
      let same : in_bins x fm2.frames fm.frame_bins n ≡ in_bins x fm.frames fm.frame_bins n =
        in_bins-same x fm.frames fm2.frames fm.frame_bins n (λ j a held. in_other x a j held) in
      let whole : in_list x fm2.frames (fm.frame_bins (suc h))
          ≡ in_frame x (fm.frames p) + in_list x fm2.frames ps =
        rw at (ap (λ z. z + in_list x fm2.frames ps) (in_other x p (suc h) head_held)) in
      let dropped = in_bins-set x fm2.frames fm.frame_bins (suc h) ps n lt in
      let added =
        in_bins-set x fm2.frames bins1 h (bins1 h ++ (l ∷ r ∷ [])) n (omega (arith, lt)) in
      let app = in_list-append x fm2.frames (bins1 h) (l ∷ r ∷ []) in
      let left : in_frame x (fm2.frames l) ≡ in_frame x (left_half (fm.frames p) p (suc h) r) =
        rw (l_r, ls) refl in
      let right : in_frame x (fm2.frames r) ≡ in_frame x (right_half (fm.frames p) p (suc h) l) =
        rw rs refl in
      let there : in_bins x fm2.frames fm2.frame_bins n
          ≡ in_bins x fm2.frames (set_at h (bins1 h ++ (l ∷ r ∷ [])) bins1) n =
        ap (λ z. in_bins x fm2.frames (set_at z (bins1 z ++ (l ∷ r ∷ [])) bins1) n) (pred h) in
      let all : in_bins x fm2.frames fm2.frame_bins n ≡ in_bins x fm.frames fm.frame_bins n =
        omega (arith, there, same, whole, dropped, added, app, left, right, halves x) in
      all

  pub split-Keeps : Keeps fm fm2 addrs
  split-Keeps = record {
    valid = record { block = block2-Block; once = once2 };
    fresh = fresh2;
    covers = covers2;
    bins = refl;
  }

  -- The halves stand in the bin below.
  pub split-more : (q : ℕ) × (qs : List ℕ) × (fm2.frame_bins h ≡ (q ∷ qs))
  split-more = rw (pred h) (
      let self : (h == h) ≡ true = ground arith in
      rw self (append-more (set_at (suc h) ps fm.frame_bins h) l (r ∷ [])))

  pub split-runs : split_head fm (suc h) (l ∷ r ∷ addrs) (p ∷ ps) ≡ some (pos 0, fm2, addrs)
  unfolding split_head
  split-runs =
      let free : ((fm.frames p).status == frame_dealloc) ≡ true = rw head-Block.free refl in
      rw (free, split_head) refl
