-- ===== src/FrameManager/Alloc.antt =====
-- Allocation of frames in kern/virtual_mem_mgmt/frame_manager.c: which frames are free afterwards.
use custom_os_kernel.Base.{
  ℕ, zero, suc, ◌+◌, ◌-◌, ◌*◌, ◌^◌, ◌≤◌, ◌<◌, ◌≡◌, refl, subst, ap, ◌∙◌, List, [], ◌∷◌, none, some,
  length, arith, ◌==◌, ltb, leb, ◌||◌, ◌⊎◌, inl, inr, Bool-cases, false,
}
use custom_os_kernel.Base.Int.{pos, negsuc, neg}
use custom_os_kernel.FrameManager.{bin_loop}
use custom_os_kernel.FrameManager.Ops.{
  FrameManager, split_head, split_frame, then_split, request_split, take_head, then_take, fm_alloc,
}
use custom_os_kernel.FrameManager.Bins.{Fits, bin_loop-Fits}
use custom_os_kernel.FrameManager.Take.{Taken, take-Taken, take-runs}
use custom_os_kernel.FrameManager.Split.{IsValid, Fresh, Keeps, split-Keeps, split-more, split-runs}

Keeps-trans :
    {fm fm1 fm2 : FrameManager} {xs ys : List ℕ}
    → Keeps fm fm1 xs
    → Keeps fm1 fm2 ys
    → Keeps fm fm2 ys
Keeps-trans k1 k2 = record {
  valid = k2.valid;
  fresh = k2.fresh;
  covers = λ x. omega (arith, k1.covers x, k2.covers x);
  bins = omega (arith, k1.bins, k2.bins);
}

two : (xs : List ℕ) → 2 ≤ length xs → (l : ℕ) × (r : ℕ) × (ys : List ℕ) × (xs ≡ (l ∷ r ∷ ys))
two [] h = absurd (omega arith)
two (x ∷ []) h = absurd (omega arith)
two (x ∷ y ∷ ys) h = (x, y, ys, refl)

-- A split of a bin that holds a frame.
record Filled (n : ℕ) (fm fm' : FrameManager) (h : ℕ) (addrs addrs' : List ℕ) : Type 0 where
  keeps : Keeps fm fm' addrs'
  more : (q : ℕ) × (qs : List ℕ) × (fm'.frame_bins h ≡ (q ∷ qs))
  used : length addrs ≤ length addrs' + 2 * n

-- No bin from `i` on holds a frame.
abbrev pub NoneFrom : ℕ → FrameManager → Type 0
NoneFrom i fm = (k : ℕ) → i ≤ k → k < fm.num_bins → fm.frame_bins k ≡ []

head-Filled :
    (fm : FrameManager) (v : IsValid fm) (addrs : List ℕ) (fresh : Fresh fm addrs) (h p : ℕ)
    (ps : List ℕ)
    → fm.frame_bins (suc h) ≡ (p ∷ ps)
    → suc h < fm.num_bins
    → 2 ≤ length addrs
    → (fm' : FrameManager) × (addrs' : List ℕ) × (split_head fm (suc h) addrs (p ∷ ps)
        ≡ some (pos 0, fm', addrs'))
      × Filled 1 fm fm' h addrs addrs'
head-Filled fm v addrs fresh h p ps at lt enough =
    let (l, r, rest, is) = two addrs enough in
    let fr = subst (Fresh fm) is fresh in
    (
      split_frame fm l r (suc h) p ps,
      rest,
      ap (λ xs. split_head fm (suc h) xs (p ∷ ps)) is ∙ split-runs fm v l r rest fr h p ps at lt,
      record {
        keeps = split-Keeps fm v l r rest fr h p ps at lt;
        more = split-more fm v l r rest fr h p ps at lt;
        used = omega (arith, ap length is);
      },
    )

plus_one : (i : ℕ) → i + 1 ≡ suc i
plus_one i = omega arith

List-cases : (xs : List ℕ) → (xs ≡ []) ⊎ ((q : ℕ) × (qs : List ℕ) × (xs ≡ (q ∷ qs)))
List-cases [] = inl refl
List-cases (x ∷ xs) = inr (x, xs, refl)

-- How `request_split` ends: bin `h` holds a frame, or no larger bin did.
abbrev SplitEnds : ℕ → FrameManager → ℕ → List ℕ → Type 0
SplitEnds n fm h addrs =
    ((fm' : FrameManager) × (addrs' : List ℕ) × (request_split n fm (suc h) addrs
        ≡ some (pos 0, fm', addrs'))
      × Filled n fm fm' h addrs addrs')
    ⊎ ((e : ℕ) × (request_split n fm (suc h) addrs ≡ some (negsuc e, fm, addrs))
        × NoneFrom (suc h) fm)

split_empty :
    (n : ℕ) (fm : FrameManager) (addrs : List ℕ) (h : ℕ)
    → fm.frame_bins (suc h) ≡ []
    → suc h < fm.num_bins
    → 2 * suc n ≤ length addrs
    → SplitEnds n fm (suc h) addrs
    → SplitEnds (suc n) fm h addrs
unfolding request_split
split_empty n fm addrs h empty lt enough (inr (e, run, none_above)) =
    let big : (leb fm.num_bins (suc h) || suc h == 0) ≡ false = ground arith in
    let up : then_split (suc h) (request_split n fm (suc h + 1) addrs)
        ≡ then_split (suc h) (request_split n fm (suc (suc h)) addrs) =
      ap (λ i. then_split (suc h) (request_split n fm i addrs)) (plus_one (suc h)) in
    inr (
      1,
      rw (big, empty, request_split) (up ∙ ap (then_split (suc h)) run),
      λ k le lt'. elim (Bool-cases (k == suc h)) [
        | inl e' ↦ let is : k ≡ suc h = ground arith in rw is empty
        | inr e' ↦ none_above k (ground (arith, e', le)) lt'
      ],
    )
split_empty n fm addrs h empty lt enough (inl (fm1, addrs1, run, f)) =
    let big : (leb fm.num_bins (suc h) || suc h == 0) ≡ false = ground arith in
    let up : then_split (suc h) (request_split n fm (suc h + 1) addrs)
        ≡ then_split (suc h) (request_split n fm (suc (suc h)) addrs) =
      ap (λ i. then_split (suc h) (request_split n fm i addrs)) (plus_one (suc h)) in
    let (q, qs, held) = f.more in
    let (fm2, addrs2, run2, f2) =
      head-Filled fm1 f.keeps.valid addrs1 f.keeps.fresh h q qs held
        (omega (arith, f.keeps.bins, lt)) (omega (arith, f.used, enough)) in
    inl (
      fm2,
      addrs2,
      rw (big, empty, request_split) (up ∙ ap (then_split (suc h)) run ∙ rw held run2),
      record {
        keeps = Keeps-trans f.keeps f2.keeps;
        more = f2.more;
        used = omega (arith, f.used, f2.used);
      },
    )

request_split-Ends :
    (n : ℕ) (fm : FrameManager) (addrs : List ℕ) (h : ℕ)
    → IsValid fm
    → Fresh fm addrs
    → 0 < n
    → fm.num_bins ≤ h + n
    → 2 * n ≤ length addrs
    → SplitEnds n fm h addrs
unfolding request_split
request_split-Ends zero fm addrs h v fresh rounds bound enough = absurd (omega arith)
request_split-Ends (suc n) fm addrs h v fresh rounds bound enough =
    elim (Bool-cases (leb fm.num_bins (suc h))) [
      | inl e ↦ inr (0, rw (e, request_split) refl, λ k le lt. absurd (ground (arith, e, le, lt)))
      | inr e ↦
          let lt : suc h < fm.num_bins = ground arith in
          let big : (leb fm.num_bins (suc h) || suc h == 0) ≡ false = ground arith in
          elim (List-cases (fm.frame_bins (suc h))) [
            | inl empty ↦ split_empty n fm addrs h empty lt enough (
                request_split-Ends n fm addrs (suc h) v fresh (omega (arith, lt, bound))
                  (omega (arith, bound)) (omega (arith, enough)))
            | inr (q, qs, held) ↦
                let (fm2, addrs2, run2, f2) =
                  head-Filled fm v addrs fresh h q qs held lt (omega (arith, enough)) in
                inl (
                  fm2,
                  addrs2,
                  rw (big, held, request_split) run2,
                  record { keeps = f2.keeps; more = f2.more; used = omega (arith, f2.used) },
                )
          ]
    ]

-- The bins that would serve the request are all empty.
abbrev pub NoneFits : ℕ → FrameManager → Type 0
NoneFits num_pages fm = (k : ℕ) → num_pages ≤ 2 ^ k → k < fm.num_bins → fm.frame_bins k ≡ []

none_fits :
    (num_pages : ℕ) (fm : FrameManager) (j : ℕ)
    → Fits num_pages j
    → fm.frame_bins j ≡ []
    → NoneFrom (suc j) fm
    → NoneFits num_pages fm
none_fits num_pages fm j fits empty none_above k le lt = elim (Bool-cases (ltb k j)) [
  | inl e ↦ let less = fits.1 k (ground (arith, e)) in absurd (omega (arith, less, le))
  | inr e ↦ elim (Bool-cases (k == j)) [
    | inl e' ↦ let is : k ≡ j = ground arith in rw is empty
    | inr e' ↦ none_above k (ground (arith, e, e')) lt
  ]
]

Taken-after :
    {fm fm1 fm2 : FrameManager} {xs ys : List ℕ} {j a : ℕ}
    → Keeps fm fm1 xs
    → Taken fm1 fm2 j a ys
    → Taken fm fm2 j a ys
Taken-after k t = record {
  valid = t.valid;
  fresh = t.fresh;
  bins = omega (arith, k.bins, t.bins);
  fits = t.fits;
  covers = λ x. t.covers x ∙ k.covers x;
}

-- How `fm_alloc` ends.
abbrev pub AllocEnds : FrameManager → ℕ → List ℕ → Type 0
AllocEnds fm num_pages addrs =
    ((j : ℕ) × (a : ℕ) × (fm' : FrameManager) × (addrs' : List ℕ) × (fm_alloc fm num_pages addrs
        ≡ some (pos 0, some a, fm', addrs'))
      × Fits num_pages j
      × Taken fm fm' j a addrs')
    ⊎ ((fm_alloc fm num_pages addrs ≡ some (neg 2, none, fm, addrs)) × NoneFits num_pages fm)

-- A valid frame manager with a bin and enough fresh addresses for new frames is asked for at least one
-- page and no more than its largest bin holds. Either it returns 0 and the address of a block whose
-- size is the smallest power of two that holds the request: the addresses of the block were each held
-- by one more free frame than afterwards, all other addresses are held by as many, and the frame
-- manager stays valid. Or it returns -2 and nothing changes, and then no bin that would serve the
-- request holds a frame.
pub alloc-Taken :
    (fm : FrameManager) (num_pages : ℕ) (addrs : List ℕ)
    → IsValid fm
    → Fresh fm addrs
    → 0 < fm.num_bins
    → 2 * (fm.num_bins + 1) ≤ length addrs
    → 0 < num_pages
    → num_pages ≤ 2 ^ (fm.num_bins - 1)
    → AllocEnds fm num_pages addrs
unfolding fm_alloc
alloc-Taken fm num_pages addrs v fresh some_bins enough some_pages le =
    let j = bin_loop (fm.num_bins - 1) num_pages in
    let fits : Fits num_pages j = bin_loop-Fits (fm.num_bins - 1) num_pages some_pages le in
    let lt : j < fm.num_bins = elim (Bool-cases (ltb (fm.num_bins - 1) j)) [
      | inl e ↦
          let less = fits.1 (fm.num_bins - 1) (ground (arith, e)) in
          absurd (omega (arith, less, le))
      | inr e ↦ ground (arith, e, some_bins)
    ] in
    let taken : (ltb (2 ^ (fm.num_bins - 1)) num_pages || num_pages == 0) ≡ false = ground arith in
    elim (List-cases (fm.frame_bins j)) [
      | inr (p, ps, held) ↦ inl (
        j,
        (fm.frames p).addr,
        _,
        addrs,
        rw (taken, held) (take-runs fm v addrs fresh j p ps held lt),
        fits,
        take-Taken fm v addrs fresh j p ps held lt,
      )
      | inl empty ↦
          let up : then_take j (request_split (fm.num_bins + 1) fm (j + 1) addrs)
              ≡ then_take j (request_split (fm.num_bins + 1) fm (suc j) addrs) =
            ap (λ i. then_take j (request_split (fm.num_bins + 1) fm i addrs)) (plus_one j) in
          elim (request_split-Ends (fm.num_bins + 1) fm addrs j v fresh (omega arith) (omega arith)
            enough) [
              | inr (e, run, none_above) ↦ inr (
                rw (taken, empty) (up ∙ ap (then_take j) run),
                none_fits num_pages fm j fits empty none_above,
              )
              | inl (fm1, addrs1, run, f) ↦
                  let (p, ps, held) = f.more in
                  let lt1 : j < fm1.num_bins = omega (arith, f.keeps.bins, lt) in
                  inl (
                    j,
                    (fm1.frames p).addr,
                    _,
                    addrs1,
                    rw (taken, empty)
                        (up
                          ∙ ap (then_take j) run
                          ∙ ap (take_head fm1 j addrs1) held
                          ∙ take-runs fm1 f.keeps.valid addrs1 f.keeps.fresh j p ps held lt1),
                    fits,
                    Taken-after f.keeps
                        (take-Taken fm1 f.keeps.valid addrs1 f.keeps.fresh j p ps held lt1),
                  )
            ]
    ]
