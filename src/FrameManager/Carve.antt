-- ===== src/FrameManager/Carve.antt =====
-- User memory is carved into frames that tile it.
use custom_os_kernel.Base.{
  ℕ, zero, suc, ◌+◌, ◌-◌, ◌*◌, ◌%◌, ◌^◌, ◌≤◌, ◌<◌, ◌≡◌, refl, subst, false, Bool-cases, ◌⊎◌, inl,
  inr, some, List, [], ◌∷◌, ◌++◌, arith, leb, ◌==◌,
}
use native.Mathlib.Nat.{mod-eq_of_lt, pow-le-pow_right}
use custom_os_kernel.Base.Int.{pos}
use custom_os_kernel.FrameManager.{
  Frame, Rest, frame_init, frame_dealloc, carve_bin, carve_bins, fm_init_user_space,
}

-- The frames follow each other from `p` to `q`, free and without relatives, each as large as its bin
-- says.
abbrev pub Tiles : ℕ → List Frame → ℕ → Type 0
Tiles p [] q = p ≡ q
Tiles p (f ∷ fs) q =
    (f ≡ frame_init p (2 ^ f.i) frame_dealloc f.i 0 0) × Tiles (p + 4096 * 2 ^ f.i) fs q

Tiles-append :
    (p : ℕ) (fs : List Frame) (q i : ℕ)
    → Tiles p fs q
    → Tiles p (fs ++ (frame_init q (2 ^ i) frame_dealloc i 0 0 ∷ [])) (q + 4096 * 2 ^ i)
Tiles-append p [] q i t =
    subst (λ x. Tiles p (frame_init x (2 ^ i) frame_dealloc i 0 0 ∷ []) (x + 4096 * 2 ^ i)) t
      (refl, refl)
Tiles-append p (f ∷ fs) q i t = (t.0, Tiles-append (p + 4096 * 2 ^ f.i) fs q i t.1)

pub pow_pos : (i : ℕ) → 0 < 2 ^ i
pow_pos i = omega (arith, pow-le-pow_right {n = 2} (omega arith) {i = 0} {j = i} (omega arith))

-- The frames belong to the first bins.
abbrev pub AllBelow : ℕ → List Frame → Type 0
AllBelow n [] = Unit
AllBelow n (f ∷ fs) = (f.i < n) × AllBelow n fs

AllBelow-append :
    (n : ℕ) (fs : List Frame) (f : Frame) → AllBelow n fs → f.i < n → AllBelow n (fs ++ (f ∷ []))
AllBelow-append n [] f a lt = (lt, tt)
AllBelow-append n (g ∷ fs) f a lt = (a.0, AllBelow-append n fs f a.1 lt)

-- The frames tile memory up to where carving goes on, and the pages that are left end at `end`.
record Carved (limit start end : ℕ) (r : Rest) : Type 0 where
  tiles : Tiles start r.frames r.p_addr
  left : r.p_addr + 4096 * r.pages_remaining ≡ end
  below : AllBelow limit r.frames

carve_bin-Carved :
    (limit k i start end : ℕ) (r : Rest)
    → i < limit
    → end < 2 ^ 32
    → Carved limit start end r
    → r.pages_remaining < k
    → (r' : Rest) × (carve_bin k i r ≡ some r')
      × Carved limit start end r'
      × (r'.pages_remaining < 2 ^ i)
unfolding carve_bin
carve_bin-Carved limit zero i start end r in_range lt c fuel = absurd (omega arith)
carve_bin-Carved limit (suc k) i start end r in_range lt c fuel =
    elim (Bool-cases (leb (2 ^ i) r.pages_remaining)) [
      | inl e ↦
          let size : 2 ^ i ≤ r.pages_remaining = ground arith in
          let one : 0 < 2 ^ i = pow_pos i in
          let next : (r.p_addr + 4096 * 2 ^ i) % 2 ^ 32 ≡ r.p_addr + 4096 * 2 ^ i =
            mod-eq_of_lt (omega (arith, c.left, size, lt)) in
          let r1 : Rest = record {
            frames = r.frames ++ (frame_init r.p_addr (2 ^ i) frame_dealloc i 0 0 ∷ []);
            pages_remaining = r.pages_remaining - 2 ^ i;
            p_addr = (r.p_addr + 4096 * 2 ^ i) % 2 ^ 32;
          } in
          let c1 : Carved limit start end r1 = record {
            tiles = rw next (Tiles-append start r.frames r.p_addr i c.tiles);
            left = omega (arith, next, c.left, size);
            below =
                AllBelow-append limit r.frames (frame_init r.p_addr (2 ^ i) frame_dealloc i 0 0)
                  c.below in_range;
          } in
          let (r', run, c', small) =
            carve_bin-Carved limit k i start end r1 in_range lt c1
              (omega (arith, fuel, size, one)) in
          (r', rw (e, carve_bin) run, c', small)
      | inr e ↦ (r, rw (e, carve_bin) refl, c, ground arith)
    ]

-- All pages are carved, where there is a bin left or no page.
carve_bins-Carved :
    (limit n start end : ℕ) (r : Rest)
    → n ≤ limit
    → end < 2 ^ 32
    → Carved limit start end r
    → (0 < n) ⊎ (r.pages_remaining < 2 ^ n)
    → (r' : Rest) × (carve_bins n r ≡ some r')
      × Carved limit start end r'
      × (r'.pages_remaining ≡ 0)
unfolding carve_bins
carve_bins-Carved limit zero start end r in_range lt c (inl some_bins) = absurd (omega arith)
carve_bins-Carved limit zero start end r in_range lt c (inr small) =
    (r, refl, c, omega (arith, small))
carve_bins-Carved limit (suc n) start end r in_range lt c enough =
    let (r1, run1, c1, small1) =
      carve_bin-Carved limit (r.pages_remaining + 1) n start end r (omega arith) lt c
        (omega arith) in
    let (r2, run2, c2, none_left) =
      carve_bins-Carved limit n start end r1 (omega arith) lt c1 (inr small1) in
    (r2, rw (run1, carve_bins) run2, c2, none_left)

-- Where there is a bin, there are pages, and user memory ends below 2^32, setting up user memory ends
-- and returns 0, and its frames tile user memory: they follow each other from its start to its end,
-- each free and as large as its bin says, which is one of the bins there are.
pub user_space-Tiles :
    (user_mem_start num_bins num_pages : ℕ)
    → 0 < num_bins
    → 0 < num_pages
    → user_mem_start + 4096 * num_pages < 2 ^ 32
    → (frames : List Frame) × (fm_init_user_space user_mem_start num_bins num_pages
        ≡ (pos 0, some frames))
      × Tiles user_mem_start frames (user_mem_start + 4096 * num_pages)
      × AllBelow num_bins frames
unfolding fm_init_user_space
user_space-Tiles start n pages some_bins some_pages lt =
    let r : Rest = record { frames = []; pages_remaining = pages; p_addr = start } in
    let (r', run, c, none_left) =
      carve_bins-Carved n n start (start + 4096 * pages) r (omega arith) lt
        (record { tiles = refl; left = refl; below = tt }) (inl some_bins) in
    let given : (pages == 0) ≡ false = ground (arith, some_pages) in
    let stop : r'.p_addr ≡ start + 4096 * pages = omega (arith, c.left, none_left) in
    (r'.frames, rw (given, run) refl, subst (Tiles start r'.frames) stop c.tiles, c.below)
