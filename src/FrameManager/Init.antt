-- ===== src/FrameManager/Init.antt =====
-- What `fm_init` of kern/virtual_mem_mgmt/frame_manager.c leaves: user memory, each address of it in
-- one free frame.
use custom_os_kernel.Base.{
  ℕ, zero, suc, ◌+◌, ◌*◌, ◌/◌, ◌^◌, ◌≤◌, ◌<◌, ◌≡◌, refl, ap, ◌∙◌, List, [], ◌∷◌, ◌++◌, some, length,
  if◌then◌else◌, arith, ◌==◌, ltb, leb, ◌&&◌, count, one_at, count-append, inl, inr, Bool-cases,
  false, true,
}
use custom_os_kernel.Base.Int.{pos}
use custom_os_kernel.FrameManager.{Frame, frame_init, frame_dealloc}
use custom_os_kernel.FrameManager.Ops.{
  FrameManager, registered, register_all, empty_manager, user_frames, then_register, served,
  fm_init,
}
use custom_os_kernel.FrameManager.Carve.{Tiles, AllBelow, pow_pos, user_space-Tiles}
use custom_os_kernel.FrameManager.Free.{
  in_frame, in_bins, free_at, in_list-append, in_bins-same, in_bins-set,
}
use custom_os_kernel.FrameManager.Split.{Block, IsValid, Fresh}

-- One where the address is from `p` on and before `q`.
abbrev pub between : ℕ → ℕ → ℕ → ℕ
between p q x = if leb p x && ltb x q then 1 else 0

Tiles-le : (p : ℕ) (fs : List Frame) (q : ℕ) → Tiles p fs q → p ≤ q
Tiles-le p [] q t = omega (arith, t)
Tiles-le p (f ∷ fs) q t = omega (arith, Tiles-le (p + 4096 * 2 ^ f.i) fs q t.1)

Tiles-length : (p : ℕ) (fs : List Frame) (q : ℕ) → Tiles p fs q → p + 4096 * length fs ≤ q
Tiles-length p [] q t = omega (arith, t)
Tiles-length p (f ∷ fs) q t = omega (arith, Tiles-length (p + 4096 * 2 ^ f.i) fs q t.1, pow_pos f.i)

module _ (fm : FrameManager) (v : IsValid fm) (a : ℕ) (addrs : List ℕ)
    (fresh : Fresh fm (a ∷ addrs)) (p i : ℕ) (lt : i < fm.num_bins)
    (fits : p + 4096 * 2 ^ i ≤ 2 ^ 32) where
  abbrev f : Frame
  f = frame_init p (2 ^ i) frame_dealloc i 0 0

  abbrev fm2 : FrameManager
  fm2 = registered fm a f

  new : (k : ℕ) → count a (fm.frame_bins k) ≡ 0
  new k = fresh.unused k a (ground arith)

  bins2 :
      (k b : ℕ)
      → count b (fm2.frame_bins k) ≡ count b (fm.frame_bins k) + (if k == i then one_at a b else 0)
  bins2 k b =
      let app = count-append b (fm.frame_bins i) (a ∷ []) in
      elim (Bool-cases (k == i)) [
        | inl e ↦ let is : k ≡ i = ground arith in rw is (ground (arith, app))
        | inr e ↦ ground (arith, e)
      ]

  block2-Block : (k b : ℕ) → 0 < count b (fm2.frame_bins k) → Block k (fm2.frames b)
  block2-Block k b held =
      let n = bins2 k b in
      elim (Bool-cases (b == a)) [
        | inl e ↦
            let is : b ≡ a = ground arith in
            let none : count b (fm.frame_bins k) ≡ 0 = rw is (new k) in
            let there : k ≡ i = ground (arith, n, none, held) in
            rw (e, there) (record { free = refl; bin = refl; size = refl; fits = fits })
        | inr e ↦ rw e (v.block k b (ground (arith, n, e, held)))
      ]

  once2 : (k b : ℕ) → count b (fm2.frame_bins k) ≤ 1
  once2 k b =
      let n = bins2 k b in
      let one = v.once k b in
      elim (Bool-cases (a == b)) [
        | inl e ↦
            let is : b ≡ a = ground arith in
            let none : count b (fm.frame_bins k) ≡ 0 = rw is (new k) in ground (arith, n, none)
        | inr e ↦ ground (arith, n, e, one)
      ]

  registered-IsValid : IsValid fm2
  registered-IsValid = record { block = block2-Block; once = once2 }

  registered-Fresh : Fresh fm2 addrs
  registered-Fresh = record {
    unused = λ k b held.
        let n = bins2 k b in
        let d = fresh.distinct b in
        let u = fresh.unused k b (ground (arith, held)) in ground (arith, n, d, u, held);
    distinct = λ b. let d = fresh.distinct b in ground (arith, d);
  }

  registered-free : (x : ℕ) → free_at x fm2 ≡ free_at x fm + between p (p + 4096 * 2 ^ i) x
  registered-free x =
      let n = fm.num_bins in
      let self : (a == a) ≡ true = ground arith in
      let same : in_bins x fm2.frames fm.frame_bins n ≡ in_bins x fm.frames fm.frame_bins n =
        in_bins-same x fm.frames fm2.frames fm.frame_bins n (λ k b held.
          let other : (b == a) ≡ false = elim (Bool-cases (b == a)) [
            | inl e ↦
                let is : b ≡ a = ground arith in
                let none : count b (fm.frame_bins k) ≡ 0 = rw is (new k) in
                absurd (omega (arith, none, held))
            | inr e ↦ e
          ] in
          rw other refl) in
      let added = in_bins-set x fm2.frames fm.frame_bins i (fm.frame_bins i ++ (a ∷ [])) n lt in
      let app = in_list-append x fm2.frames (fm.frame_bins i) (a ∷ []) in
      let one : in_frame x (fm2.frames a) ≡ between p (p + 4096 * 2 ^ i) x = rw self refl in
      let all : in_bins x fm2.frames fm2.frame_bins n
          ≡ in_bins x fm.frames fm.frame_bins n + between p (p + 4096 * 2 ^ i) x =
        omega (arith, same, added, app, one) in
      all

-- User memory is free up to `p`, and the rest of it is `fs`.
register_all-Free :
    (fs : List Frame) (addrs : List ℕ) (fm : FrameManager) (start p q : ℕ)
    → IsValid fm
    → Fresh fm addrs
    → length fs ≤ length addrs
    → start ≤ p
    → q < 2 ^ 32
    → ((x : ℕ) → free_at x fm ≡ between start p x)
    → Tiles p fs q
    → AllBelow fm.num_bins fs
    → (fm' : FrameManager) × (register_all fm addrs fs ≡ some fm')
      × IsValid fm'
      × ((x : ℕ) → free_at x fm' ≡ between start q x)
unfolding register_all
register_all-Free [] addrs fm start p q v fresh enough le lt free t below =
    (fm, refl, v, λ x. free x ∙ ap (λ z. between start z x) t)
register_all-Free (f ∷ fs) [] fm start p q v fresh enough le lt free t below = absurd (omega arith)
register_all-Free (f ∷ fs) (a ∷ addrs) fm start p q v fresh enough le lt free t below =
    let g : Frame = frame_init p (2 ^ f.i) frame_dealloc f.i 0 0 in
    let to = Tiles-le (p + 4096 * 2 ^ f.i) fs q t.1 in
    let fits : p + 4096 * 2 ^ f.i ≤ 2 ^ 32 = omega (arith, to, lt) in
    let fm1 = registered fm a g in
    let (fm', run, v', free') =
      register_all-Free fs addrs fm1 start (p + 4096 * 2 ^ f.i) q
        (registered-IsValid fm v a addrs fresh p f.i below.0 fits)
        (registered-Fresh fm v a addrs fresh p f.i below.0 fits) (omega (arith, enough))
        (omega (arith, le)) lt
        (λ x.
          let step = registered-free fm v a addrs fresh p f.i below.0 fits x in
          let old = free x in let pos_size = pow_pos f.i in ground (arith, step, old, le, pos_size))
        t.1 below.1 in
    (fm', ap (λ h. register_all (registered fm a h) addrs fs) t.0 ∙ run, v', free')

empty-free : (x : ℕ) (frames : ℕ → Frame) (n : ℕ) → in_bins x frames (λ j. []) n ≡ 0
empty-free x frames zero = refl
empty-free x frames (suc n) = omega (arith, empty-free x frames n)

-- The end of the user memory that `fm_init` sets up.
abbrev pub user_end : ℕ → ℕ → ℕ
user_end start n = start + 4096 * user_frames start n

-- Where the machine has a page frame for user memory, user memory ends below 2^32, there is a bin, and
-- malloc gives distinct addresses, at least as many as there are pages, the call returns 0, and the
-- frame manager is valid, with each address of user memory in exactly one free frame and every other
-- address in none.
pub init-Free :
    (start n num_bins : ℕ) (frames : ℕ → Frame) (addrs : List ℕ)
    → 0 < user_frames start n
    → user_end start n < 2 ^ 32
    → 0 < num_bins
    → ((a : ℕ) → count a addrs ≤ 1)
    → user_frames start n ≤ length addrs
    → (fm : FrameManager) × (fm_init start n frames num_bins addrs ≡ some (pos 0, some fm))
      × IsValid fm
      × ((x : ℕ) → free_at x fm ≡ between start (user_end start n) x)
unfolding fm_init
init-Free start n num_bins frames addrs some_pages lt some_bins distinct enough =
    let (fs, run, t, below) =
      user_space-Tiles start num_bins (user_frames start n) some_bins some_pages lt in
    let fm = empty_manager frames num_bins in
    let (fm', run', v, free) =
      register_all-Free fs addrs fm start start (user_end start n)
        (record { block = λ k a h. absurd (omega arith); once = λ k a. omega arith })
        (record { unused = λ k a h. refl; distinct = distinct })
        (omega (arith, Tiles-length start fs (user_end start n) t, enough)) (omega arith) lt
        (λ x. let none = empty-free x frames num_bins in ground (arith, none)) t below in
    let there : ltb n (start / 4096) ≡ false = ground arith in
    (fm', rw there (ap (then_register fm addrs) run ∙ ap served run'), v, free)
