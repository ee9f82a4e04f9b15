-- ===== src/FrameManager/Take.antt =====
-- What taking a free frame out of its bin does, at the end of `fm_alloc` in
-- kern/virtual_mem_mgmt/frame_manager.c.
use custom_os_kernel.Base.{
  ℕ, ◌+◌, ◌*◌, ◌^◌, ◌≤◌, ◌<◌, ◌≡◌, refl, subst, List, ◌∷◌, some, if◌then◌else◌, arith, ◌==◌, ltb,
  leb, ◌&&◌, count, one_at, inl, inr, Bool-cases, true,
}
use custom_os_kernel.Base.Int.{pos}
use custom_os_kernel.FrameManager.{Frame, frame_dealloc}
use custom_os_kernel.FrameManager.Ops.{
  FrameManager, set_at, set_status, put_node, drop_node, frame_alloc, take_head,
}
use custom_os_kernel.FrameManager.Free.{
  in_frame, in_list, in_bins, free_at, in_bins-same, in_bins-set,
}
use custom_os_kernel.FrameManager.Split.{Block, IsValid, Fresh}

-- The block at `a` of bin `j` is not free any more, and nothing else changes for the free frames.
pub record Taken (fm fm' : FrameManager) (j a : ℕ) (addrs : List ℕ) : Type 0 where
  pub valid : IsValid fm'
  pub fresh : Fresh fm' addrs
  pub bins : fm'.num_bins ≡ fm.num_bins
  pub fits : a + 4096 * 2 ^ j ≤ 2 ^ 32
  pub covers :
      (x : ℕ)
      → free_at x fm' + (if leb a x && ltb x (a + 4096 * 2 ^ j) then 1 else 0) ≡ free_at x fm

module _ (fm : FrameManager) (v : IsValid fm) (addrs : List ℕ) (fresh : Fresh fm addrs) (j p : ℕ)
    (ps : List ℕ) (at : fm.frame_bins j ≡ (p ∷ ps)) (lt : j < fm.num_bins) where
  abbrev f : Frame
  f = fm.frames p

  abbrev fm2 : FrameManager
  fm2 = record fm {
    frames = set_status p frame_alloc fm.frames;
    deallocated = drop_node f.addr fm.deallocated;
    allocated = put_node f.addr p fm.allocated;
    frame_bins = set_at j ps fm.frame_bins;
  }

  head-Block : Block j f
  head-Block = v.block j p (rw at (ground arith))

  bins2 :
      (k a : ℕ)
      → count a (fm2.frame_bins k) + (if k == j then one_at p a else 0) ≡ count a (fm.frame_bins k)
  bins2 k a =
      let whole : count a (fm.frame_bins j) ≡ count a ps + one_at p a = rw at (ground arith) in
      elim (Bool-cases (k == j)) [
        | inl e ↦ let is : k ≡ j = ground arith in rw is (ground (arith, whole))
        | inr e ↦ ground (arith, e)
      ]

  block2-Block : (k a : ℕ) → 0 < count a (fm2.frame_bins k) → Block k (fm2.frames a)
  block2-Block k a held =
      let n = bins2 k a in
      let one = v.once k a in
      let old : 0 < count a (fm.frame_bins k) = omega (arith, n, held) in
      elim (Bool-cases (a == p)) [
        | inl e ↦
            let is : a ≡ p = ground arith in
            let there : k ≡ j = omega (
              arith,
              head-Block.bin,
              (v.block k p (subst (λ z. 0 < count z (fm.frame_bins k)) is old)).bin,
            ) in
            absurd (ground (arith, n, is, there, one, held))
        | inr e ↦ rw e (v.block k a old)
      ]

  covers2 :
      (x : ℕ)
      → free_at x fm2 + (if leb f.addr x && ltb x (f.addr + 4096 * 2 ^ j) then 1 else 0)
        ≡ free_at x fm
  covers2 x =
      let n = fm.num_bins in
      let same : in_bins x fm2.frames fm.frame_bins n ≡ in_bins x fm.frames fm.frame_bins n =
        in_bins-same x fm.frames fm2.frames fm.frame_bins n (λ k a held.
          elim (Bool-cases (a == p)) [
            | inl e ↦ let is : a ≡ p = ground arith in rw e (rw is refl)
            | inr e ↦ rw e refl
          ]) in
      let self : (p == p) ≡ true = ground arith in
      let size : in_frame x (fm2.frames p)
          ≡ (if leb f.addr x && ltb x (f.addr + 4096 * 2 ^ j) then 1 else 0) =
        rw self (rw head-Block.size refl) in
      let whole : in_list x fm2.frames (fm.frame_bins j)
          ≡ in_frame x (fm2.frames p) + in_list x fm2.frames ps =
        rw at refl in
      let dropped = in_bins-set x fm2.frames fm.frame_bins j ps n lt in
      let all : in_bins x fm2.frames fm2.frame_bins n
            + (if leb f.addr x && ltb x (f.addr + 4096 * 2 ^ j) then 1 else 0)
          ≡ in_bins x fm.frames fm.frame_bins n =
        omega (arith, same, size, whole, dropped) in
      all

  pub take-Taken : Taken fm fm2 j f.addr addrs
  take-Taken = record {
    valid = record { block = block2-Block; once = λ k a. omega (arith, bins2 k a, v.once k a) };
    fresh = record {
      unused = λ k a held. omega (arith, bins2 k a, fresh.unused k a held);
      distinct = fresh.distinct;
    };
    bins = refl;
    fits = head-Block.fits;
    covers = covers2;
  }

  pub take-runs : take_head fm j addrs (p ∷ ps) ≡ some (pos 0, some f.addr, fm2, addrs)
  unfolding take_head
  take-runs =
      let free : (f.status == frame_dealloc) ≡ true = rw head-Block.free refl in
      rw (free, take_head) refl
