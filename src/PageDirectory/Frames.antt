-- ===== src/PageDirectory/Frames.antt =====
-- kern/virtual_mem_mgmt/page_directory.c: the physical frames that a page directory remembers. The
-- list of frames is the `pd_frame_metadata_t` that its linked list holds, in order.
use custom_os_kernel.Base.{
  ℕ, ◌+◌, ◌%◌, ◌^◌, ◌<◌, ◌≡◌, ◌≢◌, refl, Bool, true, false, not, Bool-cases, inl, inr, Option,
  Option-cases, none, some, List, [], ◌∷◌, arith, if◌then◌else◌, ◌==◌, length, add32, sub32,
}
use custom_os_kernel.Base.Int.{ℤ, pos, neg, to_int}

-- `pd_frame_metadata_t`
pub record FrameMetadata : Type 0 where
  pub p_addr : ℕ
  pub num_pages : ℕ

-- The fields `num_pages` and `p_addr_list` of `page_directory_t`.
pub record Frames : Type 0 where
  pub num_pages : ℕ
  pub p_addr_list : List FrameMetadata

-- `metadata` and `node` say whether `malloc` gives the entry and the list node.
unfoldable pub pd_alloc_frame :
    (metadata node : Bool) → Option Frames → (p_addr num_pages : ℕ) → ℤ × Option Frames
pd_alloc_frame metadata node none p_addr num_pages = (neg 1, none)
pd_alloc_frame metadata node (some pd) p_addr num_pages =
    let counted : Frames = record pd { num_pages = add32 pd.num_pages num_pages } in
    if not metadata then (neg 2, some counted) else if not node then (neg 3, some counted) else (
      pos 0,
      some (record counted {
        p_addr_list = record { p_addr = p_addr; num_pages = num_pages } ∷ pd.p_addr_list;
      }),
    )

-- The first frame at an address, and the list without it, as `ll_remove` has them.
unfoldable pub remove_frame : ℕ → List FrameMetadata → Option (FrameMetadata × List FrameMetadata)
remove_frame a [] = none
remove_frame a (f ∷ fs) =
    if f.p_addr == a
    then some (f, fs)
    else elim (remove_frame a fs) [ none ↦ none | some (g, gs) ↦ some (g, f ∷ gs) ]

-- `wanted` says that `frame_size` is not NULL.
unfoldable pub pd_dealloc_frame :
    Option Frames → (p_addr : ℕ) → (wanted : Bool) → ℤ × Option ℕ × Option Frames
pd_dealloc_frame none p_addr wanted = (neg 1, none, none)
pd_dealloc_frame (some pd) p_addr wanted = elim (remove_frame p_addr pd.p_addr_list) [
  | none ↦ (neg 2, none, some pd)
  | some (f, fs) ↦ (
    pos 0,
    if wanted then some f.num_pages else none,
    some (record { num_pages = sub32 pd.num_pages f.num_pages; p_addr_list = fs }),
  )
]

unfoldable pub pd_num_frames : Option Frames → ℤ
pd_num_frames none = neg 1
pd_num_frames (some pd) = to_int (length pd.p_addr_list)

-- The number of pages is that of all frames.
abbrev pub pages : List FrameMetadata → ℕ
pages [] = 0
pages (f ∷ fs) = f.num_pages + pages fs

abbrev pub Counted : Frames → Type 0
Counted pd = pd.num_pages ≡ pages pd.p_addr_list % 2 ^ 32

-- A frame of fewer than 2^32 pages that is given to a directory whose pages are counted is the one
-- that its address gets back, with its pages, and the directory is as before. Its pages are counted
-- in between.
pub alloc-dealloc :
    (pd : Frames) (p_addr num_pages : ℕ)
    → Counted pd
    → num_pages < 2 ^ 32
    → (pd' : Frames) × (pd_alloc_frame true true (some pd) p_addr num_pages ≡ (pos 0, some pd'))
      × Counted pd'
      × (pd_dealloc_frame (some pd') p_addr true ≡ (pos 0, some num_pages, some pd))
unfolding pd_alloc_frame pd_dealloc_frame remove_frame
alloc-dealloc pd a n counted word =
    let itself : (a == a) ≡ true = ground arith in
    let new : FrameMetadata = record { p_addr = a; num_pages = n } in
    let at_head : remove_frame a (new ∷ pd.p_addr_list) ≡ some (new, pd.p_addr_list) =
      rw (itself, remove_frame) refl in
    let back : sub32 (add32 pd.num_pages n) n ≡ pd.num_pages = omega (arith, counted, word) in
    (
      record { num_pages = add32 pd.num_pages n; p_addr_list = new ∷ pd.p_addr_list },
      refl,
      omega (arith, counted),
      rw (at_head, pd_dealloc_frame) (rw back refl),
    )

remove_frame-pages :
    (a : ℕ) (fs : List FrameMetadata) (f : FrameMetadata) (gs : List FrameMetadata)
    → remove_frame a fs ≡ some (f, gs)
    → pages fs ≡ f.num_pages + pages gs
unfolding remove_frame
remove_frame-pages a [] f gs e = ground (arith, e)
remove_frame-pages a (x ∷ fs) f gs e = elim (Bool-cases (x.p_addr == a)) [
  | inl here ↦ ground (arith, e, here)
  | inr away ↦ elim (Option-cases (remove_frame a fs)) [
    | inl vain ↦ ground (arith, e, away, vain)
    | inr ((g, hs), found) ↦
        let rest = remove_frame-pages a fs g hs found in ground (arith, e, away, found, rest)
  ]
]

-- On a directory whose pages are counted, where an address is that of a remembered frame of fewer than
-- 2^32 pages, giving the frame up returns 0 and its pages, forgets it, and keeps the pages counted.
pub dealloc-Counted :
    (pd : Frames) (p_addr : ℕ) (f : FrameMetadata) (gs : List FrameMetadata)
    → Counted pd
    → remove_frame p_addr pd.p_addr_list ≡ some (f, gs)
    → f.num_pages < 2 ^ 32
    → (pd' : Frames) × (pd_dealloc_frame (some pd) p_addr true
        ≡ (pos 0, some f.num_pages, some pd'))
      × (pd'.p_addr_list ≡ gs)
      × Counted pd'
unfolding pd_dealloc_frame
dealloc-Counted pd a f gs counted found word =
    let total = remove_frame-pages a pd.p_addr_list f gs found in
    (
      record { num_pages = sub32 pd.num_pages f.num_pages; p_addr_list = gs },
      rw (found, pd_dealloc_frame) refl,
      refl,
      omega (arith, counted, total, word),
    )

-- Where malloc fails to give a list node, a frame of some pages is not remembered, and its pages are
-- counted all the same.
pub alloc-failed :
    (pd : Frames) (p_addr num_pages : ℕ) (metadata : Bool)
    → Counted pd
    → num_pages % 2 ^ 32 ≢ 0
    → (s : ℤ) × (pd' : Frames) × (pd_alloc_frame metadata false (some pd) p_addr num_pages
        ≡ (s, some pd'))
      × (¬ Counted pd')
unfolding pd_alloc_frame
alloc-failed pd a n true counted some_pages = (
  neg 3,
  record pd { num_pages = add32 pd.num_pages n },
  refl,
  λ c. some_pages (omega (arith, c, counted)),
)
alloc-failed pd a n false counted some_pages = (
  neg 2,
  record pd { num_pages = add32 pd.num_pages n },
  refl,
  λ c. some_pages (omega (arith, c, counted)),
)
