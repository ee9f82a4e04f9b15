-- ===== src/PageDirectory/Copy/Entries.antt =====
-- What `pt_copy` makes of a table when memory is there.
use custom_os_kernel.Base.{
  ℕ, zero, suc, ◌+◌, ◌*◌, ◌%◌, ◌^◌, ◌<◌, ◌≤◌, ◌≡◌, ◌≢◌, refl, sym, ap, subst, ◌∙◌, ◌⊎◌, inl, inr,
  Bool, true, false, if◌then◌else◌, arith, ◌==◌, Bool-cases, add32,
}
use custom_os_kernel.Base.Int.{pos}
use custom_os_kernel.PageDirectory.{Table, entry_present, add_flags, remove_flags}
use custom_os_kernel.PageDirectory.Copy.{
  Copied, extract_flags, get_page_address, put_page, with_entry, after_p_copy, pt_copy,
}
use custom_os_kernel.PageDirectory.Copy.Page.{
  entry_at, entry_at-frame, entry_at-present, entry_at-flags, p_copy_lem,
}

-- How many of `left` entries from `i` on are present.
unfoldable pub num_present : (src : Table) → (left i : ℕ) → ℕ
num_present src zero i = 0
num_present src (suc k) i = (if entry_present (src i) then 1 else 0) + num_present src k (i + 1)

-- `entry'` maps a frame in [p, p') with the flags of `entry`, and that holds what the frame of
-- `entry` did.
pub record PageCopied {ℓ} {A : Type ℓ} (entry p p' : ℕ) (pages : ℕ → A) (entry' : ℕ)
    (pages' : ℕ → A) : Type ℓ where
  pub here : entry_present entry' ≡ true
  pub flags : entry' % 4096 ≡ entry % 4096
  pub from : p ≤ remove_flags entry'
  pub to : remove_flags entry' + 4096 ≤ p'
  pub same : pages' (remove_flags entry') ≡ pages (remove_flags entry)

-- The entries from `i` on are copied to the frames from `p_addr` on, and nothing else changes.
pub record TableCopied {ℓ} {A : Type ℓ} (src : Table) (left i : ℕ) (c c' : Copied A) : Type ℓ where
  pub advanced : c'.p_addr ≡ c.p_addr + 4096 * num_present src left i
  pub absent : (j : ℕ) → entry_present (src j) ≡ false → c'.table j ≡ c.table j
  pub below : (j : ℕ) → j < i → c'.table j ≡ c.table j
  pub each :
      (j : ℕ)
      → i ≤ j
      → j < i + left
      → entry_present (src j) ≡ true
      → PageCopied (src j) c.p_addr c'.p_addr c.pages (c'.table j) c'.pages
  pub kept : (b : ℕ) → (b < c.p_addr) ⊎ (c'.p_addr ≤ b) → c'.pages b ≡ c.pages b

-- The frames that are mapped are not in [start, end).
abbrev pub FramesOutside : (start end : ℕ) → Table → Type 0
FramesOutside start end src =
    (j : ℕ)
    → entry_present (src j) ≡ true
    → (remove_flags (src j) < start) ⊎ (end ≤ remove_flags (src j))

pub nat_eq : (j i : ℕ) → (j == i) ≡ true → j ≡ i
nat_eq j i e = ground (arith, e)

module _ {ℓ} {A : Type ℓ} (src : Table) (buffer : ℕ → Bool) (pd_i start end : ℕ) (user : 1 ≤ pd_i)
    (rooms : (j : ℕ) → buffer j ≡ true) (word : end < 2 ^ 32)
    (outside : FramesOutside start end src) where
  -- The state fits what is still to copy.
  pub record Fits (left i : ℕ) (c : Copied A) : Type 0 where
    pub from : start ≤ c.p_addr
    pub aligned : c.p_addr % 4096 ≡ 0
    pub fits : c.p_addr + 4096 * num_present src left i ≤ end

  abbrev next : ℕ → Copied A → Copied A
  next i c = with_entry i (src i) c (put_page c.p_addr (c.pages (remove_flags (src i))) c.pages)

  module _ (k i : ℕ) (c : Copied A) (room : Fits (suc k) i c)
      (here : entry_present (src i) ≡ true) where
    counted : num_present src (suc k) i ≡ 1 + num_present src k (i + 1)
    unfolding num_present
    counted = ap (λ b. (if b then 1 else 0) + num_present src k (i + 1)) here

    fits' : c.p_addr + 4096 + 4096 * num_present src k (i + 1) ≤ end
    fits' = omega (arith, counted, room.fits)

    no_wrap : add32 c.p_addr 4096 ≡ c.p_addr + 4096
    no_wrap = ground (arith, fits', word)

    next-Fits : Fits k (i + 1) (next i c)
    next-Fits = record {
      from = omega (arith, no_wrap, room.from);
      aligned = omega (arith, no_wrap, room.aligned);
      fits = omega (arith, no_wrap, fits');
    }

    pt_copy-step :
        pt_copy buffer src pd_i (suc k) i c ≡ pt_copy buffer src pd_i k (i + 1) (next i c)
    unfolding pt_copy
    pt_copy-step =
        rw (pt_copy, here, rooms i)
          (ap (after_p_copy (pt_copy buffer src pd_i k (i + 1)) i (src i) c) (
            p_copy_lem (src i) c.p_addr here room.aligned (omega (arith, fits', word)) c.pages
              (get_page_address pd_i i) (omega (arith, user))))

    other_entry : (j : ℕ) → j ≢ i → (next i c).table j ≡ c.table j
    other_entry j ne =
        let e : (j == i) ≡ false = ground (arith, ne) in
        ap (λ (b : Bool). if b then add_flags c.p_addr (extract_flags (src i)) else c.table j) e

    other_page : (b : ℕ) → b ≢ c.p_addr → (next i c).pages b ≡ c.pages b
    other_page b ne =
        let e : (b == c.p_addr) ≡ false = ground (arith, ne) in
        ap (λ (t : Bool). if t then c.pages (remove_flags (src i)) else c.pages b) e

    absent-ne : (j : ℕ) → entry_present (src j) ≡ false → j ≢ i
    absent-ne j n e = true-ne_false (sym here ∙ ap (λ x. entry_present (src x)) (sym e) ∙ n)
      where
        true-ne_false : true ≢ false
        true-ne_false = cc

    -- The frame of this round is not one that is read later.
    others_kept :
        (j : ℕ)
        → entry_present (src j) ≡ true
        → (next i c).pages (remove_flags (src j)) ≡ c.pages (remove_flags (src j))
    others_kept j p = elim (outside j p) [
      | inl lt ↦ other_page (remove_flags (src j)) (omega (arith, lt, room.from))
      | inr ge ↦ other_page (remove_flags (src j)) (omega (arith, ge, fits'))
    ]

    module _ (c' : Copied A) (rest : TableCopied src k (i + 1) (next i c) c') where
      this-PageCopied : PageCopied (src i) c.p_addr c'.p_addr c.pages (c'.table i) c'.pages
      this-PageCopied =
          let fresh : c.p_addr < 2 ^ 32 = omega (arith, fits', word) in
          let itself : (i == i) ≡ true = ground arith in
          let its : c'.table i ≡ entry_at (src i) c.p_addr here room.aligned fresh =
            rest.below i (omega arith)
            ∙ ap (λ (b : Bool). if b then add_flags c.p_addr (extract_flags (src i)) else c.table i)
                itself in
          let frame =
            ap (λ x. remove_flags x) its
            ∙ entry_at-frame (src i) c.p_addr here room.aligned fresh in
          let page : (c.p_addr == c.p_addr) ≡ true = ground arith in
          record {
            here =
                ap (λ x. entry_present x) its
                ∙ entry_at-present (src i) c.p_addr here room.aligned fresh;
            flags =
                ap (λ x. x % 4096) its ∙ entry_at-flags (src i) c.p_addr here room.aligned fresh;
            from = omega (arith, frame);
            to = omega (arith, frame, rest.advanced, no_wrap);
            same =
                ap c'.pages frame
                ∙ rest.kept c.p_addr (inl (omega (arith, no_wrap)))
                ∙ ap (λ (b : Bool). if b then c.pages (remove_flags (src i)) else c.pages c.p_addr)
                    page;
          }

      later-PageCopied :
          (j : ℕ)
          → i + 1 ≤ j
          → j < i + 1 + k
          → entry_present (src j) ≡ true
          → PageCopied (src j) c.p_addr c'.p_addr c.pages (c'.table j) c'.pages
      later-PageCopied j ge lt p =
          let copied = rest.each j ge lt p in
          record {
            here = copied.here;
            flags = copied.flags;
            from = omega (arith, copied.from, no_wrap);
            to = copied.to;
            same = copied.same ∙ others_kept j p;
          }

      next-TableCopied : TableCopied src (suc k) i c c'
      next-TableCopied = record {
        advanced = omega (arith, rest.advanced, no_wrap, counted);
        absent = λ j n. rest.absent j n ∙ other_entry j (absent-ne j n);
        below = λ j lt. rest.below j (omega arith) ∙ other_entry j (omega arith);
        each = λ j ge lt p. elim (Bool-cases (j == i)) [
          | inl e ↦
              subst (λ x. PageCopied (src x) c.p_addr c'.p_addr c.pages (c'.table x) c'.pages)
                (sym (nat_eq j i e)) this-PageCopied
          | inr e ↦ later-PageCopied j (ground arith) (omega arith) p
        ];
        kept = λ b out. elim out [
          | inl lt ↦ rest.kept b (inl (omega (arith, no_wrap))) ∙ other_page b (omega arith)
          | inr ge ↦ rest.kept b (inr ge) ∙ other_page b (omega (arith, rest.advanced, no_wrap))
        ];
      }

  module _ (k i : ℕ) (c : Copied A) (room : Fits (suc k) i c)
      (gone : entry_present (src i) ≡ false) where
    not_counted : num_present src (suc k) i ≡ num_present src k (i + 1)
    unfolding num_present
    not_counted = ap (λ b. (if b then 1 else 0) + num_present src k (i + 1)) gone ∙ omega arith

    skip-Fits : Fits k (i + 1) c
    skip-Fits = record {
      from = room.from;
      aligned = room.aligned;
      fits = omega (arith, not_counted, room.fits);
    }

    pt_copy-skip : pt_copy buffer src pd_i (suc k) i c ≡ pt_copy buffer src pd_i k (i + 1) c
    unfolding pt_copy
    pt_copy-skip = rw (pt_copy, gone) refl

    skip-TableCopied :
        (c' : Copied A) → TableCopied src k (i + 1) c c' → TableCopied src (suc k) i c c'
    skip-TableCopied c' rest = record {
      advanced = omega (arith, rest.advanced, not_counted);
      absent = rest.absent;
      below = λ j lt. rest.below j (omega arith);
      each = λ j ge lt p. elim (Bool-cases (j == i)) [
        | inl e ↦
            absurd (true-ne_false (sym p ∙ ap (λ x. entry_present (src x)) (nat_eq j i e) ∙ gone))
        | inr e ↦ rest.each j (ground arith) (omega arith) p
      ];
      kept = rest.kept;
    }
      where
        true-ne_false : true ≢ false
        true-ne_false = cc

  done-TableCopied : (i : ℕ) → (c : Copied A) → TableCopied src 0 i c c
  unfolding num_present
  done-TableCopied i c = record {
    advanced = omega arith;
    absent = λ j n. refl;
    below = λ j lt. refl;
    each = λ j ge lt p. absurd (omega arith);
    kept = λ b out. refl;
  }

  pub pt_copy-TableCopied :
      (left i : ℕ)
      → (c : Copied A) → Fits left i c
      → (c' : Copied A) × (pt_copy buffer src pd_i left i c ≡ (pos 0, c'))
        × TableCopied src left i c c'
  unfolding pt_copy
  pt_copy-TableCopied zero i c room = (c, refl, done-TableCopied i c)
  pt_copy-TableCopied (suc k) i c room = elim (Bool-cases (entry_present (src i))) [
    | inl p ↦
        let (c', e, copied) = pt_copy-TableCopied k (i + 1) (next i c) (next-Fits k i c room p) in
        (c', pt_copy-step k i c room p ∙ e, next-TableCopied k i c room p c' copied)
    | inr n ↦
        let (c', e, copied) = pt_copy-TableCopied k (i + 1) c (skip-Fits k i c room n) in
        (c', pt_copy-skip k i c room n ∙ e, skip-TableCopied k i c room n c' copied)
  ]
