-- ===== src/Console/Screen.antt =====
-- The memory of the screen: which bytes a write, a clear and a scroll change.
use custom_os_kernel.Base.{
  ℕ, zero, suc, ◌+◌, ◌-◌, ◌*◌, ◌%◌, ◌<◌, ◌≤◌, ◌≡◌, refl, ◌∙◌, ap, ◌⊎◌, inl, inr, arith,
  if◌then◌else◌, ◌==◌, ltb, Bool-cases, Bool, true, false,
}
use custom_os_kernel.Console.{
  Video, console_size, char_space, clear_row, clear_rows, scroll_memory, draw_cell,
  get_console_char, get_console_color,
}
use custom_os_kernel.Console.Inv.{Fits, lpos-lt}
use custom_os_kernel.Console.Put.{drawn}
use native.Mathlib.Nat.{mul-le-mul_right, mul_comm, suc-mul}

both : (f g : ℕ → ℕ) (i : ℕ) {x : ℕ} (b : Bool) → f i ≡ x → g i ≡ x → (if b then f else g) i ≡ x
both f g i true p q = p
both f g i false p q = q

module _ (v : Video) where
  pub clear_row-outside :
      (row n : ℕ) (mem : ℕ → ℕ) (i : ℕ)
      → (i < 2 * (row * v.width)) ⊎ (2 * (row * v.width) + 2 * n ≤ i)
      → clear_row v row n mem i ≡ mem i
  clear_row-outside row zero mem i o = refl
  clear_row-outside row (suc n) mem i o =
      let rest : clear_row v row n mem i ≡ mem i = clear_row-outside row n mem i (ground arith) in
      ground arith

  pub clear_row-inside :
      (row n : ℕ) (mem : ℕ → ℕ) (k : ℕ)
      → k < n
      → (clear_row v row n mem (get_console_char v row k) ≡ char_space)
        × (clear_row v row n mem (get_console_color v row k) ≡ v.default_color % 256)
  clear_row-inside row zero mem k lt = elim lt [ ]
  clear_row-inside row (suc n) mem k lt = elim (Bool-cases (k == n)) [
    | inl e ↦ ground arith
    | inr e ↦ let (a, b) = clear_row-inside row n mem k (ground arith) in ground arith
  ]

  row_ends : (r h : ℕ) → r < h → r * v.width + v.width ≤ h * v.width
  row_ends r h lt = omega (arith, mul-le-mul_right v.width lt, suc-mul r v.width)

  pub scroll-outside :
      (mem : ℕ → ℕ) (i : ℕ) → 0 < v.height → 2 * console_size v ≤ i → scroll_memory v mem i ≡ mem i
  scroll-outside mem i high o =
      let ends = row_ends (v.height - 1) v.height (omega (arith, high)) in
      let below : ltb i (v.width * (v.height - 1) * 2) ≡ false =
        ground (arith, ends, mul_comm v.width (v.height - 1), mul_comm v.width v.height) in
      clear_row-outside (v.height - 1) v.width _ i
        (inr (omega (arith, ends, mul_comm v.width v.height)))
      ∙ rw below refl

  pub draw_cell-outside :
      (row col ch color : ℕ) (mem : ℕ → ℕ) (i : ℕ)
      → row < v.height
      → col < v.width
      → 2 * console_size v ≤ i
      → draw_cell v row col ch color mem i ≡ mem i
  draw_cell-outside row col ch color mem i ri ci o = ground (arith, lpos-lt v row col ri ci)

  -- Putting a byte at a cell of the screen writes nothing behind the screen.
  pub drawn-outside :
      Fits v
      → (ch color row col : ℕ) (mem : ℕ → ℕ) (i : ℕ) → row < v.height
      → col < v.width
      → 2 * console_size v ≤ i
      → drawn v ch color row col mem i ≡ mem i
  drawn-outside f ch color row col mem i ri ci o =
      let written = draw_cell v row col ch color mem in
      let p = draw_cell-outside row col ch color mem i ri ci o in
      both _ _ i (ch == 10) (both _ _ i (row + 1 == v.height) (scroll-outside mem i f.high o) refl)
        (both _ _ i (ch == 13) refl (
          both _ _ i (ch == 8)
            (both _ _ i (col == 0)
              (both _ _ i (row == 0) refl (
                draw_cell-outside (row - 1) (v.width - 1) char_space v.default_color mem i
                  (omega arith) (omega (arith, f.wide)) o))
              (draw_cell-outside row (col - 1) char_space v.default_color mem i ri (omega arith) o))
            (both _ _ i (col == v.width - 1)
              (both _ _ i (row == v.height - 1) (scroll-outside written i f.high o ∙ p) p) p)))

  -- Scrolling takes the character and the colour of each cell below the first row one row up.
  pub scroll-row :
      (mem : ℕ → ℕ) (r c b : ℕ)
      → suc r < v.height
      → c < v.width
      → b < 2
      → scroll_memory v mem (get_console_char v r c + b) ≡ mem (get_console_char v (suc r) c + b)
  scroll-row mem r c b ri ci bi =
      let ends = row_ends r (v.height - 1) (omega arith) in
      let inside : (ltb (get_console_char v r c + b) (v.width * (v.height - 1) * 2)) ≡ true =
        ground (arith, ends, mul_comm v.width (v.height - 1)) in
      clear_row-outside (v.height - 1) v.width _ (get_console_char v r c + b)
        (inl (omega (arith, ends)))
      ∙ rw inside (ap mem (omega (arith, suc-mul r v.width)))

  -- `clear_console` sets every cell of the screen.
  pub clear_rows-inside :
      (n : ℕ) (mem : ℕ → ℕ) (r c : ℕ)
      → r < n
      → c < v.width
      → (clear_rows v n mem (get_console_char v r c) ≡ char_space)
        × (clear_rows v n mem (get_console_color v r c) ≡ v.default_color % 256)
  clear_rows-inside zero mem r c ri ci = elim ri [ ]
  clear_rows-inside (suc n) mem r c ri ci = elim (Bool-cases (r == n)) [
    | inl e ↦
        let same : r ≡ n = ground arith in
        rw same (clear_row-inside n v.width (clear_rows v n mem) c ci)
    | inr e ↦
        let before : r < n = ground arith in
        let ends = row_ends r n before in
        let (a, b) = clear_rows-inside n mem r c before ci in
        (
          clear_row-outside n v.width _ _ (inl (omega (arith, ends))) ∙ a,
          clear_row-outside n v.width _ _ (inl (omega (arith, ends))) ∙ b,
        )
  ]
