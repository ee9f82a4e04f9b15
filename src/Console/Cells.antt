-- ===== src/Console/Cells.antt =====
-- What the memory of the screen holds, byte for byte, after a byte is put to it: kern/console.c.
use custom_os_kernel.Base.{
  ℕ, zero, suc, ◌+◌, ◌-◌, ◌*◌, ◌%◌, ◌<◌, ◌≡◌, ap, ◌∙◌, Bool, some, arith, if◌then◌else◌, ◌==◌, ltb,
  leb, ◌&&◌,
}
use mathlib.Core.Path.{fun_ext}
use native.Mathlib.Nat.{mul_comm, suc-mul}
use custom_os_kernel.Console.{Video, Console, clear_row, scroll_memory, draw_cell, putbyte}
use custom_os_kernel.Console.Inv.{Fits, At}
use custom_os_kernel.Console.Put.{next, drawn, drawn_by, putbyte-At}

module _ (v : Video) where
  -- Each row but the last holds what the row below it held, the last row is blank, and what is behind
  -- the screen stays.
  abbrev pub scrolled : (ℕ → ℕ) → ℕ → ℕ
  scrolled mem i =
      if ltb i (2 * (v.width * (v.height - 1)))
      then mem (i + 2 * v.width)
      else if ltb i (2 * (v.width * v.height))
      then if i % 2 == 0 then 32 else v.default_color % 256
      else mem i

  -- Only the two bytes of the cell change.
  abbrev pub with_cell : (row col ch color : ℕ) → (ℕ → ℕ) → ℕ → ℕ
  with_cell row col ch color mem i =
      if i == 2 * (row * v.width + col)
      then ch % 256
      else if i == 2 * (row * v.width + col) + 1
      then color % 256
      else mem i

  clear_row-cells :
      (row n : ℕ) (mem : ℕ → ℕ) (i : ℕ)
      → clear_row v row n mem i ≡ (
          if leb (2 * (row * v.width)) i && ltb i (2 * (row * v.width) + 2 * n)
          then if i % 2 == 0 then 32 else v.default_color % 256
          else mem i)
  clear_row-cells row zero mem i = ground arith
  clear_row-cells row (suc n) mem i = ground (arith, clear_row-cells row n mem i)

  scroll-cells : 0 < v.height → (mem : ℕ → ℕ) (i : ℕ) → scroll_memory v mem i ≡ scrolled mem i
  scroll-cells high mem i =
      clear_row-cells (v.height - 1) v.width _ i
      ∙ ground (
        arith,
        mul_comm v.width (v.height - 1),
        mul_comm v.width v.height,
        suc-mul (v.height - 1) v.width,
        high,
      )

  draw-cells :
      (row col ch color : ℕ) (mem : ℕ → ℕ) (i : ℕ)
      → draw_cell v row col ch color mem i ≡ with_cell row col ch color mem i
  draw-cells row col ch color mem i = ground arith

  -- What the screen holds after a byte is put at a cell.
  abbrev pub shown : (ch color row col : ℕ) → (ℕ → ℕ) → ℕ → ℕ
  shown = drawn_by v scrolled with_cell

  drawn-shown :
      0 < v.height
      → (ch color row col : ℕ) (mem : ℕ → ℕ)
      → drawn v ch color row col mem ≡ shown ch color row col mem
  drawn-shown high ch color row col mem =
      ap (λ scroll. drawn_by v scroll (draw_cell v) ch color row col mem)
        (fun_ext (λ m. fun_ext (scroll-cells high m)))
      ∙ ap (λ draw. drawn_by v scrolled draw ch color row col mem)
          (fun_ext (λ r.
            fun_ext
              (λ c. fun_ext (λ x. fun_ext (λ y. fun_ext (λ m. fun_ext (draw-cells r c x y m)))))))

  -- On a screen that fits, with the cursor at a cell, putting a byte returns the byte. A character and
  -- its colour are stored at the cell, a backspace blanks the cell before it, and nothing else changes
  -- but where the screen scrolls: then each row holds what the row below it held and the last is blank.
  -- The cursor, as hidden as before, is at the cell where the next byte goes, and the colour stays.
  pub putbyte-shown :
      (hidden : Bool) (row col : ℕ) (s : Console) (ch : ℕ)
      → Fits v
      → At v hidden row col s
      → (s' : Console) × (putbyte v ch s ≡ some (ch % 256, s'))
        × At v hidden (next v ch row col).0 (next v ch row col).1 s'
        × (s'.mem ≡ shown ch s.color row col s.mem)
        × (s'.color ≡ s.color)
  putbyte-shown hidden row col s ch f at =
      let (s', ran, placed, mem, color) = putbyte-At v f hidden row col s at ch in
      (s', ran, placed, mem ∙ drawn-shown f.high ch s.color row col s.mem, color)
