-- ===== src/Console/Runs.antt =====
-- Whole calls of the console: strings, clearing the screen, and a hidden cursor.
use custom_os_kernel.Base.{
  ℕ, ◌+◌, ◌*◌, ◌%◌, ◌≤◌, ◌<◌, ◌≡◌, refl, ◌∙◌, ap, Bool, true, false, ◌↔◌, ◌&&◌, leb, ltb, inl, inr,
  Bool-cases, some, List, [], ◌∷◌, arith,
}
use mathlib.Core.Option.{map}
use custom_os_kernel.Base.Int.{pos}
use custom_os_kernel.Console.{
  Video, Console, console_size, char_space, get_console_char, get_console_color,
  set_hardware_cursor, set_cursor, get_cursor, hide_cursor, putbyte, putbytes, clear_console,
  clear_rows, is_valid_hpos,
}
use custom_os_kernel.Console.Inv.{
  Fits, At, hpos_of, set_cursor-At, get_cursor-At, placed-At, hide_cursor-At,
}
use custom_os_kernel.Console.Put.{next, next_in, drawn, putbyte-At, putbyte-placed}
use custom_os_kernel.Console.Screen.{drawn-outside, clear_rows-inside}

-- The cursor is at a cell, and the bytes behind the screen are those of `mem`.
abbrev pub OnScreen : Video → Bool → (ℕ → ℕ) → Console → Type 0
OnScreen v hidden mem s =
    (row : ℕ) × (col : ℕ) × At v hidden row col s
    × ((i : ℕ) → 2 * console_size v ≤ i → s.mem i ≡ mem i)

module _ (v : Video) (f : Fits v) (hidden : Bool) where
  -- On a screen that fits, printing any string from a cursor on the screen succeeds, and leaves the
  -- cursor on the screen, as hidden as before, and every byte behind the screen as it was.
  pub putbytes-OnScreen :
      (chs : List ℕ) (mem : ℕ → ℕ) (s : Console)
      → OnScreen v hidden mem s
      → (s' : Console) × (putbytes v chs s ≡ some s') × OnScreen v hidden mem s'
  unfolding putbytes
  putbytes-OnScreen [] mem s on = (s, refl, on)
  putbytes-OnScreen (ch ∷ chs) mem s (row, col, at, behind) =
      let (s1, e, at1, m1, c1) = putbyte-At v f hidden row col s at ch in
      let behind1 : (i : ℕ) → 2 * console_size v ≤ i → s1.mem i ≡ mem i = λ i o.
        ap (λ m. m i) m1
        ∙ drawn-outside v f ch s.color row col s.mem i at.row_in at.col_in o
        ∙ behind i o in
      rw (e, putbytes) (putbytes-OnScreen chs mem s1 (_, _, at1, behind1))

  -- On a screen that fits, with the cursor at a cell, clearing the console leaves the default
  -- character and colour in every cell, and the cursor, as hidden as before, at the first one.
  pub clear_console-At :
      (row col : ℕ) (s : Console)
      → At v hidden row col s
      → At v hidden 0 0 (clear_console v s)
        × ((r c : ℕ)
            → r < v.height
            → c < v.width
            → ((clear_console v s).mem (get_console_char v r c) ≡ char_space)
              × ((clear_console v s).mem (get_console_color v r c) ≡ v.default_color % 256))
  unfolding clear_console
  clear_console-At row col s at =
      let blank : Console = record s { mem = clear_rows v v.height s.mem } in
      let at' : At v hidden row col blank = record {
        hpos = at.hpos;
        lsb_byte = at.lsb_byte;
        msb_byte = at.msb_byte;
        row_in = at.row_in;
        col_in = at.col_in;
      } in
      rw (set_cursor-At v hidden row col 0 0 blank at' f.high f.wide, clear_console)
        (
          placed-At v f hidden 0 0 blank f.high f.wide,
          λ r c ri ci. clear_rows-inside v v.height s.mem r c ri ci,
        )

  -- On a screen that fits, with the cursor at a cell, setting the cursor to any other cell and
  -- reading it back gives that cell.
  pub set_cursor-get_cursor :
      (row col r c : ℕ) (s : Console)
      → At v hidden row col s
      → r < v.height
      → c < v.width
      → get_cursor v (set_cursor v (pos r) (pos c) s).1 ≡ (pos 0, some (r, c))
  set_cursor-get_cursor row col r c s at ri ci =
      rw (set_cursor-At v hidden row col r c s at ri ci)
        (get_cursor-At v hidden r c _ (placed-At v f hidden r c s ri ci))

-- On a screen that fits, hiding the cursor and putting a byte is the same as putting the byte and
-- hiding the cursor.
pub putbyte-hide_cursor :
    (v : Video)
    → Fits v
    → (row col : ℕ) (s : Console) → At v false row col s
    → (ch : ℕ)
    → putbyte v ch (hide_cursor v s)
      ≡ map (λ (p : ℕ × Console). (p.0, hide_cursor v p.1)) (putbyte v ch s)
putbyte-hide_cursor v f row col s at ch =
    let hid = placed-At v f true row col s at.row_in at.col_in in
    let (ri, ci) = next_in v f false row col s at ch in
    let m = drawn v ch s.color row col s.mem in
    rw
      (
        hide_cursor-At v row col s at,
        putbyte-placed v f true row col (set_hardware_cursor (hpos_of v true row col) s) hid ch,
        putbyte-placed v f false row col s at ch,
        hide_cursor-At v (next v ch row col).0 (next v ch row col).1
            (set_hardware_cursor (hpos_of v false (next v ch row col).0 (next v ch row col).1)
              (record s { mem = m }))
            (placed-At v f false (next v ch row col).0 (next v ch row col).1 (record s { mem = m })
              ri ci),
      )
      refl

-- `is_valid_hpos` returns 0 exactly at the positions that are not valid: neither those of a shown
-- cursor nor those of a hidden one.
pub is_valid_hpos_iff :
    (v : Video) (hpos : ℕ)
    → (is_valid_hpos v hpos ≡ pos 0) ↔ (console_size v + console_size v ≤ hpos)
unfolding is_valid_hpos
is_valid_hpos_iff v hpos =
    elim (Bool-cases (leb (console_size v) hpos && ltb hpos (console_size v + console_size v))) [
      | inl hidden ↦ rw hidden (ground arith)
      | inr shown ↦ ground arith
    ]
