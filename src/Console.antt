-- ===== src/Console.antt =====
-- kern/console.c: the console driver. The sizes of the screen and its blank cell are those of the
-- video header; the memory of the screen is a function on byte offsets from its base, and the
-- cursor is held by the two cursor registers, which read back what was written to them.
pub mod Inv
pub mod Put
pub mod Screen
pub mod Cells
pub mod Runs
mod Examples
use custom_os_kernel.Base.{
  ℕ, zero, suc, ◌+◌, ◌-◌, ◌*◌, ◌/◌, ◌%◌, Bool, false, ◌&&◌, ◌||◌, Option, none, some, List, [], ◌∷◌,
  if◌then◌else◌, ◌==◌, ltb, leb,
}
use custom_os_kernel.Base.Int.{ℤ, pos, negsuc, neg}

-- What the video header fixes.
pub record Video : Type 0 where
  pub width : ℕ
  pub height : ℕ
  pub default_color : ℕ

pub record Console : Type 0 where
  pub mem : ℕ → ℕ
  pub lsb : ℕ
  pub msb : ℕ
  pub color : ℕ

-- Stores a `char` at an address.
abbrev pub poke : ℕ → ℕ → (ℕ → ℕ) → ℕ → ℕ
poke a x mem i = if i == a then x % 256 else mem i

abbrev pub is_zero : ℤ → Bool
is_zero (pos n) = n == 0
is_zero (negsuc n) = false

abbrev pub char_space : ℕ
char_space = 32

abbrev pub get_hardware_cursor : Console → ℕ
get_hardware_cursor s = s.msb % 256 * 256 + s.lsb % 256

abbrev pub set_hardware_cursor : ℕ → Console → Console
set_hardware_cursor hpos s = record s { lsb = hpos % 256; msb = hpos / 256 % 256 }

abbrev pub get_term_color : Console → ℕ
get_term_color s = s.color

unfoldable pub set_term_color : ℕ → Console → ℤ × Console
set_term_color color s = (pos 0, record s { color = color })

module _ (v : Video) where
  abbrev pub console_size : ℕ
  console_size = v.width * v.height

  abbrev pub in_bounds : ℤ → ℤ → ℤ
  in_bounds (negsuc r) col = neg 1
  in_bounds (pos r) (negsuc c) = neg 1
  in_bounds (pos r) (pos c) = if leb v.height r || leb v.width c then neg 1 else pos 0

  abbrev pub get_hpos_status : ℕ → ℤ
  get_hpos_status hpos =
      if leb console_size hpos && ltb hpos (console_size + console_size)
      then pos 1
      else if ltb hpos console_size
      then pos 0
      else neg 1

  abbrev pub is_valid_lpos : ℕ → ℤ
  is_valid_lpos lpos = if ltb lpos console_size then pos 0 else pos 1

  -- The comparison `get_hpos_status(hpos) != -1`.
  abbrev pub is_status : ℤ → ℤ
  is_status (pos n) = pos 1
  is_status (negsuc zero) = pos 0
  is_status (negsuc (suc n)) = pos 1

  unfoldable pub is_valid_hpos : ℕ → ℤ
  is_valid_hpos hpos = is_status (get_hpos_status hpos)

  abbrev pub lpos_to_row_col : ℕ → ℕ × ℕ
  lpos_to_row_col lpos = (lpos / v.width, lpos % v.width)

  abbrev pub row_col_to_lpos : ℕ → ℕ → ℕ
  row_col_to_lpos row col = row * v.width + col

  -- The switch of `hardware_to_logical`.
  abbrev pub shown_at : ℤ → ℕ → ℤ
  shown_at (pos zero) hpos = pos hpos
  shown_at (pos (suc zero)) hpos = pos (hpos - console_size)
  shown_at (pos (suc (suc n))) hpos = neg 1
  shown_at (negsuc n) hpos = neg 1

  abbrev pub hardware_to_logical : ℕ → ℤ
  hardware_to_logical hpos = shown_at (get_hpos_status hpos) hpos

  abbrev pub logical_to_hardware : ℕ → ℤ → ℤ
  logical_to_hardware lpos (pos zero) = pos lpos
  logical_to_hardware lpos (pos (suc zero)) = pos (lpos + console_size)
  logical_to_hardware lpos (pos (suc (suc n))) = neg 1
  logical_to_hardware lpos (negsuc n) = neg 1

  abbrev pub get_console_char : ℕ → ℕ → ℕ
  get_console_char row col = 2 * (row * v.width + col)

  abbrev pub get_console_color : ℕ → ℕ → ℕ
  get_console_color row col = 2 * (row * v.width + col) + 1

  -- Sets the first `n` cells of a row to the default.
  abbrev pub clear_row : ℕ → ℕ → (ℕ → ℕ) → ℕ → ℕ
  clear_row row zero mem = mem
  clear_row row (suc n) mem =
      poke (get_console_color row n) v.default_color
        (poke (get_console_char row n) char_space (clear_row row n mem))

  -- `memmove` of all rows but the first, then the last row is cleared.
  abbrev pub scroll_memory : (ℕ → ℕ) → ℕ → ℕ
  scroll_memory mem =
      clear_row (v.height - 1) v.width (λ i.
        if ltb i (v.width * (v.height - 1) * 2) then mem (get_console_char 1 0 + i) else mem i)

  unfoldable pub scroll_console : Console → Console
  scroll_console s = record s { mem = scroll_memory s.mem }

  abbrev pub draw_cell : ℕ → ℕ → ℕ → ℕ → (ℕ → ℕ) → ℕ → ℕ
  draw_cell row col ch color mem =
      poke (get_console_color row col) color (poke (get_console_char row col) ch mem)

  unfoldable pub draw_char : ℤ → ℤ → (ch : ℕ) → (color : ℕ) → Console → Console
  draw_char (negsuc r) col ch color s = s
  draw_char (pos r) (negsuc c) ch color s = s
  draw_char (pos r) (pos c) ch color s =
      if is_zero (in_bounds (pos r) (pos c))
      then record s { mem = draw_cell r c ch color s.mem }
      else s

  -- `none` is the failed assertion.
  unfoldable pub get_char : ℤ → ℤ → Console → Option ℕ
  get_char (negsuc r) col s = none
  get_char (pos r) (negsuc c) s = none
  get_char (pos r) (pos c) s =
      if is_zero (in_bounds (pos r) (pos c)) then some (s.mem (get_console_char r c)) else none

  -- The end of `set_cursor`, once the hardware position is known.
  abbrev pub write_cursor : ℤ → Console → ℤ × Console
  write_cursor (pos hpos) s = (pos 0, set_hardware_cursor hpos s)
  write_cursor (negsuc n) s = (neg 2, s)

  unfoldable pub set_cursor : ℤ → ℤ → Console → ℤ × Console
  set_cursor (negsuc r) col s = (neg 1, s)
  set_cursor (pos r) (negsuc c) s = (neg 1, s)
  set_cursor (pos r) (pos c) s =
      if is_zero (in_bounds (pos r) (pos c))
      then write_cursor
          (logical_to_hardware (row_col_to_lpos r c) (get_hpos_status (get_hardware_cursor s))) s
      else (neg 1, s)

  abbrev pub logical_cursor : ℤ → ℤ × Option (ℕ × ℕ)
  logical_cursor (pos lpos) = (pos 0, some (lpos_to_row_col lpos))
  logical_cursor (negsuc n) = (neg 1, none)

  -- Row and column are stored only where the call succeeds.
  unfoldable pub get_cursor : Console → ℤ × Option (ℕ × ℕ)
  get_cursor s = logical_cursor (hardware_to_logical (get_hardware_cursor s))

  unfoldable pub hide_cursor : Console → Console
  hide_cursor s =
      let hpos = get_hardware_cursor s in
      if is_zero (get_hpos_status hpos) then set_hardware_cursor (hpos + console_size) s else s

  abbrev pub is_one : ℤ → Bool
  is_one (pos n) = n == 1
  is_one (negsuc n) = false

  unfoldable pub show_cursor : Console → Console
  show_cursor s =
      let hpos = get_hardware_cursor s in
      if is_one (get_hpos_status hpos) then set_hardware_cursor (hpos - console_size) s else s

  -- The switch of `putbyte`, at a row and a column.
  unfoldable pub put_at : (ch : ℕ) → ℕ → ℕ → Console → Console
  put_at ch row col s =
      if ch == 10
      then if row + 1 == v.height
        then (set_cursor (pos row) (pos 0) (scroll_console s)).1
        else (set_cursor (pos (row + 1)) (pos 0) s).1
      else if ch == 13
      then (set_cursor (pos row) (pos 0) s).1
      else if ch == 8
      then if col == 0
        then if row == 0
          then s
          else (set_cursor (pos (row - 1)) (pos (v.width - 1))
              (draw_char (pos (row - 1)) (pos (v.width - 1)) char_space v.default_color s)).1
        else (set_cursor (pos row) (pos (col - 1))
            (draw_char (pos row) (pos (col - 1)) char_space v.default_color s)).1
      else let drawn = draw_char (pos row) (pos col) ch (get_term_color s) s in
        if col == v.width - 1
        then if row == v.height - 1
          then scroll_console (set_cursor (pos row) (pos 0) drawn).1
          else (set_cursor (pos (row + 1)) (pos 0) drawn).1
        else (set_cursor (pos row) (pos (col + 1)) drawn).1

  -- `none` is a run that reads a row and a column that were never stored.
  unfoldable pub putbyte : (ch : ℕ) → Console → Option (ℕ × Console)
  putbyte ch s = elim (get_cursor s).1 [
    | none ↦ none
    | some (row, col) ↦ some (ch % 256, put_at ch row col s)
  ]

  -- The loop of `putbytes` over the bytes of the string.
  unfoldable pub putbytes : List ℕ → Console → Option Console
  putbytes [] s = some s
  putbytes (ch ∷ chs) s = elim (putbyte ch s) [ none ↦ none | some (_, s') ↦ putbytes chs s' ]

  -- The loop of `clear_console` over the first rows.
  abbrev pub clear_rows : ℕ → (ℕ → ℕ) → ℕ → ℕ
  clear_rows zero mem = mem
  clear_rows (suc n) mem = clear_row n v.width (clear_rows n mem)

  unfoldable pub clear_console : Console → Console
  clear_console s = (set_cursor (pos 0) (pos 0) (record s { mem = clear_rows v.height s.mem })).1
