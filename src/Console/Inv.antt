-- ===== src/Console/Inv.antt =====
-- Where the cursor is, and how the console moves it.
use custom_os_kernel.Base.{
  ℕ, ◌+◌, ◌*◌, ◌/◌, ◌%◌, ◌<◌, ◌≤◌, ◌≡◌, refl, ap, Bool, true, false, some, arith, if◌then◌else◌,
  leb, ◌||◌,
}
use custom_os_kernel.Base.Int.{pos}
use custom_os_kernel.Console.{
  Video, Console, console_size, get_hpos_status, get_hardware_cursor, set_hardware_cursor,
  set_cursor, get_cursor, hide_cursor, lpos_to_row_col,
}
use native.Mathlib.Nat.{
  mul-le-mul_right, mul_comm, add_comm, add-mul-div_right, add-mul-mod_self_right, div-eq_of_lt,
  mod-eq_of_lt,
}

-- The screen has cells, and the registers can hold a hidden position.
pub record Fits (v : Video) : Type 0 where
  pub wide : 0 < v.width
  pub high : 0 < v.height
  pub held : console_size v + console_size v ≤ 65536

pub record At (v : Video) (hidden : Bool) (row col : ℕ) (s : Console) : Type 0 where
  pub hpos : get_hardware_cursor s ≡ row * v.width + col + (if hidden then console_size v else 0)
  pub lsb_byte : s.lsb < 256
  pub msb_byte : s.msb < 256
  pub row_in : row < v.height
  pub col_in : col < v.width

pub lpos-lt :
    (v : Video) (row col : ℕ)
    → row < v.height
    → col < v.width
    → row * v.width + col < console_size v
lpos-lt v row col r c = omega (arith, mul-le-mul_right v.width r, mul_comm v.width v.height)

pub row-lpos : (w row col : ℕ) → col < w → (row * w + col) / w ≡ row
row-lpos w row col c =
    rw (add_comm (row * w) col, add-mul-div_right col row {z = w} (omega arith), div-eq_of_lt c)
      (omega arith)

pub col-lpos : (w row col : ℕ) → col < w → (row * w + col) % w ≡ col
col-lpos w row col c =
    rw (add_comm (row * w) col, add-mul-mod_self_right col row w, mod-eq_of_lt c) refl

pub set_hardware-get :
    (h : ℕ) (s : Console) → h < 65536 → get_hardware_cursor (set_hardware_cursor h s) ≡ h
set_hardware-get h s lt = omega arith

-- The hardware position of a cell.
abbrev pub hpos_of : (v : Video) → Bool → ℕ → ℕ → ℕ
hpos_of v hidden row col = row * v.width + col + (if hidden then console_size v else 0)

pub hidden_status :
    (v : Video) (l : ℕ) → l < console_size v → get_hpos_status v (l + console_size v) ≡ pos 1
hidden_status v l lt = ground arith

pub shown_status : (v : Video) (l : ℕ) → l < console_size v → get_hpos_status v (l + 0) ≡ pos 0
shown_status v l lt = ground arith

pub cursor_read :
    (v : Video) (l row col : ℕ)
    → col < v.width
    → l ≡ row * v.width + col
    → lpos_to_row_col v l ≡ (row, col)
cursor_read v l row col ci e = rw (e, row-lpos v.width row col ci, col-lpos v.width row col ci) refl

module _ (v : Video) where
  pub set_cursor-At :
      (hidden : Bool) (row col r c : ℕ) (s : Console)
      → At v hidden row col s
      → r < v.height
      → c < v.width
      → set_cursor v (pos r) (pos c) s ≡ (pos 0, set_hardware_cursor (hpos_of v hidden r c) s)
  unfolding set_cursor
  set_cursor-At true row col r c s at ri ci =
      let inside : (leb v.height r || leb v.width c) ≡ false = ground arith in
      rw (inside, at.hpos, hidden_status v _ (lpos-lt v row col at.row_in at.col_in)) refl
  set_cursor-At false row col r c s at ri ci =
      let inside : (leb v.height r || leb v.width c) ≡ false = ground arith in
      rw (inside, at.hpos, shown_status v _ (lpos-lt v row col at.row_in at.col_in)) (ground arith)

  pub get_cursor-At :
      (hidden : Bool) (row col : ℕ) (s : Console)
      → At v hidden row col s
      → get_cursor v s ≡ (pos 0, some (row, col))
  unfolding get_cursor
  get_cursor-At true row col s at =
      rw (at.hpos, hidden_status v _ (lpos-lt v row col at.row_in at.col_in))
        (ap (λ p. (pos 0, some p)) (cursor_read v _ row col at.col_in (omega arith)))
  get_cursor-At false row col s at =
      rw (at.hpos, shown_status v _ (lpos-lt v row col at.row_in at.col_in))
        (ap (λ p. (pos 0, some p)) (cursor_read v _ row col at.col_in (omega arith)))

  pub placed-At :
      Fits v
      → (hidden : Bool) (r c : ℕ) (s : Console) → r < v.height
      → c < v.width
      → At v hidden r c (set_hardware_cursor (hpos_of v hidden r c) s)
  placed-At f hidden r c s ri ci = record {
    hpos = set_hardware-get _ s (ground (arith, lpos-lt v r c ri ci, f.held));
    lsb_byte = omega arith;
    msb_byte = omega arith;
    row_in = ri;
    col_in = ci;
  }

  -- The registers are what the position says.
  pub At-placed :
      Fits v
      → (hidden : Bool) (row col : ℕ) (s : Console) → At v hidden row col s
      → set_hardware_cursor (hpos_of v hidden row col) s ≡ s
  At-placed f hidden row col s at =
      let e : s.msb * 256 + s.lsb ≡ hpos_of v hidden row col =
        omega (arith, at.hpos, at.lsb_byte, at.msb_byte) in
      let l : hpos_of v hidden row col % 256 ≡ s.lsb = omega (arith, e, at.lsb_byte) in
      let m : hpos_of v hidden row col / 256 % 256 ≡ s.msb =
        omega (arith, e, at.lsb_byte, at.msb_byte) in
      rw (l, m) refl

  pub hide_cursor-At :
      (row col : ℕ) (s : Console)
      → At v false row col s
      → hide_cursor v s ≡ set_hardware_cursor (hpos_of v true row col) s
  unfolding hide_cursor
  hide_cursor-At row col s at =
      rw (at.hpos, shown_status v _ (lpos-lt v row col at.row_in at.col_in)) (ground arith)
