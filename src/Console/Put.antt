-- ===== src/Console/Put.antt =====
-- `putbyte`: where the cursor goes and what is drawn, for a hidden cursor as for a shown one.
use custom_os_kernel.Base.{
  ℕ, ◌+◌, ◌-◌, ◌%◌, ◌<◌, ◌≡◌, refl, sym, ap, subst, Bool, false, some, arith, inl, inr,
  if◌then◌else◌, ◌==◌, leb, ◌||◌, Bool-cases,
}
use custom_os_kernel.Base.Int.{pos}
use custom_os_kernel.Console.{
  Video, Console, char_space, draw_cell, scroll_memory, scroll_console, draw_char,
  set_hardware_cursor, set_cursor, put_at, putbyte,
}
use custom_os_kernel.Console.Inv.{
  Fits, At, hpos_of, set_cursor-At, get_cursor-At, placed-At, At-placed,
}

-- Where the cursor goes.
abbrev pub next : Video → ℕ → ℕ → ℕ → ℕ × ℕ
next v ch row col =
    if ch == 10
    then ((if row + 1 == v.height then row else row + 1), 0)
    else if ch == 13
    then (row, 0)
    else if ch == 8
    then if col == 0
      then if row == 0 then (row, col) else (row - 1, v.width - 1)
      else (row, col - 1)
    else if col == v.width - 1
    then ((if row == v.height - 1 then row else row + 1), 0)
    else (row, col + 1)

-- What the screen holds then, by what scrolling and drawing a cell do to it.
abbrev pub drawn_by :
    (v : Video)
    → (scroll : (ℕ → ℕ) → ℕ → ℕ) → (draw : (row col ch color : ℕ) → (ℕ → ℕ) → ℕ → ℕ)
    → (ch color row col : ℕ) → (ℕ → ℕ)
    → ℕ
    → ℕ
drawn_by v scroll draw ch color row col mem =
    if ch == 10
    then if row + 1 == v.height then scroll mem else mem
    else if ch == 13
    then mem
    else if ch == 8
    then if col == 0
      then if row == 0 then mem else draw (row - 1) (v.width - 1) 32 v.default_color mem
      else draw row (col - 1) 32 v.default_color mem
    else let written = draw row col ch color mem in
      if col == v.width - 1
      then if row == v.height - 1 then scroll written else written
      else written

abbrev pub drawn : Video → ℕ → ℕ → ℕ → ℕ → (ℕ → ℕ) → ℕ → ℕ
drawn v = drawn_by v (scroll_memory v) (draw_cell v)

module _ (v : Video) (f : Fits v) (hidden : Bool) (row col : ℕ) (s : Console)
    (at : At v hidden row col s) where
  -- The console with the screen `m` and the cursor at a cell.
  abbrev pub placed : ℕ → ℕ → (ℕ → ℕ) → Console
  placed r c m = set_hardware_cursor (hpos_of v hidden r c) (record s { mem = m })

  move :
      (m : ℕ → ℕ) (r c : ℕ)
      → r < v.height
      → c < v.width
      → (set_cursor v (pos r) (pos c) (record s { mem = m })).1 ≡ placed r c m
  move m r c ri ci =
      ap (λ p. p.1)
        (set_cursor-At v hidden row col r c (record s { mem = m })
          (record {
            hpos = at.hpos;
            lsb_byte = at.lsb_byte;
            msb_byte = at.msb_byte;
            row_in = at.row_in;
            col_in = at.col_in;
          })
          ri ci)

  draw :
      (r c ch color : ℕ)
      → r < v.height
      → c < v.width
      → draw_char v (pos r) (pos c) ch color s ≡ record s { mem = draw_cell v r c ch color s.mem }
  unfolding draw_char
  draw r c ch color ri ci =
      let inside : (leb v.height r || leb v.width c) ≡ false = ground arith in rw inside refl

  -- A character that is drawn.
  print_at-At :
      (ch : ℕ)
      → (ch == 10) ≡ false
      → (ch == 13) ≡ false
      → (ch == 8) ≡ false
      → put_at v ch row col s
        ≡ placed (next v ch row col).0 (next v ch row col).1 (drawn v ch s.color row col s.mem)
  unfolding put_at scroll_console
  print_at-At ch nl cr bs =
      let m = draw_cell v row col ch s.color s.mem in
      let d = draw row col ch s.color at.row_in at.col_in in
      elim (Bool-cases (col == v.width - 1)) [
        | inl e ↦ elim (Bool-cases (row == v.height - 1)) [
          | inl e' ↦ rw (nl, cr, bs, e, e', d, move m row 0 at.row_in f.wide) refl
          | inr e' ↦
              rw (nl, cr, bs, e, e', d) (move m (row + 1) 0 (ground (arith, at.row_in)) f.wide)
        ]
        | inr e ↦ rw (nl, cr, bs, e, d) (move m row (col + 1) at.row_in (ground (arith, at.col_in)))
      ]

  -- A backspace.
  back_at-At :
      put_at v 8 row col s
      ≡ placed (next v 8 row col).0 (next v 8 row col).1 (drawn v 8 s.color row col s.mem)
  unfolding put_at
  back_at-At = elim (Bool-cases (col == 0)) [
    | inl e ↦ elim (Bool-cases (row == 0)) [
      | inl e' ↦ rw (e, e') (sym (At-placed v f hidden row col s at))
      | inr e' ↦
          let ri : row - 1 < v.height = ground (arith, at.row_in) in
          let ci : v.width - 1 < v.width = ground (arith, f.wide) in
          rw (e, e', draw (row - 1) (v.width - 1) char_space v.default_color ri ci)
            (move _ (row - 1) (v.width - 1) ri ci)
    ]
    | inr e ↦
        let ci : col - 1 < v.width = ground (arith, at.col_in) in
        rw (e, draw row (col - 1) char_space v.default_color at.row_in ci)
          (move _ row (col - 1) at.row_in ci)
  ]

  pub put_at-At :
      (ch : ℕ)
      → put_at v ch row col s
        ≡ placed (next v ch row col).0 (next v ch row col).1 (drawn v ch s.color row col s.mem)
  unfolding put_at scroll_console
  put_at-At ch = elim (Bool-cases (ch == 10)) [
    | inl nl ↦ elim (Bool-cases (row + 1 == v.height)) [
      | inl e ↦ rw (nl, e) (move (scroll_memory v s.mem) row 0 at.row_in f.wide)
      | inr e ↦ rw (nl, e) (move s.mem (row + 1) 0 (ground (arith, at.row_in)) f.wide)
    ]
    | inr nl ↦ elim (Bool-cases (ch == 13)) [
      | inl cr ↦ rw (nl, cr) (move s.mem row 0 at.row_in f.wide)
      | inr cr ↦ elim (Bool-cases (ch == 8)) [
        | inl bs ↦
            subst
              (λ c.
                put_at v c row col s
                ≡ placed (next v c row col).0 (next v c row col).1
                    (drawn v c s.color row col s.mem))
              {x = 8} {y = ch} (ground arith) back_at-At
        | inr bs ↦ print_at-At ch nl cr bs
      ]
    ]
  ]

  -- The cursor stays on the screen.
  pub next_in : (ch : ℕ) → ((next v ch row col).0 < v.height) × ((next v ch row col).1 < v.width)
  next_in ch = ground (arith, at.row_in, at.col_in, f.wide)

  pub putbyte-placed :
      (ch : ℕ)
      → putbyte v ch s
        ≡ some (
          ch % 256,
          placed (next v ch row col).0 (next v ch row col).1 (drawn v ch s.color row col s.mem),
        )
  unfolding putbyte
  putbyte-placed ch = rw (get_cursor-At v hidden row col s at, putbyte) (rw (put_at-At ch) refl)

  -- On a screen that fits, with the cursor at a cell, putting a byte returns the byte: the cursor, as
  -- hidden as before, and the memory are where the specification has them, and the colour stays.
  pub putbyte-At :
      (ch : ℕ)
      → (s' : Console) × (putbyte v ch s ≡ some (ch % 256, s'))
        × At v hidden (next v ch row col).0 (next v ch row col).1 s'
        × (s'.mem ≡ drawn v ch s.color row col s.mem)
        × (s'.color ≡ s.color)
  putbyte-At ch =
      let (ri, ci) = next_in ch in
      let (r, c) = next v ch row col in
      (
        placed r c (drawn v ch s.color row col s.mem),
        putbyte-placed ch,
        placed-At v f hidden r c (record s { mem = drawn v ch s.color row col s.mem }) ri ci,
        refl,
        refl,
      )
