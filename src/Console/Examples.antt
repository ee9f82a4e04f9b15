-- ===== src/Console/Examples.antt =====
-- The theorems of console.c on a screen of three rows of four cells.
use custom_os_kernel.Base.{◌%◌, ◌≡◌, refl, false, some, [], ◌∷◌, arith}
use custom_os_kernel.Console.{Video, Console, putbyte, putbytes}
use custom_os_kernel.Console.Inv.{Fits, At}
use custom_os_kernel.Console.Put.{next}
use custom_os_kernel.Console.Cells.{shown, putbyte-shown}
use custom_os_kernel.Console.Runs.{OnScreen, putbytes-OnScreen}

abbrev small : Video
small = record { width = 4; height = 3; default_color = 7 }

small-Fits : Fits small
small-Fits = record { wide = omega arith; high = omega arith; held = omega arith }

-- The cursor is in the last cell.
abbrev full : Console
full = record { mem = λ i. i; lsb = 11; msb = 0; color = 5 }

full-At : At small false 2 3 full
full-At = record {
  hpos = refl;
  lsb_byte = omega arith;
  msb_byte = omega arith;
  row_in = omega arith;
  col_in = omega arith;
}

full-OnScreen : OnScreen small false (λ i. i) full
full-OnScreen = (2, 3, full-At, λ i o. refl)

putbyte-shown_example :
    (s' : Console) × (putbyte small 65 full ≡ some (65 % 256, s'))
    × At small false (next small 65 2 3).0 (next small 65 2 3).1 s'
    × (s'.mem ≡ shown small 65 5 2 3 (λ i. i))
    × (s'.color ≡ 5)
putbyte-shown_example = putbyte-shown small false 2 3 full 65 small-Fits full-At

-- The first row shows the second, the last cell of the second row is the new one, and the last row is
-- blank.
scrolled_cells :
    (shown small 65 5 2 3 (λ i. i) 0 ≡ 8)
    × (shown small 65 5 2 3 (λ i. i) 14 ≡ 65)
    × (shown small 65 5 2 3 (λ i. i) 22 ≡ 32)
scrolled_cells = (refl, refl, refl)

scrolled_to : next small 65 2 3 ≡ (2, 0)
scrolled_to = refl

putbytes-OnScreen_example :
    (s' : Console) × (putbytes small (72 ∷ 10 ∷ 8 ∷ []) full ≡ some s')
    × OnScreen small false (λ i. i) s'
putbytes-OnScreen_example =
    putbytes-OnScreen small small-Fits false (72 ∷ 10 ∷ 8 ∷ []) (λ i. i) full full-OnScreen
