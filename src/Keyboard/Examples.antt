-- ===== src/Keyboard/Examples.antt =====
-- The theorem of kern/keyboard.c at a buffer of eight slots, and runs of its functions.
use custom_os_kernel.Base.{◌≡◌, refl, some, none, [], ◌∷◌, arith}
use custom_os_kernel.Base.Int.{pos, neg}
use custom_os_kernel.CircBuf.{CircBuf, read, delete_front}
use custom_os_kernel.CircBuf.Inv.{IsValid}
use custom_os_kernel.CircBuf.Refine.{contents}
use custom_os_kernel.Semaphore.{sem_get_value}
use custom_os_kernel.Keyboard.{Keyboard, keyboard_read, keyboard_write, read_loop, write_to_buffer}
use custom_os_kernel.Keyboard.Lines.{type_all, edits, type_all-Types}

abbrev blank : CircBuf
blank = record { i_r = 0; i_w = 0; buf = 0 ∷ 0 ∷ 0 ∷ 0 ∷ 0 ∷ 0 ∷ 0 ∷ 0 ∷ []; len = 8; n = 0 }

blank-IsValid : IsValid blank
blank-IsValid = omega arith

-- `h`, backspace, `h`, `i` and a new line.
type_all-Types_example :
    (c : CircBuf) × (type_all blank (104 ∷ 8 ∷ 104 ∷ 105 ∷ 10 ∷ []) ≡ some c)
    × IsValid c
    × (contents c ≡ edits [] (104 ∷ 8 ∷ 104 ∷ 105 ∷ 10 ∷ []))
type_all-Types_example =
    type_all-Types (104 ∷ 8 ∷ 104 ∷ 105 ∷ 10 ∷ []) blank blank-IsValid refl (omega arith)

abbrev idle : Keyboard
idle = record { buf = blank; sem = record { count = pos 0; q = [] } }

-- `h` and a new line are read back as `h`.
abbrev one_line : Keyboard
one_line = record {
  buf = record { i_r = 0; i_w = 2; buf = 104 ∷ 10 ∷ 0 ∷ 0 ∷ 0 ∷ 0 ∷ 0 ∷ 0 ∷ []; len = 8; n = 2 };
  sem = record { count = pos 0; q = [] };
}

line_read : (keyboard_read 80 one_line).0 ≡ (pos 1, 104 ∷ [])
unfolding keyboard_read read_loop read
line_read = refl

-- The new line counts as a line, and a backspace then takes it out of the buffer.
abbrev counted_line : Keyboard
counted_line = record {
  buf = record { i_r = 0; i_w = 2; buf = 104 ∷ 10 ∷ 0 ∷ 0 ∷ 0 ∷ 0 ∷ 0 ∷ 0 ∷ []; len = 8; n = 2 };
  sem = record { count = pos 1; q = [] };
}

abbrev taken_back : Keyboard
taken_back = record {
  buf = record { i_r = 0; i_w = 1; buf = 104 ∷ 10 ∷ 0 ∷ 0 ∷ 0 ∷ 0 ∷ 0 ∷ 0 ∷ []; len = 8; n = 1 };
  sem = record { count = pos 1; q = [] };
}

newline_taken_back : keyboard_write (some counted_line) 8 ≡ ((pos 0, none, none), some taken_back)
unfolding keyboard_write sem_get_value write_to_buffer delete_front
newline_taken_back = refl

-- The read that the count lets through fails.
read_of_nothing : (keyboard_read 80 taken_back).0 ≡ (neg 2, [])
unfolding keyboard_read read_loop read
read_of_nothing = refl
