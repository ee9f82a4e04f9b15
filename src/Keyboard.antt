-- ===== src/Keyboard.antt =====
-- kern/keyboard.c: the lines of keystrokes, over a circular buffer and a semaphore that counts lines.
-- A call runs under the mutex of the keyboard. The buffer of a keyboard is the one that its
-- initialisation made, so it is not NULL.
pub mod Lines
mod Examples
use custom_os_kernel.Base.{
  ℕ, zero, suc, ◌+◌, ◌-◌, ◌%◌, ◌^◌, Bool, true, false, Option, none, some, List, [], ◌∷◌, ◌++◌,
  if◌then◌else◌, ◌==◌, ltb, length,
}
use custom_os_kernel.Base.Int.{ℤ, pos, neg, is_neg, is_nonpos}
use custom_os_kernel.CircBuf.{CircBuf, init, write, read, delete_front, size}
use custom_os_kernel.Semaphore.{
  Semaphore, sem_init, sem_wait, sem_signal, sem_get_value, sem_destroy,
}

-- `keyboard_t`, less its mutex.
pub record Keyboard : Type 0 where
  pub buf : CircBuf
  pub sem : Semaphore

-- `(void *)(unsigned int)c`: a character is signed, so it is extended with its sign.
abbrev pub word_of : (ch : ℕ) → ℕ
word_of ch = if ltb ch 128 then ch else ch + 2 ^ 32 - 256

-- What is behind a pointer after a call that took it.
abbrev pub behind {ℓ} : {A : Type ℓ} → A → Option A → A
behind d none = d
behind d (some c) = c

-- The byte for `putbyte`, if any.
unfoldable pub print_to_console : Option Keyboard → (ch : ℕ) → Option ℕ
print_to_console none ch = none
print_to_console (some k) ch = if ch == 8 then if k.buf.n == 0 then none else some ch else some ch

abbrev pub checked : (failure : ℤ) → CircBuf → ℤ × Option CircBuf → ℤ × CircBuf
checked failure c (status, p) = (if is_neg status then failure else pos 0, behind c p)

unfoldable pub write_to_buffer : CircBuf → (ch : ℕ) → ℤ × CircBuf
write_to_buffer c ch =
    if ch == 8
    then if c.n == 0 then (pos 0, c) else checked (neg 2) c (delete_front (some c))
    else checked (neg 3) c (write (some c) (word_of ch))

-- `cbuf` is what `malloc` hands over for the buffer's struct, and `ready` says that the queue and the
-- mutex of the semaphore are made.
unfoldable pub keyboard_init :
    (malloc : ℕ → Option (List ℕ)) (ready : Bool) (cbuf : Option CircBuf)
    → Option Keyboard
    → (len : ℕ) → ℤ × Option Keyboard
keyboard_init malloc ready cbuf none len = (neg 1, none)
keyboard_init malloc ready cbuf (some k) len =
    if len == 0
    then (neg 1, some k)
    else let (made, c) = init malloc cbuf len in
      if is_neg made
      then (neg 2, some k)
      else let (counted, s) = sem_init ready (some k.sem) (pos 0) in
        if is_neg counted
        then (neg 3, some (record k { sem = behind k.sem s }))
        else (pos 0, some (record { buf = behind k.buf c; sem = behind k.sem s }))

-- The status, the byte for `putbyte`, and the thread that a new line wakes.
unfoldable pub keyboard_write :
    Option Keyboard → (val : ℕ) → (ℤ × Option ℕ × Option ℕ) × Option Keyboard
keyboard_write none val = ((neg 1, none, none), none)
keyboard_write (some k) val =
    let ch = val % 256 in
    let (asked, resources) = sem_get_value (some k.sem) true in
    if is_neg asked
    then ((neg 3, none, none), some k)
    else let echo =
        if is_neg (behind (pos 0) resources) then print_to_console (some k) ch else none in
      let (written, c) = write_to_buffer k.buf ch in
      if is_neg written
      then ((neg 4, echo, none), some (record k { buf = c }))
      else if ch == 10
      then (let (s, woken) = sem_signal k.sem in
          ((pos 0, echo, woken), some (record { buf = c; sem = s })))
      else ((pos 0, echo, none), some (record k { buf = c }))

-- `keyboard_read` up to the wait: the status of a call that is refused, or whether the thread sleeps.
-- `node` says whether malloc gives the queue of the semaphore a node.
unfoldable pub keyboard_wait :
    (node : Bool)
    → (tid : ℕ) → Option Keyboard
    → (len : ℤ) → (wanted : Bool) → (ℤ × Bool) × Option Keyboard
keyboard_wait node tid none len wanted = ((neg 1, false), none)
keyboard_wait node tid (some k) len wanted =
    if is_nonpos len
    then ((neg 1, false), some k)
    else if wanted
    then (let (s, sleeps) = sem_wait node tid k.sem in
        ((pos 0, sleeps), some (record k { sem = s })))
    else ((neg 1, false), some k)

-- A new line ends the line, and is itself the line where nothing came before it.
abbrev pub ended : List ℕ → List ℕ
ended [] = 10 ∷ []
ended (x ∷ line) = x ∷ line

-- The loop of `keyboard_read`, for the rounds that are left; `none` is a read that failed.
unfoldable pub read_loop : (rounds : ℕ) → (line : List ℕ) → CircBuf → Option (List ℕ) × CircBuf
read_loop zero line c = (some line, c)
read_loop (suc rounds) line c =
    let (status, val, p) = read (some c) true in
    let ch = behind 0 val % 256 in
    let rest = read_loop rounds (line ++ (ch ∷ [])) (behind c p) in
    if is_neg status
    then (none, behind c p)
    else if ch == 10
    then (some (ended line), behind c p)
    else rest

-- `keyboard_read` after the wait: the status and what is copied to the caller.
unfoldable pub keyboard_read : (len : ℕ) → Keyboard → (ℤ × List ℕ) × Keyboard
keyboard_read len k =
    let (line, c) = read_loop len [] k.buf in
    elim line [
      | none ↦ ((neg 2, []), record k { buf = c })
      | some chs ↦ ((pos (length chs), chs), record k { buf = c })
    ]

unfoldable pub keyboard_buffer_size : Option Keyboard → (wanted : Bool) → ℤ × Option ℕ
keyboard_buffer_size none wanted = (neg 1, none)
keyboard_buffer_size (some k) wanted = if wanted then size (some k.buf) true else (neg 1, none)

unfoldable pub keyboard_destroy : Keyboard → Keyboard
keyboard_destroy k = record k { sem = sem_destroy k.sem }

-- The handler in kern/handlers/peripheral_handlers.c. What the scancode stands for is decoded by a
-- header: the character of a key that is pressed, if any. A failed write is only logged.
unfoldable pub c_keyboard_handler :
    (decoded : Option ℕ) → Keyboard → (ℤ × Option ℕ × Option ℕ) × Option Keyboard
c_keyboard_handler none k = ((pos 0, none, none), some k)
c_keyboard_handler (some val) k = keyboard_write (some k) val
