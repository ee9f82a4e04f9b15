-- ===== src/CircBuf.antt =====
-- kern/data_structures/circ_buffer.c: a ring of pointers. A buffer pointer is an `Option`, whose
-- `none` is NULL; the new pointee comes back beside the status.
pub mod Inv
pub mod Refine
pub mod Spec
mod Examples
use custom_os_kernel.Base.{
  ℕ, ◌+◌, ◌-◌, ◌*◌, ◌%◌, ◌^◌, Bool, Option, none, some, List, [], if◌then◌else◌, ◌==◌, set,
  get_elem?,
}
use custom_os_kernel.Base.Int.{ℤ, pos, neg}

pub record CircBuf : Type 0 where
  pub i_r : ℕ
  pub i_w : ℕ
  pub buf : List ℕ
  pub len : ℕ
  pub n : ℕ

-- `malloc` takes a number of bytes, and hands over an array of words. A NULL array is the empty one.
unfoldable pub init : (malloc : ℕ → Option (List ℕ)) → Option CircBuf → ℕ → ℤ × Option CircBuf
init malloc none len = (neg 1, none)
init malloc (some c) len = if len == 0 then (neg 1, some c) else elim (malloc (len * 4 % 2 ^ 32)) [
  | none ↦ (neg 2, some (record c { i_r = 0; i_w = 0; buf = []; n = 0 }))
  | some a ↦ (pos 0, some (record { i_r = 0; i_w = 0; buf = a; len = len; n = 0 }))
]

-- What is written when there is room.
abbrev pub stored : CircBuf → ℕ → CircBuf
stored c v = record c {
  buf = set c.buf c.i_w v;
  i_w = (c.i_w + 1) % 2 ^ 32 % c.len;
  n = (c.n + 1) % 2 ^ 32;
}

unfoldable pub write : Option CircBuf → ℕ → ℤ × Option CircBuf
write none v = (neg 1, none)
write (some c) v =
    if (c.n + 1) % 2 ^ 32 == c.len then (neg 1, some c) else (pos 0, some (stored c v))

-- `wanted` says that `v` is not NULL; the value stored through it is the second result.
unfoldable pub read : Option CircBuf → (wanted : Bool) → ℤ × Option ℕ × Option CircBuf
read none wanted = (neg 1, none, none)
read (some c) wanted = if c.n == 0 then (neg 2, none, some c) else (
  pos 0,
  if wanted then get_elem? c.buf c.i_r else none,
  some (record c { i_r = (c.i_r + 1) % 2 ^ 32 % c.len; n = c.n - 1 }),
)

-- The index is unsigned: `i_w - 1` wraps to 2^32 - 1 at 0, before the remainder is taken.
unfoldable pub delete_front : Option CircBuf → ℤ × Option CircBuf
delete_front none = (neg 1, none)
delete_front (some c) =
    if c.n == 0
    then (neg 2, some c)
    else (pos 0, some (record c { i_w = (c.i_w + 2 ^ 32 - 1) % 2 ^ 32 % c.len; n = c.n - 1 }))

unfoldable pub count : Option CircBuf → ℤ × Option ℕ
count none = (neg 1, none)
count (some c) = (pos 0, some c.n)

unfoldable pub size : Option CircBuf → (wanted : Bool) → ℤ × Option ℕ
size none wanted = (neg 1, none)
size (some c) wanted = if wanted then (pos 0, some c.len) else (neg 1, none)

-- The array that is freed, if any.
unfoldable pub destroy : Option CircBuf → Option (List ℕ)
destroy none = none
destroy (some c) = some c.buf
