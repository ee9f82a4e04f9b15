-- ===== src/CircBuf/Inv.antt =====
-- The representation invariant of a circular buffer.
use custom_os_kernel.Base.{
  ℕ, ◌+◌, ◌-◌, ◌*◌, ◌%◌, ◌^◌, ◌≤◌, ◌<◌, ◌≡◌, refl, Option, some, List, arith, length, length-set,
  ◌⊎◌, Bool, Option-cases, inl, inr, zero, suc,
}
use native.Mathlib.Decide.{dec_lt}
use native.Mathlib.Nat.{mod-eq_of_lt, mod-eq-sub-mod}
use custom_os_kernel.Base.Int.{ℤ, pos}
use custom_os_kernel.CircBuf.{CircBuf, init, write, read, delete_front}

pub record IsValid (c : CircBuf) : Type 0 where
  pub storage : c.len ≤ length c.buf
  pub word : c.len < 2 ^ 32
  pub read_in : c.i_r < c.len
  pub write_in : c.i_w < c.len
  pub write_at : (c.i_w ≡ c.i_r + c.n) ⊎ (c.i_w + c.len ≡ c.i_r + c.n)
  pub fits : c.n < c.len

-- malloc hands over at least the bytes asked for, or NULL.
abbrev pub GivesRoom : (ℕ → Option (List ℕ)) → Type 0
GivesRoom malloc = (b : ℕ) (a : List ℕ) → malloc b ≡ some a → b ≤ 4 * length a

-- Where malloc gives at least the room asked for and the length is below 2^30, an initialisation
-- that returns 0 leaves a valid, empty buffer of that length.
pub init-IsValid :
    (malloc : ℕ → Option (List ℕ)) (c : CircBuf) (len : ℕ) {c' : CircBuf}
    → GivesRoom malloc
    → len < 2 ^ 30
    → init malloc (some c) len ≡ (pos 0, some c')
    → IsValid c' × (c'.len ≡ len) × (c'.n ≡ 0)
unfolding init
init-IsValid malloc c len {c'} room small e = elim (Option-cases (malloc (len * 4 % 2 ^ 32))) [
  | inl fail ↦ ground arith
  | inr (a, got) ↦ ground (arith, room (len * 4 % 2 ^ 32) a)
]

-- One step forward round the ring, in unsigned arithmetic.
pub next_index :
    (i len : ℕ)
    → i < len
    → len < 2 ^ 32
    → (((i + 1) % 2 ^ 32 % len ≡ i + 1) × (i + 1 < len))
      ⊎ (((i + 1) % 2 ^ 32 % len ≡ 0) × (i + 1 ≡ len))
next_index i len h w =
    let plain : (i + 1) % 2 ^ 32 ≡ i + 1 = omega arith in
    rw plain (elim (dec_lt (i + 1) len) [
      | yes p ↦ inl (mod-eq_of_lt p, p)
      | no p ↦
          let whole : i + 1 ≡ len = omega arith in
          inr (rw whole (omega (arith, mod-eq-sub-mod {n = len} {m = len} (omega arith))), whole)
    ])

-- One step back: from 0 the unsigned index lands on the last slot if the length divides 2^32.
pub previous_index :
    (i len : ℕ)
    → i < len
    → len < 2 ^ 32
    → (((0 < i) × ((i + 2 ^ 32 - 1) % 2 ^ 32 % len ≡ i - 1)))
      ⊎ ((i ≡ 0) × ((i + 2 ^ 32 - 1) % 2 ^ 32 % len ≡ (2 ^ 32 - 1) % len))
previous_index zero len h w = inr (refl, refl)
previous_index (suc i) len h w =
    let plain : (suc i + 2 ^ 32 - 1) % 2 ^ 32 ≡ i = omega arith in
    inl (omega arith, rw plain (omega (arith, mod-eq_of_lt {n = i} {m = len} (omega arith))))

pub last_index : (len : ℕ) → 0 < len → 2 ^ 32 % len ≡ 0 → (2 ^ 32 - 1) % len ≡ len - 1
last_index len h e = grind arith

pub last_index_only : (len : ℕ) → 0 < len → (2 ^ 32 - 1) % len ≡ len - 1 → 2 ^ 32 % len ≡ 0
last_index_only len h e = grind arith

pub write-IsValid :
    (c : CircBuf) (v : ℕ) {s : ℤ} {c' : CircBuf}
    → IsValid c
    → write (some c) v ≡ (s, some c')
    → IsValid c'
unfolding write
write-IsValid c v h e = ground (arith, length-set c.buf c.i_w v, next_index c.i_w c.len)

pub read-IsValid :
    (c : CircBuf) (wanted : Bool) {s : ℤ} {out : Option ℕ} {c' : CircBuf}
    → IsValid c
    → read (some c) wanted ≡ (s, out, some c')
    → IsValid c'
unfolding read
read-IsValid c wanted h e = ground (arith, next_index c.i_r c.len)

pub delete_front-IsValid :
    (c : CircBuf) {s : ℤ} {c' : CircBuf}
    → IsValid c
    → (0 < c.i_w) ⊎ (2 ^ 32 % c.len ≡ 0)
    → delete_front (some c) ≡ (s, some c')
    → IsValid c'
unfolding delete_front
delete_front-IsValid c h ok e = ground (arith, previous_index c.i_w c.len, last_index c.len)
