-- ===== src/CircBuf/Refine.antt =====
-- A valid circular buffer is a queue of at most `len - 1` words with undo of the last write.
use custom_os_kernel.Base.{
  ℕ, suc, ◌+◌, ◌-◌, ◌%◌, ◌^◌, ◌<◌, ◌≡◌, ◌≢◌, refl, ap, ap₂, Bool, Option, none, some, List, [], ◌∷◌,
  ◌++◌, arith, if◌then◌else◌, ◌==◌, ltb, length, get_or, set, get_or-set_self, get_or-set_ne,
  get_elem?-eq-get_or, upto, upto_ext, upto-suc, length-upto, ◌⊎◌, inl, inr, Bool-cases, true,
  false, get_elem?,
}
use custom_os_kernel.Base.Int.{pos}
use custom_os_kernel.CircBuf.Spec
use custom_os_kernel.CircBuf.Spec.{Op, put, get, undo, Reply, drop_last-append}
use custom_os_kernel.CircBuf.{CircBuf, stored, write, read, delete_front}
use custom_os_kernel.CircBuf.Inv.{
  IsValid, next_index, previous_index, last_index_only, write-IsValid, read-IsValid,
  delete_front-IsValid,
}

-- The slot of the k-th oldest word, and the word there.
abbrev pub slot : (len r k : ℕ) → ℕ
slot len r k = if ltb (r + k) len then r + k else r + k - len

abbrev pub word_at : List ℕ → (len r k : ℕ) → ℕ
word_at buf len r k = get_or buf (slot len r k) 0

abbrev pub contents : CircBuf → List ℕ
contents c = upto (word_at c.buf c.len c.i_r) c.n

module _ (c : CircBuf) (v : IsValid c) where
  slot-write : slot c.len c.i_r c.n ≡ c.i_w
  slot-write = ground arith

  slot-ne : (k : ℕ) → k < c.n → c.i_w ≢ slot c.len c.i_r k
  slot-ne k lt = ground arith

  -- Writing at `i_w` adds the word behind the others.
  upto-stored :
      (x : ℕ) → upto (word_at (set c.buf c.i_w x) c.len c.i_r) (suc c.n) ≡ contents c ++ (x ∷ [])
  upto-stored x =
      ap₂ (λ xs y. xs ++ (y ∷ []))
        (upto_ext _ _ c.n (λ k lt. get_or-set_ne c.buf x 0 (slot-ne k lt)))
        (rw slot-write (get_or-set_self c.buf c.i_w x 0 (omega arith)))

  -- Moving `i_r` one on drops the oldest word.
  upto-next :
      (m r' : ℕ)
      → c.n ≡ suc m
      → ((r' ≡ c.i_r + 1) × (c.i_r + 1 < c.len)) ⊎ ((r' ≡ 0) × (c.i_r + 1 ≡ c.len))
      → contents c ≡ get_or c.buf c.i_r 0 ∷ upto (word_at c.buf c.len r') m
  upto-next m r' e step =
      rw (e, upto-suc (word_at c.buf c.len c.i_r) m)
        (ap₂ ◌∷◌ (ap (λ k. get_or c.buf k 0) (ground arith))
          (upto_ext _ _ m (λ k lt. ap (λ i. get_or c.buf i 0) (ground arith))))

-- A non-empty buffer holds its oldest words and then the last one.
contents-back :
    (c : CircBuf) (m : ℕ)
    → c.n ≡ suc m
    → contents c ≡ upto (word_at c.buf c.len c.i_r) m ++ (word_at c.buf c.len c.i_r m ∷ [])
contents-back c m e = rw e

apply-undo :
    (len : ℕ) (xs : List ℕ) (x : ℕ) → Spec.apply len (xs ++ (x ∷ [])) undo ≡ ((pos 0, none), xs)
apply-undo len [] x = ap (λ l. ((pos 0, none), l)) (drop_last-append [] x)
apply-undo len (y ∷ xs) x = ap (λ l. ((pos 0, none), l)) (drop_last-append (y ∷ xs) x)

-- A client's call, with what it sees, and the buffer behind the pointer afterwards.
abbrev pub call : Option CircBuf → Op → Reply × Option CircBuf
call p (put x) = let (s, p') = write p x in ((s, none), p')
call p (get wanted) = let (s, out, p') = read p wanted in ((s, out), p')
call p undo = let (s, p') = delete_front p in ((s, none), p')

unfoldable pub run : Option CircBuf → List Op → List Reply
run p [] = []
run p (op ∷ ops) = let (r, p') = call p op in r ∷ run p' ops

-- The call replied as the queue does, and left a valid buffer of the same size with its words.
abbrev pub Refines : CircBuf → Op → Type 0
Refines c op =
    (c' : CircBuf) × (call (some c) op ≡ ((Spec.apply c.len (contents c) op).0, some c'))
    × IsValid c'
    × (contents c' ≡ (Spec.apply c.len (contents c) op).1)
    × (c'.len ≡ c.len)

write-room :
    (c : CircBuf) (x : ℕ)
    → ((c.n + 1) % 2 ^ 32 == c.len) ≡ false
    → write (some c) x ≡ (pos 0, some (stored c x))
unfolding write
write-room c x room = rw room

module _ (c : CircBuf) (v : IsValid c) where
  contents-empty : (c.n == 0) ≡ true → contents c ≡ []
  contents-empty none_left = let e : c.n ≡ 0 = ground arith in rw e

  pub write-Refines : (x : ℕ) → Refines c (put x)
  unfolding write
  write-Refines x =
      let size = length-upto (word_at c.buf c.len c.i_r) c.n in
      let plain : (c.n + 1) % 2 ^ 32 ≡ suc c.n = omega arith in
      elim (Bool-cases ((c.n + 1) % 2 ^ 32 == c.len)) [
        | inl full ↦ (c, ground (arith, size), v, ground (arith, size), refl)
        | inr room ↦
            let spec_room : (length (contents c) + 1 == c.len) ≡ false = ground (arith, size) in
            (
              stored c x,
              ground (arith, size),
              write-IsValid c x v (write-room c x room),
              rw (spec_room, plain) (upto-stored c v x),
              refl,
            )
      ]

  pub read-Refines : (wanted : Bool) → Refines c (get wanted)
  unfolding read
  read-Refines wanted = elim (Bool-cases (c.n == 0)) [
    | inl none_left ↦
        (c, rw (contents-empty none_left) (ground arith), v, rw (contents-empty none_left), refl)
    | inr some_left ↦
        let r' = (c.i_r + 1) % 2 ^ 32 % c.len in
        let front =
          upto-next c v (c.n - 1) r' (ground arith) (next_index c.i_r c.len v.read_in v.word) in
        let e : read (some c) wanted ≡ (
          pos 0,
          if wanted then get_elem? c.buf c.i_r else none,
          some (record c { i_r = r'; n = c.n - 1 }),
        ) =
          rw some_left in
        (
          record c { i_r = r'; n = c.n - 1 },
          rw (front, e, get_elem?-eq-get_or c.buf c.i_r 0 (omega arith)),
          read-IsValid c wanted v e,
          rw front refl,
          refl,
        )
  ]

  -- Where the write index is above 0, or the length divides 2^32, the last write is taken back.
  pub delete_front-Refines : (0 < c.i_w) ⊎ (2 ^ 32 % c.len ≡ 0) → Refines c undo
  unfolding delete_front
  delete_front-Refines ok = elim (Bool-cases (c.n == 0)) [
    | inl none_left ↦
        (c, rw (contents-empty none_left) (ground arith), v, rw (contents-empty none_left), refl)
    | inr some_left ↦
        let w' = (c.i_w + 2 ^ 32 - 1) % 2 ^ 32 % c.len in
        let c' = record c { i_w = w'; n = c.n - 1 } in
        let e : delete_front (some c) ≡ (pos 0, some c') = rw some_left in
        let back = contents-back c (c.n - 1) (ground arith) in
        (
          c',
          rw (back, some_left, apply-undo),
          delete_front-IsValid c v ok e,
          rw (back, apply-undo),
          refl,
        )
  ]

  -- On a valid buffer that is not empty, whose write index is 0 and whose length does not divide
  -- 2^32, deleting the last write returns 0 and leaves a buffer that is not valid.
  pub delete_front_breaks :
      0 < c.n
      → c.i_w ≡ 0
      → 2 ^ 32 % c.len ≢ 0
      → (c' : CircBuf) × (delete_front (some c) ≡ (pos 0, some c')) × (¬ IsValid c')
  unfolding delete_front
  delete_front_breaks some_left at_zero odd =
      let w' = (c.i_w + 2 ^ 32 - 1) % 2 ^ 32 % c.len in
      (
        record c { i_w = w'; n = c.n - 1 },
        ground arith,
        λ v'. odd (
            last_index_only c.len (omega arith)
              (omega (arith, v'.write_at, previous_index c.i_w c.len v.write_in v.word))),
      )

pub call-Refines : (c : CircBuf) → IsValid c → 2 ^ 32 % c.len ≡ 0 → (op : Op) → Refines c op
call-Refines c v pow (put x) = write-Refines c v x
call-Refines c v pow (get wanted) = read-Refines c v wanted
call-Refines c v pow undo = delete_front-Refines c v (inr pow)

-- On a valid buffer whose length divides 2^32, every sequence of writes, reads and deletions of the
-- last write returns the statuses and the words that the queue of the specification returns, from
-- the buffer's contents on.
pub run_refines :
    (ops : List Op) (c : CircBuf)
    → IsValid c
    → 2 ^ 32 % c.len ≡ 0
    → run (some c) ops ≡ Spec.run c.len (contents c) ops
unfolding run Spec.run
run_refines [] c v pow = refl
run_refines (op ∷ ops) c v pow =
    let (c', replied, v', words, size) = call-Refines c v pow op in
    let pow' : 2 ^ 32 % c'.len ≡ 0 = rw size pow in
    rw replied (ap₂ ◌∷◌ refl (rw (run_refines ops c' v' pow', words, size)))
