-- ===== src/Keyboard/Lines.antt =====
-- Keystrokes edit the words that wait in the buffer of kern/keyboard.c.
use custom_os_kernel.Base.{
  ℕ, ◌+◌, ◌%◌, ◌^◌, ◌<◌, ◌≤◌, ◌≡◌, refl, ap, subst, true, false, Option, none, some, List, [], ◌∷◌,
  ◌++◌, arith, if◌then◌else◌, ◌==◌, length, inl, inr, Bool-cases, length-upto, length-append,
}
use custom_os_kernel.Base.Int.{pos, is_neg}
use custom_os_kernel.CircBuf.{CircBuf, write, delete_front}
use custom_os_kernel.CircBuf.Inv.{IsValid}
use custom_os_kernel.CircBuf.Spec.{put, undo, drop_last, Reply}
use custom_os_kernel.CircBuf.Spec
use custom_os_kernel.CircBuf.Refine.{contents, word_at, call, call-Refines}
use custom_os_kernel.Keyboard.{word_of, write_to_buffer}

-- A backspace takes back the last character, if any; another character comes last.
unfoldable pub edit : List ℕ → (ch : ℕ) → List ℕ
edit line ch = if ch == 8 then drop_last line else line ++ (word_of ch ∷ [])

unfoldable pub edits : List ℕ → List ℕ → List ℕ
edits line [] = line
edits line (ch ∷ chs) = edits (edit line ch) chs

-- A burst of keystrokes; `none` is one that was refused.
unfoldable pub type_all : CircBuf → List ℕ → Option CircBuf
type_all c [] = some c
type_all c (ch ∷ chs) =
    let rest = type_all (write_to_buffer c ch).1 chs in
    if is_neg (write_to_buffer c ch).0 then none else rest

-- The buffer after a keystroke.
abbrev Edits : CircBuf → ℕ → Type 0
Edits c ch =
    (c' : CircBuf) × (write_to_buffer c ch ≡ (pos 0, c'))
    × IsValid c'
    × (contents c' ≡ edit (contents c) ch)
    × (c'.len ≡ c.len)

length-contents : (c : CircBuf) → length (contents c) ≡ c.n
length-contents c = length-upto (word_at c.buf c.len c.i_r) c.n

undo_lem :
    (len : ℕ) (xs : List ℕ)
    → (length xs == 0) ≡ false
    → Spec.apply len xs undo ≡ ((pos 0, none), drop_last xs)
undo_lem len [] ne = ground arith
undo_lem len (x ∷ xs) ne = refl

write-call :
    (c : CircBuf) (x : ℕ) {r : Reply} {p : Option CircBuf}
    → call (some c) (put x) ≡ (r, p)
    → write (some c) x ≡ (r.0, p)
write-call c x e = ap (λ y. (y.0.0, y.1)) e

delete_front-call :
    (c : CircBuf) {r : Reply} {p : Option CircBuf}
    → call (some c) undo ≡ (r, p)
    → delete_front (some c) ≡ (r.0, p)
delete_front-call c e = ap (λ y. (y.0.0, y.1)) e

module _ (c : CircBuf) (v : IsValid c) (pow : 2 ^ 32 % c.len ≡ 0) where
  backspace-Edits : (ch : ℕ) → (ch == 8) ≡ true → Edits c ch
  unfolding write_to_buffer edit drop_last
  backspace-Edits ch back = elim (Bool-cases (c.n == 0)) [
    | inl none_left ↦
        let e : c.n ≡ 0 = ground arith in (c, rw (back, none_left), v, rw (back, e), refl)
    | inr some_left ↦
        let (c', replied, v', words, size) = call-Refines c v pow undo in
        let spec = undo_lem c.len (contents c) (rw (length-contents c) some_left) in
        let done : delete_front (some c) ≡ (pos 0, some c') =
          rw (delete_front-call c replied, spec) in
        (c', rw (back, some_left, done), v', rw (back, words, spec), size)
  ]

  character-Edits : (ch : ℕ) → c.n + 1 < c.len → (ch == 8) ≡ false → Edits c ch
  unfolding write_to_buffer edit
  character-Edits ch room other =
      let (c', replied, v', words, size) = call-Refines c v pow (put (word_of ch)) in
      let spec : Spec.apply c.len (contents c) (put (word_of ch))
          ≡ ((pos 0, none), contents c ++ (word_of ch ∷ [])) =
        ground (arith, length-contents c) in
      let done : write (some c) (word_of ch) ≡ (pos 0, some c') =
        rw (write-call c (word_of ch) replied, spec) in
      (c', rw (other, done), v', rw (other, words, spec), size)

  pub keystroke-Edits : (ch : ℕ) → c.n + 1 < c.len → Edits c ch
  keystroke-Edits ch room = elim (Bool-cases (ch == 8)) [
    | inl back ↦ backspace-Edits ch back
    | inr other ↦ character-Edits ch room other
  ]

length-drop_last : (xs : List ℕ) → length (drop_last xs) ≤ length xs
unfolding drop_last
length-drop_last [] = omega arith
length-drop_last (x ∷ []) = omega arith
length-drop_last (x ∷ y ∷ xs) = omega (arith, length-drop_last (y ∷ xs))

length-edit : (line : List ℕ) (ch : ℕ) → length (edit line ch) ≤ length line + 1
unfolding edit
length-edit line ch = ground (arith, length-drop_last line, length-append line (word_of ch ∷ []))

-- On a valid buffer whose length divides 2^32, keystrokes that are fewer than the free slots are all
-- accepted and leave a valid buffer, whose words are those from before as the keystrokes edit them: a
-- backspace takes the last one back, if there is one, and any other character comes last.
pub type_all-Types :
    (chs : List ℕ) (c : CircBuf)
    → IsValid c
    → 2 ^ 32 % c.len ≡ 0
    → c.n + length chs < c.len
    → (c' : CircBuf) × (type_all c chs ≡ some c')
      × IsValid c'
      × (contents c' ≡ edits (contents c) chs)
unfolding type_all edits
type_all-Types [] c v pow room = (c, refl, v, refl)
type_all-Types (ch ∷ chs) c v pow room =
    let (c1, wrote, v1, words, size) = keystroke-Edits c v pow ch (omega arith) in
    let few : c1.n ≤ c.n + 1 = omega (
      arith,
      length-contents c1,
      ap length words,
      length-edit (contents c) ch,
      length-contents c,
    ) in
    let (c2, typed, v2, all) = type_all-Types chs c1 v1 (rw size pow) (omega (arith, few, size)) in
    (c2, rw (wrote, typed), v2, subst (λ l. contents c2 ≡ edits l chs) words all)
