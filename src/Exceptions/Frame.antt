-- ===== src/Exceptions/Frame.antt =====
-- What stands in the block on the stack of a handler, and in the words that `iret` takes.
use custom_os_kernel.Base.{
  ℕ, ◌+◌, ◌-◌, ◌*◌, ◌/◌, ◌%◌, ◌^◌, ◌≤◌, ◌<◌, ◌≡◌, ◌≢◌, refl, ap, ◌∙◌, Bool, true, false, some,
  if◌then◌else◌, ◌==◌, ltb, leb, sub32, arith, inl, inr, ◌⊎◌,
}
use custom_os_kernel.Tcb.{Memory}
use custom_os_kernel.Exceptions.{
  Layout, Processor, copied, stored, write_words, handler_frame, iret_frame, ureg_from_stack,
}

-- The fields of a `ureg_t` as they are documented: the cause and the fault address in front of the saved
-- registers, the error code behind these, and behind it the five words that the processor pushes.
pub record Documented (o : Layout) : Type 0 where
  pub cause_first : o.cause < o.ds
  pub cr2_first : o.cr2 < o.ds
  pub apart : o.cause ≢ o.cr2
  pub code : o.error_code ≡ o.ds + 12
  pub pushed : o.eip ≡ o.error_code + 1
  pub ends : o.size ≡ o.eip + 5

-- Where the five words that the processor pushed start on the stack of the exception.
abbrev pub pushed_at : Bool → ℕ
pushed_at generates_error_code = if generates_error_code then 13 else 12

write-at :
    (p size w : ℕ) (words : ℕ → ℕ) (m : Memory)
    → w < size
    → write_words p size words m (p + 4 * w) ≡ words w
write-at p size w words m lt =
    let low : leb p (p + 4 * w) ≡ true = ground arith in
    let high : ltb (p + 4 * w) (p + 4 * size) ≡ true = ground arith in
    let word : (((p + 4 * w) - p) % 4 == 0) ≡ true = ground arith in
    let index : ((p + 4 * w) - p) / 4 ≡ w = omega arith in rw (low, high, word, index) refl

write-outside :
    (p size a : ℕ) (words : ℕ → ℕ) (m : Memory)
    → (a < p) ⊎ (p + 4 * size ≤ a)
    → write_words p size words m a ≡ m a
write-outside p size a words m (inl lt) = ground (arith, lt)
write-outside p size a words m (inr le) = ground (arith, le)

copied-at :
    (dest src n i : ℕ) (to from : ℕ → ℕ)
    → i < n
    → copied dest src n to from (dest + i) ≡ from (src + i)
copied-at dest src n i to from lt =
    let low : leb dest (dest + i) ≡ true = ground arith in
    let high : ltb (dest + i) (dest + n) ≡ true = ground arith in
    let index : src + ((dest + i) - dest) ≡ src + i = omega arith in rw (low, high, index) refl

copied-below : (dest src n w : ℕ) (to from : ℕ → ℕ) → w < dest → copied dest src n to from w ≡ to w
copied-below dest src n w to from lt = ground (arith, lt)

stored-at : (k v w : ℕ) (f : ℕ → ℕ) → w ≡ k → stored k v f w ≡ v
stored-at k v w f is = ground (arith, is)

stored-other : (k v w : ℕ) (f : ℕ → ℕ) → w ≢ k → stored k v f w ≡ f w
stored-other k v w f ne = ground (arith, ne)

module _ (cpu : Processor) (d : Documented cpu.layout) (ureg : ℕ → ℕ) (cause : ℕ)
    (stack : ℕ → ℕ) where
  abbrev o : Layout
  o = cpu.layout

  -- The registers as they are copied, whether or not there is an error code.
  abbrev regs : ℕ → ℕ
  regs = copied o.ds 0 18 (stored o.cr2 cpu.cr2 (stored o.cause cause ureg)) stack

  abbrev pub words : Bool → ℕ → ℕ
  words e = (ureg_from_stack cpu ureg cause (some stack) e).1

  -- In front of the words that the processor pushed, the two cases agree.
  words-low : (e : Bool) (w : ℕ) → w < o.eip → words e w ≡ regs w
  unfolding ureg_from_stack
  words-low true w lt = refl
  words-low false w lt = copied-below o.eip o.error_code 5 w regs regs lt

  pub cause-word : (e : Bool) → words e o.cause ≡ cause
  cause-word e =
      words-low e o.cause (omega (arith, d.cause_first, d.code, d.pushed))
      ∙ copied-below o.ds 0 18 o.cause (stored o.cr2 cpu.cr2 (stored o.cause cause ureg)) stack
          d.cause_first
      ∙ stored-other o.cr2 cpu.cr2 o.cause (stored o.cause cause ureg) d.apart
      ∙ stored-at o.cause cause o.cause ureg refl

  pub cr2-word : (e : Bool) → words e o.cr2 ≡ cpu.cr2
  cr2-word e =
      words-low e o.cr2 (omega (arith, d.cr2_first, d.code, d.pushed))
      ∙ copied-below o.ds 0 18 o.cr2 (stored o.cr2 cpu.cr2 (stored o.cause cause ureg)) stack
          d.cr2_first
      ∙ stored-at o.cr2 cpu.cr2 o.cr2 (stored o.cause cause ureg) refl

  regs-at : (i : ℕ) → i < 18 → regs (o.ds + i) ≡ stack i
  regs-at i lt =
      copied-at o.ds 0 18 i (stored o.cr2 cpu.cr2 (stored o.cause cause ureg)) stack lt
      ∙ (let index : 0 + i ≡ i = omega arith in ap stack index)

  pub saved-word : (e : Bool) (i : ℕ) → i < 12 → words e (o.ds + i) ≡ stack i
  saved-word e i lt =
      words-low e (o.ds + i) (omega (arith, lt, d.code, d.pushed)) ∙ regs-at i (omega (arith, lt))

  pub pushed-word : (e : Bool) (i : ℕ) → i < 5 → words e (o.eip + i) ≡ stack (pushed_at e + i)
  unfolding ureg_from_stack
  pushed-word true i lt =
      let index : o.eip + i ≡ o.ds + (13 + i) = omega (arith, d.code, d.pushed) in
      ap regs index ∙ regs-at (13 + i) (omega (arith, lt))
  pushed-word false i lt =
      let index : o.error_code + i ≡ o.ds + (12 + i) = omega (arith, d.code) in
      copied-at o.eip o.error_code 5 i regs regs lt
      ∙ ap regs index
      ∙ regs-at (12 + i) (omega (arith, lt))

-- The block without the wrap-around of its addresses.
abbrev pub frame_at : (u size arg : ℕ) → (ℕ → ℕ) → Memory → Memory
frame_at u size arg words m =
    stored (u - 12) 0 (stored (u - 8) arg (stored (u - 4) u (write_words u size words m)))

pub handler_frame-at :
    (size esp3 arg : ℕ) (words : ℕ → ℕ) (m : Memory)
    → 4 * size + 12 ≤ esp3
    → esp3 < 2 ^ 32
    → handler_frame size esp3 arg words m ≡ frame_at (esp3 - 4 * size) size arg words m
handler_frame-at size esp3 arg words m room word =
    let u : sub32 esp3 (4 * size) ≡ esp3 - 4 * size = omega (arith, room, word) in
    let a : sub32 (esp3 - 4 * size) 12 ≡ esp3 - 4 * size - 12 = omega (arith, room, word) in
    let b : sub32 (esp3 - 4 * size) 8 ≡ esp3 - 4 * size - 8 = omega (arith, room, word) in
    let c : sub32 (esp3 - 4 * size) 4 ≡ esp3 - 4 * size - 4 = omega (arith, room, word) in
    rw u (rw (a, b, c) refl)

module _ (u size arg : ℕ) (words : ℕ → ℕ) (m : Memory) (room : 12 ≤ u) where
  pub frame_word : (w : ℕ) → w < size → frame_at u size arg words m (u + 4 * w) ≡ words w
  frame_word w lt =
      stored-other (u - 12) 0 (u + 4 * w)
        (stored (u - 8) arg (stored (u - 4) u (write_words u size words m))) (omega arith)
      ∙ stored-other (u - 8) arg (u + 4 * w) (stored (u - 4) u (write_words u size words m))
          (omega arith)
      ∙ stored-other (u - 4) u (u + 4 * w) (write_words u size words m) (omega arith)
      ∙ write-at u size w words m lt

  pub frame_other :
      (a : ℕ) → (a < u - 12) ⊎ (u + 4 * size ≤ a) → frame_at u size arg words m a ≡ m a
  frame_other a out =
      let off : (a < u - 12) ⊎ (u ≤ a) = elim out [
        | inl lt ↦ inl lt
        | inr le ↦ inr (omega (arith, le))
      ] in
      stored-other (u - 12) 0 a (stored (u - 8) arg (stored (u - 4) u (write_words u size words m)))
        (λ e. ground (arith, e, off))
      ∙ stored-other (u - 8) arg a (stored (u - 4) u (write_words u size words m))
          (λ e. ground (arith, e, off))
      ∙ stored-other (u - 4) u a (write_words u size words m) (λ e. ground (arith, e, off))
      ∙ write-outside u size a words m
          (elim out [ inl lt ↦ inl (omega (arith, lt)) | inr le ↦ inr le ])

  pub frame_arguments :
      (frame_at u size arg words m (u - 12) ≡ 0)
      × (frame_at u size arg words m (u - 8) ≡ arg)
      × (frame_at u size arg words m (u - 4) ≡ u)
  frame_arguments = (
    stored-at (u - 12) 0 (u - 12)
        (stored (u - 8) arg (stored (u - 4) u (write_words u size words m))) refl,
    stored-other (u - 12) 0 (u - 8)
          (stored (u - 8) arg (stored (u - 4) u (write_words u size words m)))
          (λ e. omega (arith, e, room))
        ∙ stored-at (u - 8) arg (u - 8) (stored (u - 4) u (write_words u size words m)) refl,
    stored-other (u - 12) 0 (u - 4)
          (stored (u - 8) arg (stored (u - 4) u (write_words u size words m)))
          (λ e. omega (arith, e, room))
        ∙ stored-other (u - 8) arg (u - 4) (stored (u - 4) u (write_words u size words m))
            (λ e. omega (arith, e, room))
        ∙ stored-at (u - 4) u (u - 4) (write_words u size words m) refl,
  )

-- The words that `iret` takes, and the others.
pub iret_frame-words :
    (cpu : Processor) (esp eip : ℕ) (e : Bool) (stack : ℕ → ℕ)
    → (iret_frame cpu esp eip e stack (pushed_at e) ≡ eip)
      × (iret_frame cpu esp eip e stack (pushed_at e + 1) ≡ cpu.segsel_user_cs)
      × (iret_frame cpu esp eip e stack (pushed_at e + 2) ≡ cpu.user_eflags)
      × (iret_frame cpu esp eip e stack (pushed_at e + 3) ≡ esp)
      × (iret_frame cpu esp eip e stack (pushed_at e + 4) ≡ cpu.segsel_user_ds)
iret_frame-words cpu esp eip true stack = (refl, refl, refl, refl, refl)
iret_frame-words cpu esp eip false stack = (refl, refl, refl, refl, refl)

pub iret_frame-other :
    (cpu : Processor) (esp eip : ℕ) (e : Bool) (stack : ℕ → ℕ) (j : ℕ)
    → (j < pushed_at e) ⊎ (pushed_at e + 5 ≤ j)
    → iret_frame cpu esp eip e stack j ≡ stack j
iret_frame-other cpu esp eip true stack j out = ground (arith, out)
iret_frame-other cpu esp eip false stack j out = ground (arith, out)
