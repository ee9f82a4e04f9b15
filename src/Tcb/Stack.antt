-- ===== src/Tcb/Stack.antt =====
-- What the kernel stack of a thread holds after kern/scheduler/tcb.c has loaded it.
use custom_os_kernel.Base.{
  ℕ, ◌+◌, ◌*◌, ◌^◌, ◌≤◌, ◌<◌, ◌≡◌, ◌≢◌, refl, some, List, [], ◌∷◌, ◌∙◌, ap, false, ◌-◌, arith,
  if◌then◌else◌, ◌==◌, sub32,
}
use custom_os_kernel.Tcb.{
  Tcb, Processor, Program, Memory, load_kstack, store_all, kstack_slots, push_at,
}

-- The registers that are restored from the stack, in the order of the saved context.
abbrev pub saved : (ℕ → ℕ) → (index : ℕ) → ℕ
saved regs index =
    if index == 0
    then regs 3
    else if index == 1
    then regs 2
    else if index == 2
    then regs 1
    else if index == 3
    then regs 0
    else if index == 7
    then 0
    else if index == 11
    then 0
    else if index == 12
    then 0
    else regs index

-- The last value that is stored at this distance from the top.
abbrev last_at : (j : ℕ) → List (ℕ × ℕ) → ℕ → ℕ
last_at j [] d = d
last_at j ((k, v) ∷ slots) d = last_at j slots (if j == k then v else d)

abbrev AllNear : List (ℕ × ℕ) → Type 0
AllNear [] = Unit
AllNear ((k, v) ∷ slots) = (0 < k) × (k ≤ 18) × AllNear slots

module _ (top : ℕ) (low : 72 ≤ top) (high : top < 2 ^ 32) where
  push_at-near :
      (j k v : ℕ) (m : Memory)
      → 0 < j
      → j ≤ 18
      → 0 < k
      → k ≤ 18
      → push_at top k v m (sub32 top (4 * j)) ≡ (if j == k then v else m (sub32 top (4 * j)))
  push_at-near j k v m a b c d = ground arith

  store_all-near :
      (slots : List (ℕ × ℕ)) (j : ℕ) (m : Memory)
      → AllNear slots
      → 0 < j
      → j ≤ 18
      → store_all top slots m (sub32 top (4 * j)) ≡ last_at j slots (m (sub32 top (4 * j)))
  unfolding store_all
  store_all-near [] j m n a b = refl
  store_all-near ((k, v) ∷ slots) j m n a b =
      store_all-near slots j (push_at top k v m) n.2 a b
      ∙ ap (last_at j slots) (push_at-near j k v m a b n.0 n.1)

  store_all-away :
      (slots : List (ℕ × ℕ)) (m : Memory) (a : ℕ)
      → AllNear slots
      → ((j : ℕ) → 0 < j → j ≤ 18 → a ≢ sub32 top (4 * j))
      → store_all top slots m a ≡ m a
  unfolding store_all
  store_all-away [] m a n out = refl
  store_all-away ((k, v) ∷ slots) m a n out =
      let other : (a == sub32 top (4 * k)) ≡ false = ground (arith, out k n.0 n.1) in
      store_all-away slots (push_at top k v m) a n.2 out ∙ rw other refl

saved_slots :
    (cpu : Processor) (pcb : Program) (regs : ℕ → ℕ) (index d : ℕ)
    → index < 18
    → last_at (18 - index) (kstack_slots cpu pcb (some regs)) d ≡ saved regs index
unfolding kstack_slots
saved_slots cpu pcb regs index d lt = ground arith

-- A stack that is loaded with preset registers holds, from its saved pointer on, each register in its
-- place, less the four data segment registers, which come in the opposite order, and the places of
-- the stack pointer, of the result and of the error code, which hold 0; nothing else is written.
pub load_kstack-saved :
    (cpu : Processor) (t : Tcb) (pcb : Program) (top : ℕ) (regs : ℕ → ℕ) (m : Memory)
    → 72 ≤ top
    → top < 2 ^ 32
    → ((index : ℕ)
        → index < 18
        → (load_kstack cpu t pcb top (some regs) m).1
            ((load_kstack cpu t pcb top (some regs) m).0.tmp_k_stack + 4 * index)
          ≡ saved regs index)
      × ((a : ℕ)
          → ((index : ℕ)
              → index < 18
              → a ≢ (load_kstack cpu t pcb top (some regs) m).0.tmp_k_stack + 4 * index)
          → (load_kstack cpu t pcb top (some regs) m).1 a ≡ m a)
unfolding load_kstack store_all kstack_slots
load_kstack-saved cpu t pcb top regs m low high = (
  λ index lt.
      let place : sub32 top 72 + 4 * index ≡ sub32 top (4 * (18 - index)) = omega arith in
      rw place (
        store_all-near top low high (kstack_slots cpu pcb (some regs)) (18 - index) m (omega arith)
          (omega arith) (omega arith)
        ∙ saved_slots cpu pcb regs index (m (sub32 top (4 * (18 - index)))) lt),
  λ a out.
      store_all-away top low high (kstack_slots cpu pcb (some regs)) m a (omega arith)
        λ j some_j few e. out (18 - j) (omega arith) (omega (arith, e)),
)
