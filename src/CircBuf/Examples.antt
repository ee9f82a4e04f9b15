-- ===== src/CircBuf/Examples.antt =====
-- The theorems of circ_buffer.c at concrete buffers.
use custom_os_kernel.Base.{
  ℕ, ◌≡◌, refl, true, Option, none, some, List, [], ◌∷◌, arith, replicate, length-replicate, some,
}
use custom_os_kernel.Base.Int.{pos, neg}
use custom_os_kernel.CircBuf.{CircBuf}
use custom_os_kernel.CircBuf.Spec
use custom_os_kernel.CircBuf.Spec.{Op, put, get, undo}
use custom_os_kernel.CircBuf.Inv.{IsValid, GivesRoom}
use custom_os_kernel.CircBuf.Refine.{run, run_refines}

-- Four slots, two words, round the end.
abbrev wrapped : CircBuf
wrapped = record { i_r = 3; i_w = 1; buf = 6 ∷ 0 ∷ 0 ∷ 5 ∷ []; len = 4; n = 2 }

wrapped-IsValid : IsValid wrapped
wrapped-IsValid = omega arith

abbrev calls : List Op
calls = put 7 ∷ put 8 ∷ undo ∷ get true ∷ get true ∷ get true ∷ []

run_refines_example : run (some wrapped) calls ≡ Spec.run 4 (5 ∷ 6 ∷ []) calls
run_refines_example = run_refines calls wrapped wrapped-IsValid refl

replies :
    Spec.run 4 (5 ∷ 6 ∷ []) calls
    ≡ (pos 0, none)
      ∷ (neg 1, none)
      ∷ (pos 0, none)
      ∷ (pos 0, some 5)
      ∷ (pos 0, some 6)
      ∷ (neg 2, none)
      ∷ []
unfolding Spec.run Spec.drop_last
replies = refl

-- Three slots, one word in the last one: the write index is back at 0.
abbrev odd : CircBuf
odd = record { i_r = 2; i_w = 0; buf = 0 ∷ 0 ∷ 9 ∷ []; len = 3; n = 1 }

odd-IsValid : IsValid odd
odd-IsValid = omega arith

abbrev enough : ℕ → Option (List ℕ)
enough b = some (replicate b 0)

enough-GivesRoom : GivesRoom enough
enough-GivesRoom b a got = ground (arith, length-replicate {A = ℕ} b 0)

abbrev fresh : CircBuf
fresh = record { i_r = 0; i_w = 0; buf = replicate 12 0; len = 3; n = 0 }
