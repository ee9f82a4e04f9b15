-- ===== src/FrameManager/Examples.antt =====
-- The loops of frame_manager.c with four bins.
use custom_os_kernel.Base.{◌+◌, ◌*◌, ◌≡◌, refl, some, List, [], ◌∷◌, arith}
use custom_os_kernel.Base.Int.{pos}
use custom_os_kernel.FrameManager.{
  Frame, frame_init, bin_loop, choose_bin, carve_bin, carve_bins, fm_init_user_space,
}
use custom_os_kernel.FrameManager.Carve.{Tiles, AllBelow, user_space-Tiles}

five_pages : choose_bin 4 5 ≡ (pos 0, some 3)
unfolding choose_bin bin_loop
five_pages = refl

user_space-Tiles_example :
    (frames : List Frame) × (fm_init_user_space 16777216 4 19 ≡ (pos 0, some frames))
    × Tiles 16777216 frames (16777216 + 4096 * 19)
    × AllBelow 4 frames
user_space-Tiles_example = user_space-Tiles 16777216 4 19 (omega arith) (omega arith) (omega arith)

nineteen_pages : fm_init_user_space 16777216 4 19 ≡ (
  pos 0,
  some (
      frame_init 16777216 8 1 3 0 0
      ∷ frame_init 16809984 8 1 3 0 0
      ∷ frame_init 16842752 2 1 1 0 0
      ∷ frame_init 16850944 1 1 0 0 0
      ∷ []),
)
unfolding fm_init_user_space carve_bins carve_bin
nineteen_pages = refl
