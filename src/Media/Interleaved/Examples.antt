-- ===== src/Media/Interleaved/Examples.antt =====
-- src/rtsp/interleaved.rs: runs of its own tests.
use buddy3d_proxy.Prelude.{◌≡◌, refl, [], ◌∷◌, some}
use buddy3d_proxy.Media.Interleaved.{encode_frame}

minimal_frame : encode_frame [] 0 (1 ∷ 2 ∷ 3 ∷ []) ≡ some (0x24 ∷ 0 ∷ 0 ∷ 3 ∷ 1 ∷ 2 ∷ 3 ∷ [])
unfolding encode_frame
minimal_frame = refl
