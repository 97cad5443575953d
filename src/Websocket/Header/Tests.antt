-- ===== src/Websocket/Header/Tests.antt =====
-- Runs of the builder, and its theorems at concrete inputs.
use xynet.Prelude.{ℕ, ◌≡◌, refl, arith, List, [], ◌∷◌, replicate, some}
use xynet.Websocket.Flags.{ws_has_mask}
use xynet.Websocket.Header.{websocket_frame_header_builder, view}
use xynet.Websocket.Header.{websocket_frame_header, calc_frame_header_size, calc_frame_size}
use xynet.Websocket.Header.Layout.{Holds, builder-layout}

abbrev buffer : List ℕ
buffer = replicate 14 0xEE

longest_header : calc_frame_header_size ws_has_mask 0xFFFF_FFFF ≡ 14
unfolding calc_frame_header_size
longest_header = refl

ping_size : calc_frame_size (0x39) 120 ≡ 126
unfolding calc_frame_size calc_frame_header_size
ping_size = refl

ping_view : view (websocket_frame_header 0x39 120) ≡ 0x89 ∷ 0xF8 ∷ 0 ∷ 0 ∷ 0 ∷ 0 ∷ []
unfolding view websocket_frame_header websocket_frame_header_builder
ping_view = refl

builder-layout_example :
    Holds buffer 0x32
      (1 ∷ 2 ∷ 3 ∷ 4 ∷ [])
      300
      (websocket_frame_header_builder buffer 0x32 (some (1 ∷ 2 ∷ 3 ∷ 4 ∷ [])) 300)
builder-layout_example = builder-layout buffer 0x32 1 2 3 4 300 (omega arith) (omega arith)
