-- ===== src/Websocket/Mask/Tests.antt =====
-- Runs of the masking, and its theorems at concrete inputs.
use xynet.Prelude.{ℕ, ◌≡◌, refl, List, [], ◌∷◌, get_elem?, some, bit_xor}
use xynet.Websocket.Mask.{websocket_mask}
use xynet.Websocket.Mask.{get_elem?-websocket_mask}

abbrev hello : List ℕ
hello = 0x48 ∷ 0x65 ∷ 0x6C ∷ 0x6C ∷ 0x6F ∷ []

-- The masked text of RFC 6455, section 5.7.
hello_masked : websocket_mask hello 0x3D21FA37 0 ≡ (0x7F ∷ 0x9F ∷ 0x4D ∷ 0x51 ∷ 0x58 ∷ [], 5)
unfolding websocket_mask
hello_masked = refl

get_elem?-websocket_mask_example :
    get_elem? (websocket_mask hello 0x3D21FA37 0).0 4 ≡ some (bit_xor 0x6F 0x37)
get_elem?-websocket_mask_example = get_elem?-websocket_mask hello 0x3D21FA37 0 4
