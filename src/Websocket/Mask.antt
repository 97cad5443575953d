-- ===== src/Websocket/Mask.antt =====
-- websocket_mask of http/websocket_frame_mask.h. A byte range is a list of numbers; `i` is a
-- `size_t`, so `i++` wraps at 2 ^ 64. The bytes of the `uint32_t` are those of a little-endian
-- machine, as `mask_uint32_t` of the parser reads them.
mod Tests
use xynet.Prelude.{ℕ, zero, suc, ◌+◌, ◌/◌, ◌%◌, ◌^◌, ◌≡◌, refl, arith, ap, ◌∙◌}
use xynet.Prelude.{bit_xor, List, [], ◌∷◌, ◌++◌, get_elem?, length, some}
use mathlib.Core.Option
use xynet.Prelude.Bits.{bit_xor_twice}

-- `mask_ptr[k]`
unfoldable pub mask_at : ℕ → ℕ → ℕ
mask_at mask k = mask / 256 ^ k % 256

-- The bytes as the call leaves them, each `c ^ mask_ptr[i++ % 4]`, and the returned index.
unfoldable pub websocket_mask : List ℕ → ℕ → ℕ → List ℕ × ℕ
unfolding mask_at
websocket_mask [] mask i = ([], i)
websocket_mask (c ∷ cs) mask i =
    let (rest, j) = websocket_mask cs mask ((i + 1) % 2 ^ 64) in
    (bit_xor c (mask_at mask (i % 4)) ∷ rest, j)

pub length-websocket_mask :
    (bytes : List ℕ) (mask i : ℕ) → length (websocket_mask bytes mask i).0 ≡ length bytes
unfolding websocket_mask
length-websocket_mask [] mask i = refl
length-websocket_mask (c ∷ cs) mask i = ap suc (length-websocket_mask cs mask ((i + 1) % 2 ^ 64))

-- Masking twice with one mask from one index gives the bytes back, and both calls return the
-- same index.
pub websocket_mask_twice :
    (bytes : List ℕ) (mask i : ℕ)
    → let once = websocket_mask bytes mask i in websocket_mask once.0 mask i ≡ (bytes, once.1)
unfolding websocket_mask
websocket_mask_twice [] mask i = refl
websocket_mask_twice (c ∷ cs) mask i =
    ground (
      arith,
      bit_xor_twice c (mask_at mask (i % 4)),
      websocket_mask_twice cs mask ((i + 1) % 2 ^ 64),
    )

-- Two pieces, the second from the index that the first call returns, are masked as the whole.
websocket_mask-append :
    (xs ys : List ℕ) (mask i : ℕ)
    → let first = websocket_mask xs mask i in
      let second = websocket_mask ys mask first.1 in
      websocket_mask (xs ++ ys) mask i ≡ (first.0 ++ second.0, second.1)
unfolding websocket_mask
websocket_mask-append [] ys mask i = refl
websocket_mask-append (x ∷ xs) ys mask i =
    ground (arith, websocket_mask-append xs ys mask ((i + 1) % 2 ^ 64))

next_octet : (i : ℕ) → (i + 1) % 2 ^ 64 % 4 ≡ (i + 1) % 4
next_octet i = omega arith

octet_step : (i j k : ℕ) → j % 4 ≡ (i + 1) % 4 → (j + k) % 4 ≡ (i + suc k) % 4
octet_step i j k e = omega arith

-- RFC 6455, section 5.3: octet `k` of the result is octet `k` of the input with the octet
-- `(i + k) mod 4` of the mask, also where the index wraps.
pub get_elem?-websocket_mask :
    (bytes : List ℕ) (mask i k : ℕ)
    → get_elem? (websocket_mask bytes mask i).0 k
      ≡ Option.map (λ c. bit_xor c (mask / 256 ^ ((i + k) % 4) % 256)) (get_elem? bytes k)
unfolding websocket_mask mask_at
get_elem?-websocket_mask [] mask i k = refl
get_elem?-websocket_mask (c ∷ cs) mask i zero =
    ap (λ (m : ℕ). some (bit_xor c (mask / 256 ^ (m % 4) % 256))) (omega arith)
get_elem?-websocket_mask (c ∷ cs) mask i (suc k) =
    let j = (i + 1) % 2 ^ 64 in
    get_elem?-websocket_mask cs mask j k
    ∙ ap (λ (m : ℕ). Option.map (λ b. bit_xor b (mask / 256 ^ m % 256)) (get_elem? cs k))
        (octet_step i j k (next_octet i))
