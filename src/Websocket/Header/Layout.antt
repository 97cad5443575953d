-- ===== src/Websocket/Header/Layout.antt =====
-- What the builder writes, against the layout of a frame header in RFC 6455, section 5.2.
use xynet.Prelude.{ℕ, zero, suc, ◌+◌, ◌/◌, ◌%◌, ◌^◌, ◌≤◌, ◌<◌, ◌≡◌, refl, arith}
use xynet.Prelude.{ltb, leb, if◌then◌else◌, bit_and, bit_or}
use xynet.Prelude.{List, [], ◌∷◌, ◌++◌, length, take, drop, replicate, some}
use xynet.Prelude.Bits.{every_below, table}
use xynet.Websocket.Flags.{ws_op_mask, ws_fin, ws_has_mask, has}
use xynet.Websocket.Header.{websocket_frame_header_builder, calc_frame_header_size, u8}
use xynet.Websocket.Header.{websocket_frame_header, websocket_frame_header_masked, view}

-- The last `k` bytes of a number, most significant first.
abbrev pub be_bytes : ℕ → ℕ → List ℕ
be_bytes zero n = []
be_bytes (suc k) n = (n / 256 ^ k % 256) ∷ be_bytes k n

-- FIN and the opcode.
abbrev pub first_byte : ℕ → ℕ
first_byte flags = (if has flags ws_fin then 128 else 0) + bit_and flags ws_op_mask

-- The seven bits of the length field, and the number of bytes that extend it.
abbrev pub length_code : ℕ → ℕ
length_code n = if ltb n 126 then n else if leb n 0xFFFF then 126 else 127

abbrev pub extension : ℕ → ℕ
extension n = if ltb n 126 then 0 else if leb n 0xFFFF then 2 else 8

abbrev pub layout : ℕ → List ℕ → ℕ → List ℕ
layout flags key n =
    first_byte flags
    ∷ ((if has flags ws_has_mask then 128 else 0) + length_code n)
    ∷ (be_bytes (extension n) n ++ (if has flags ws_has_mask then key else []))

or_op : (f : ℕ) → f < 256 → u8 (bit_or 0 (bit_and f 15)) ≡ bit_and f 15
unfolding every_below
or_op = table 256 _ _ refl

or_fin_op : (f : ℕ) → f < 256 → u8 (bit_or 128 (bit_and f 15)) ≡ 128 + bit_and f 15
unfolding every_below
or_fin_op = table 256 _ _ refl

or_len : (n : ℕ) → n < 128 → u8 (bit_or 0 n) ≡ n
unfolding every_below
or_len = table 128 _ _ refl

or_mask_len : (n : ℕ) → n < 128 → u8 (bit_or 128 n) ≡ 128 + n
unfolding every_below
or_mask_len = table 128 _ _ refl

-- A buffer holds the layout up to an offset, and what `frame` holds beyond it.
abbrev pub Holds : List ℕ → ℕ → List ℕ → ℕ → List ℕ × ℕ → Type 0
Holds frame flags key n built =
    (built.1 ≡ calc_frame_header_size flags n)
    × (take built.1 built.0 ≡ layout flags key n)
    × (drop built.1 built.0 ≡ drop built.1 frame)

-- The builder at a key of four bytes and a buffer with room for the longest header: it returns
-- the size that `calc_frame_header_size` computes, the bytes before that offset are the layout
-- of the flags, the key and the length, and the bytes from there on are those of the buffer.
pub builder-layout :
    (frame : List ℕ) (flags k0 k1 k2 k3 n : ℕ)
    → 14 ≤ length frame
    → flags < 256
    → let key = k0 ∷ k1 ∷ k2 ∷ k3 ∷ [] in
      Holds frame flags key n (websocket_frame_header_builder frame flags (some key) n)
unfolding websocket_frame_header_builder calc_frame_header_size
builder-layout (f0 ∷ f1 ∷ f2 ∷ f3 ∷ f4 ∷ f5 ∷ f6 ∷ f7 ∷ f8 ∷ f9 ∷ f10 ∷ f11 ∷ f12 ∷ f13 ∷ rest)
      flags k0 k1 k2 k3 n room hf =
    ground (arith, or_op flags, or_fin_op flags, or_len n, or_mask_len n)
builder-layout _ flags k0 k1 k2 k3 n room hf = absurd (omega arith)

-- The header that the constructor with a masking key builds: whatever the key, the bytes that
-- are sent are the layout with a key of four zero bytes.
view-masked :
    (flags n : ℕ) (key : List ℕ)
    → flags < 256
    → view (websocket_frame_header_masked flags key n) ≡ layout flags (replicate 4 0) n
unfolding view websocket_frame_header_masked websocket_frame_header websocket_frame_header_builder
view-masked flags n key hf = ground (arith, or_op flags, or_fin_op flags, or_len n, or_mask_len n)

pub view-layout :
    (flags n : ℕ)
    → flags < 256
    → view (websocket_frame_header flags n) ≡ layout flags (replicate 4 0) n
unfolding websocket_frame_header_masked view
view-layout flags n hf = view-masked flags n [] hf

pub length-layout :
    (flags k0 k1 k2 k3 n : ℕ)
    → length (layout flags (k0 ∷ k1 ∷ k2 ∷ k3 ∷ []) n) ≡ calc_frame_header_size flags n
unfolding calc_frame_header_size
length-layout flags k0 k1 k2 k3 n = ground arith

-- The size of the array that `websocket_frame_header` keeps is enough.
pub length-layout_bound :
    (flags k0 k1 k2 k3 n : ℕ) → length (layout flags (k0 ∷ k1 ∷ k2 ∷ k3 ∷ []) n) ≤ 14
length-layout_bound flags k0 k1 k2 k3 n = ground arith
