-- ===== src/Websocket/Header.antt =====
-- websocket_frame_header_builder and websocket_frame_header of http/websocket_frame_header.h.
-- `unsigned char *frame` is a list of bytes; a store is `set`.
pub mod Layout
mod Tests
use xynet.Prelude.{ℕ, ◌+◌, ◌/◌, ◌%◌, ◌^◌, ◌≤◌, ltb, leb, if◌then◌else◌, bit_and, bit_or}
use xynet.Prelude.{
  List, [], ◌∷◌, ◌++◌, get_or, set, take, drop, length, replicate, Option, none, some,
}
use xynet.Websocket.Flags.{ws_op_mask, ws_fin, ws_has_mask, has}

pub calc_frame_header_size : ℕ → ℕ → ℕ
calc_frame_header_size flags data_len =
    let size = if leb 126 data_len then (if ltb 0xFFFF data_len then 10 else 4) else 2 in
    if has flags ws_has_mask then size + 4 else size

pub calc_frame_size : ℕ → ℕ → ℕ
calc_frame_size flags data_len = (data_len + calc_frame_header_size flags data_len) % 2 ^ 64

-- The value of `WS_MAX_FRAME_HEADER_SIZE`, the size of the array in the class.
abbrev pub ws_max_frame_header_size : ℕ
ws_max_frame_header_size = 14

-- A conversion to `unsigned char`.
abbrev pub u8 : ℕ → ℕ
u8 n = n % 256

-- `frame[i] |= v`
abbrev or_byte : List ℕ → ℕ → ℕ → List ℕ
or_byte frame i v = set frame i (u8 (bit_or (get_or frame i 0) v))

-- The first two bytes, before the length is written.
write_flags : List ℕ → ℕ → List ℕ
write_flags frame flags =
    let cleared = set (set frame 0 0) 1 0 in
    let final = if has flags ws_fin then set cleared 0 128 else cleared in
    let coded = or_byte final 0 (bit_and flags ws_op_mask) in
    if has flags ws_has_mask then set coded 1 128 else coded

-- The three forms of the length, each with the offset of what follows.
write_length : List ℕ → ℕ → List ℕ × ℕ
write_length frame data_len =
    if ltb data_len 126
    then (or_byte frame 1 data_len, 2)
    else if leb data_len 0xFFFF
    then (set (set (or_byte frame 1 126) 2 (u8 (data_len / 2 ^ 8))) 3 (u8 data_len), 4)
    else (
      set
          (set
            (set
              (set
                (set
                  (set
                    (set (set (or_byte frame 1 127) 2 (u8 (data_len / 2 ^ 56))) 3
                      (u8 (data_len / 2 ^ 48)))
                    4 (u8 (data_len / 2 ^ 40)))
                  5 (u8 (data_len / 2 ^ 32)))
                6 (u8 (data_len / 2 ^ 24)))
              7 (u8 (data_len / 2 ^ 16)))
            8 (u8 (data_len / 2 ^ 8)))
          9 (u8 data_len),
      10,
    )

-- `std::copy(mask, mask + 4, &frame[offset])`
copy_to : List ℕ → ℕ → List ℕ → List ℕ
copy_to frame offset bytes = take offset frame ++ (bytes ++ drop (offset + length bytes) frame)

-- A `mask` of `none` is the null pointer: its four bytes are left as they are.
write_mask : List ℕ → ℕ → Option (List ℕ) → List ℕ
unfolding copy_to
write_mask frame offset none = frame
write_mask frame offset (some mask) = copy_to frame offset (take 4 mask)

pub websocket_frame_header_builder : List ℕ → ℕ → Option (List ℕ) → ℕ → List ℕ × ℕ
unfolding write_flags write_length write_mask
websocket_frame_header_builder frame flags mask data_len =
    let (sized, body_offset) = write_length (write_flags frame flags) data_len in
    if has flags ws_has_mask
    then (write_mask sized body_offset mask, body_offset + 4)
    else (sized, body_offset)

pub record WebsocketFrameHeader : Type 0 where
  pub header : List ℕ
  pub mask : List ℕ
  pub header_length : ℕ

-- The constructor from flags and a length.
pub websocket_frame_header : ℕ → ℕ → WebsocketFrameHeader
websocket_frame_header flags data_len =
    let (header, n) =
      websocket_frame_header_builder (replicate ws_max_frame_header_size 0) flags none data_len in
    record { header = header; mask = replicate 4 0; header_length = n }

-- The constructors from flags, a masking key and a length: the key goes to `mask` alone.
pub websocket_frame_header_masked : ℕ → List ℕ → ℕ → WebsocketFrameHeader
websocket_frame_header_masked flags key data_len = record (websocket_frame_header flags data_len) {
  mask = take 4 key;
}

-- The bytes that are sent.
pub view : WebsocketFrameHeader → List ℕ
view h = take h.header_length h.header
