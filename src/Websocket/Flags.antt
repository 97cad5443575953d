-- ===== src/Websocket/Flags.antt =====
-- websocket_flags of http/websocket_frame_header.h: an `unsigned char`, as a number below 256.
use xynet.Prelude.{ℕ, ◌==◌, Bool, not, bit_and}

abbrev pub ws_none : ℕ
ws_none = 0x0

abbrev pub ws_op_text : ℕ
ws_op_text = 0x1

abbrev pub ws_op_close : ℕ
ws_op_close = 0x8

abbrev pub ws_op_ping : ℕ
ws_op_ping = 0x9

abbrev pub ws_op_mask : ℕ
ws_op_mask = 0xF

abbrev pub ws_fin : ℕ
ws_fin = 0x10

abbrev pub ws_has_mask : ℕ
ws_has_mask = 0x20

-- `static_cast<bool>(flag)`
abbrev pub websocket_flags_not_none : ℕ → Bool
websocket_flags_not_none flag = not (flag == 0)

-- `websocket_flags_not_none(flags & mark)`, the test that the builder and the parser make.
abbrev pub has : ℕ → ℕ → Bool
has flags mark = websocket_flags_not_none (bit_and flags mark)
