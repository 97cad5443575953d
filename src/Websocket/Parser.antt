-- ===== src/Websocket/Parser.antt =====
-- websocket_frame_header_parser of http/websocket_frame_header.h. The pointers `p` and `end` are
-- the list of the bytes from `p` on; `p - data + 1` is the number of bytes taken.
pub mod Scan
pub mod Machine
pub mod Digits
pub mod RoundTrip
pub mod Chunks
mod Tests
use xynet.Prelude.{ℕ, zero, suc, ◌+◌, ◌-◌, ◌*◌, ◌%◌, ◌^◌, ◌==◌, leb, if◌then◌else◌, bit_and, bit_or}
use xynet.Prelude.{List, [], ◌∷◌, length, set, replicate, Option, none, some}
use xynet.Websocket.Flags.{ws_none, ws_op_mask, ws_fin, ws_has_mask, has}

pub data ParserState : Type 0 where
  s_start s_head s_length s_mask s_finished : ParserState

pub record WebsocketFrameHeaderParser : Type 0 where
  pub m_state : ParserState
  pub m_flags : ℕ
  pub m_mask : List ℕ
  pub m_length : ℕ
  pub m_require : ℕ

abbrev pub npos : ℕ
npos = 2 ^ 64 - 1

abbrev pub new_parser : WebsocketFrameHeaderParser
new_parser = record {
  m_state = s_start;
  m_flags = ws_none;
  m_mask = replicate 4 0;
  m_length = 0;
  m_require = 0;
}

pub reset : WebsocketFrameHeaderParser → WebsocketFrameHeaderParser
reset s = record s {
  m_state = s_start;
  m_flags = ws_none;
  m_mask = replicate 4 0;
  m_length = 0;
  m_require = 0;
}

-- `mask_uint32_t` on a little-endian machine.
unfoldable pub mask_uint32_t : WebsocketFrameHeaderParser → ℕ
mask_uint32_t s = word s.m_mask
  where
    word : List ℕ → ℕ
    word [] = 0
    word (b ∷ bs) = b + 256 * word bs

-- `case parser_state::s_start`
pub start_byte : WebsocketFrameHeaderParser → ℕ → WebsocketFrameHeaderParser
start_byte s b =
    let op = bit_and b ws_op_mask in
    record s {
      m_length = 0;
      m_flags = if bit_and b 0x80 == 0 then op else bit_or op ws_fin;
      m_state = s_head;
    }

-- `case parser_state::s_head`
pub head_byte : WebsocketFrameHeaderParser → ℕ → WebsocketFrameHeaderParser
head_byte s b =
    let code = bit_and b 0x7F in
    let flags = if bit_and b 0x80 == 0 then s.m_flags else bit_or s.m_flags ws_has_mask in
    if leb 126 code
    then record s {
      m_flags = flags;
      m_require = if code == 127 then 8 else 2;
      m_length = 0;
      m_state = s_length;
    }
    else if has flags ws_has_mask
    then record s { m_flags = flags; m_length = code; m_state = s_mask; m_require = 4 }
    else record s { m_flags = flags; m_length = code; m_state = s_finished }

-- One round of the loop under `s_length`; `<<=` drops what leaves the 64 bits of `size_t`.
pub length_byte : WebsocketFrameHeaderParser → ℕ → WebsocketFrameHeaderParser
length_byte s b = record s {
  m_length = bit_or (s.m_length * 256 % 2 ^ 64) b;
  m_require = s.m_require - 1;
}

-- `while((p < end) && m_require)` under `s_length`, with the bytes that it leaves.
pub length_loop : WebsocketFrameHeaderParser → List ℕ → WebsocketFrameHeaderParser × List ℕ
unfolding length_byte
length_loop s [] = (s, [])
length_loop s (b ∷ bs) =
    let more = length_loop (length_byte s b) bs in if s.m_require == 0 then (s, b ∷ bs) else more

-- What follows the loop under `s_length`.
pub after_length : WebsocketFrameHeaderParser → WebsocketFrameHeaderParser
after_length s =
    if s.m_require == 0
    then if has s.m_flags ws_has_mask
      then record s { m_state = s_mask; m_require = 4 }
      else record s { m_state = s_finished }
    else s

-- One round of the loop under `s_mask`: `m_mask[4 - m_require--] = *p`.
pub mask_byte : WebsocketFrameHeaderParser → ℕ → WebsocketFrameHeaderParser
mask_byte s b = record s { m_mask = set s.m_mask (4 - s.m_require) b; m_require = s.m_require - 1 }

pub mask_loop : WebsocketFrameHeaderParser → List ℕ → WebsocketFrameHeaderParser × List ℕ
unfolding mask_byte
mask_loop s [] = (s, [])
mask_loop s (b ∷ bs) =
    let more = mask_loop (mask_byte s b) bs in if s.m_require == 0 then (s, b ∷ bs) else more

pub after_mask : WebsocketFrameHeaderParser → WebsocketFrameHeaderParser
after_mask s = if s.m_require == 0 then record s { m_state = s_finished } else s

-- The parser as the loop leaves it, and, where it has returned a count, the bytes after the header.
abbrev pub Outcome : Type 0
Outcome = WebsocketFrameHeaderParser × Option (List ℕ)

-- A state that is finished returns, any other goes on.
abbrev pub resume {ℓ} :
    {A : Type ℓ} → A → (WebsocketFrameHeaderParser → A) → WebsocketFrameHeaderParser → A
resume stop go s = elim s.m_state [ s_finished ↦ stop | _ ↦ go s ]

-- The body of the `for` loop; `go` is the rest of the loop.
pub dispatch :
    (WebsocketFrameHeaderParser → List ℕ → Option Outcome)
    → ParserState
    → WebsocketFrameHeaderParser
    → ℕ
    → List ℕ
    → Option Outcome
dispatch go s_start s b bs = go (start_byte s b) bs
dispatch go s_head s b bs = let s' = head_byte s b in resume (some (s', some bs)) (λ t. go t bs) s'
dispatch go s_length s b bs =
    let (looped, rest) = length_loop s (b ∷ bs) in
    let s' = after_length looped in resume (some (s', some rest)) (λ t. go t rest) s'
dispatch go s_mask s b bs =
    let (looped, rest) = mask_loop s (b ∷ bs) in
    let s' = after_mask looped in resume (some (s', some rest)) (λ t. go t rest) s'
dispatch go s_finished s b bs = go s bs

-- The `for` loop; `none` means that the fuel ran out.
pub parse_loop : ℕ → WebsocketFrameHeaderParser → List ℕ → Option Outcome
parse_loop fuel s [] = some (s, none)
parse_loop zero s (b ∷ bs) = none
parse_loop (suc fuel) s (b ∷ bs) = dispatch (parse_loop fuel) s.m_state s b bs

-- The returned number: the bytes taken, or `npos`.
abbrev pub report : List ℕ → Outcome → WebsocketFrameHeaderParser × ℕ
report bytes (s, none) = (s, npos)
report bytes (s, some rest) = (s, length bytes - length rest)

pub parse : WebsocketFrameHeaderParser → List ℕ → Option (WebsocketFrameHeaderParser × ℕ)
parse s bytes = elim (parse_loop (length bytes) s bytes) [
  | none ↦ none
  | some r ↦ some (report bytes r)
]
