-- ===== src/Connection/EchoSession.antt =====
-- The sessions of example/websocket/websocket_echo.cpp and websocket_discard.cpp: the handshake, the
-- frames of a client one after another, and the end of the connection.
use xynet.Prelude.{
  ℕ, suc, ◌^◌, ◌<◌, ◌≡◌, refl, arith, ◌∙◌, ap, sym, true, List, [], ◌∷◌, ◌++◌, map, length, All,
  Option, none, some,
}
use mathlib.Core.Option
use mathlib.Core.List.{append_assoc}
use xynet.Prelude.Int.{ℤ}
use xynet.Websocket.Flags.{ws_op_close, has}
use xynet.Socket.{Socket}
use xynet.Serving.Finish.{finish}
use xynet.Connection.{
  Received, data_span, closed, wild_span, recv_thrown, no_value, websocket_recv_data, text_frame,
  Shaken, recv_failed, bad_request_thrown, returned, websocket_send_close,
}
use xynet.Connection.Receive.{recv_data-client_frame, recv_data_control}
use xynet.Connection.Served.{Ending}
use xynet.Connection.Session.{
  ReaderTurn, ReaderEnd, waits, stops, undefined, FrameTurn, to_turn, IsDataFrame, frame_writer,
  read_frames, read_frames-frame_writer,
}

-- What a session has sent, and where it is.
pub record FrameRun : Type 0 where
  pub sent : List ℕ
  pub end : ReaderEnd

abbrev ended : List ℕ → ReaderEnd → Option FrameRun
ended sent end = some (record { sent = sent; end = end })

abbrev send_first : List ℕ → FrameRun → FrameRun
send_first bytes run = record run { sent = bytes ++ run.sent }

abbrev after_echo : Received → Option FrameRun → Option FrameRun
after_echo (data_span bytes) rest = Option.map (send_first (text_frame bytes)) rest
after_echo (closed frame) rest = ended frame stops
after_echo recv_thrown rest = ended [] stops
after_echo (wild_span start len) rest = ended [] undefined
after_echo no_value rest = ended [] undefined

-- The loop of `websocket_echo`, where its sends return.
unfoldable pub echo_frames : List ReaderTurn → Option FrameRun
echo_frames [] = ended [] waits
echo_frames (turn ∷ turns) =
    let rest = echo_frames turns in
    elim (websocket_recv_data turn.pieces turn.buf) [
      | none ↦ none
      | some received ↦ after_echo received rest
    ]

-- The loop of `websocket_discard`, which sends nothing but a close frame.
abbrev after_discard : Received → Option FrameRun → Option FrameRun
after_discard (data_span bytes) rest = rest
after_discard (closed frame) rest = ended frame stops
after_discard recv_thrown rest = ended [] stops
after_discard (wild_span start len) rest = ended [] undefined
after_discard no_value rest = ended [] undefined

unfoldable pub discard_frames : List ReaderTurn → Option FrameRun
discard_frames [] = ended [] waits
discard_frames (turn ∷ turns) =
    let rest = discard_frames turns in
    elim (websocket_recv_data turn.pieces turn.buf) [
      | none ↦ none
      | some received ↦ after_discard received rest
    ]

abbrev pub payloads : List FrameTurn → List (List ℕ)
payloads frames = map (λ f. f.payload) frames

send_nothing : (r : Option FrameRun) → Option.map (send_first []) r ≡ r
send_nothing none = refl
send_nothing (some run) = refl

send_twice :
    (a b : List ℕ) (r : Option FrameRun)
    → Option.map (send_first a) (Option.map (send_first b) r) ≡ Option.map (send_first (a ++ b)) r
send_twice a b none = refl
send_twice a b (some run) =
    ap (λ bytes. some (record run { sent = bytes })) (sym (append_assoc a b run.sent))

echo_frames-frames :
    (frames : List FrameTurn) (turns : List ReaderTurn)
    → All IsDataFrame frames
    → echo_frames (map to_turn frames ++ turns)
      ≡ Option.map (send_first (frame_writer (payloads frames))) (echo_frames turns)
unfolding echo_frames frame_writer
echo_frames-frames [] turns h = sym (send_nothing (echo_frames turns))
echo_frames-frames (f ∷ frames) turns h =
    let d = h.0 in
    let e =
      recv_data-client_frame f.flags f.k0 f.k1 f.k2 f.k3 f.payload f.buf f.later d.byte d.octets
        d.data_frame d.final d.marked d.short in
    rw (e, echo_frames)
      (ap (after_echo (data_span f.payload)) (echo_frames-frames frames turns h.1)
        ∙ send_twice (text_frame f.payload) (frame_writer (payloads frames)) (echo_frames turns))

-- `websocket_echo` after its handshake, with what `disconnect` closes.
abbrev response_of : Option (List ℕ) → List ℕ
response_of none = []
response_of (some response) = response

abbrev disconnected : ℕ → Ending → Socket → ReaderEnd → Option (List ℤ)
disconnected service ending s stops = finish service ending.shut ending.answers s
disconnected service ending s waits = none
disconnected service ending s undefined = none

-- What follows the handshake, with the run of the loop.
abbrev after_handshake :
    ℕ → Shaken → Option FrameRun → Ending → Socket → Option (FrameRun × Option (List ℤ))
after_handshake service (returned response) loop ending s =
    Option.map
      (λ (run : FrameRun).
        (send_first (response_of response) run, disconnected service ending s run.end))
      loop
after_handshake service recv_failed loop ending s =
    some (record { sent = []; end = stops }, disconnected service ending s stops)
after_handshake service bad_request_thrown loop ending s =
    some (record { sent = []; end = stops }, disconnected service ending s stops)

unfoldable pub websocket_echo :
    ℕ → Shaken → List ReaderTurn → Ending → Socket → Option (FrameRun × Option (List ℤ))
websocket_echo service shaken turns ending s =
    after_handshake service shaken (echo_frames turns) ending s

pub websocket_discard :
    ℕ → Shaken → List ReaderTurn → Ending → Socket → Option (FrameRun × Option (List ℤ))
websocket_discard service shaken turns ending s =
    after_handshake service shaken (discard_frames turns) ending s

-- A control frame.
pub record IsControlFrame (f : FrameTurn) : Type 0 where
  pub byte : f.flags < 256
  pub control : has f.flags ws_op_close ≡ true
  pub sized : length f.payload < 2 ^ 64

echo_frames-closed :
    (f : FrameTurn) (turns : List ReaderTurn)
    → IsControlFrame f
    → echo_frames (to_turn f ∷ turns)
      ≡ some (record { sent = websocket_send_close 1000; end = stops })
unfolding echo_frames
echo_frames-closed f turns c =
    let e =
      recv_data_control f.flags f.k0 f.k1 f.k2 f.k3 f.payload f.buf f.later c.byte c.control
        c.sized in
    rw (e, echo_frames) refl

payloads-short :
    (frames : List FrameTurn)
    → All IsDataFrame frames
    → All (λ message. length message < 2 ^ 64) (payloads frames)
payloads-short [] h = tt
payloads-short (f ∷ frames) h = (omega (arith, h.0.short), payloads-short frames h.1)

length-payloads : (frames : List FrameTurn) → length (payloads frames) ≡ length frames
length-payloads [] = refl
length-payloads (f ∷ frames) = ap suc (length-payloads frames)

-- A client of the echo server that has shaken hands sends final data frames with a mask and at most
-- 1000 bytes, and then a control frame, each whole in one piece: the server has sent its response,
-- frames from which the client reads its payloads back, and a close frame of status 1000, and
-- disconnects.
pub websocket_echo-IsRead :
    (service : ℕ) (response : List ℕ) (frames : List FrameTurn) (last : FrameTurn)
    (turns : List ReaderTurn) (ending : Ending) (s : Socket)
    → All IsDataFrame frames
    → IsControlFrame last
    → (echoed : List ℕ) × (websocket_echo service
          (returned (some response))
          (map to_turn frames ++ (to_turn last ∷ turns))
          ending
          s
        ≡ some (
          record { sent = response ++ (echoed ++ websocket_send_close 1000); end = stops },
          finish service ending.shut ending.answers s,
        ))
      × (read_frames (length frames) (echoed ++ websocket_send_close 1000) ≡ some (payloads frames))
unfolding websocket_echo
websocket_echo-IsRead service response frames last turns ending s h c =
    let whole =
      echo_frames-frames frames (to_turn last ∷ turns) h
      ∙ ap (Option.map (send_first (frame_writer (payloads frames))))
          (echo_frames-closed last turns c) in
    (
      frame_writer (payloads frames),
      ap
          (Option.map
            (λ (run : FrameRun). (send_first response run, disconnected service ending s run.end)))
          whole,
      ap (λ n. read_frames n (frame_writer (payloads frames) ++ websocket_send_close 1000))
            (sym (length-payloads frames))
          ∙ read_frames-frame_writer (payloads frames) (websocket_send_close 1000)
              (payloads-short frames h),
    )
