-- ===== src/Connection/Replies.antt =====
-- The servers of example/websocket with a client: the echo of websocket_echo.cpp, and a message from
-- one client to another through websocket_chat.cpp.
use xynet.Prelude.{
  ℕ, ◌≤◌, ◌<◌, ◌≡◌, refl, arith, true, false, List, [], ◌∷◌, ◌++◌, length, length-append, some, All,
}
use xynet.Websocket.Flags.{ws_op_close, ws_fin, ws_has_mask, has}
use xynet.Connection.{text_frame, websocket_recv_data, data_span, echo_once, read_message}
use xynet.Connection.Frames.{IsRead, text_frame-IsRead}
use xynet.Connection.Receive.{client_frame, recv_data-client_frame}

echo_once_lem :
    (pieces : List (List ℕ)) (buf payload : List ℕ)
    → websocket_recv_data pieces buf ≡ some (data_span payload)
    → echo_once pieces buf ≡ some (text_frame payload)
unfolding echo_once
echo_once_lem pieces buf payload e = rw (e, echo_once) refl

read_message_lem :
    (head : List ℕ) (pieces : List (List ℕ)) (buf payload : List ℕ)
    → websocket_recv_data pieces buf ≡ some (data_span payload)
    → read_message head pieces buf ≡ some (head ++ payload)
unfolding read_message
read_message_lem head pieces buf payload e = rw (e, read_message) refl

module _ (flags k0 k1 k2 k3 : ℕ) (payload buf rest : List ℕ) (pieces : List (List ℕ)) where
  abbrev pub key : List ℕ
  key = k0 ∷ k1 ∷ k2 ∷ k3 ∷ []

  -- A client that sends a final data frame with a mask and at most 1000 bytes, whole in one piece,
  -- reads its payload back from the answer of the echo server, as a final text frame without a
  -- mask, whatever bytes follow the answer.
  echo_once-IsRead :
      flags < 256
      → All (λ k. k < 256) key
      → has flags ws_op_close ≡ false
      → has flags ws_fin ≡ true
      → has flags ws_has_mask ≡ true
      → length payload ≤ 1000
      → (reply : List ℕ) × (echo_once (client_frame flags key payload ∷ pieces) buf ≡ some reply)
        × IsRead 0x11 payload rest reply
  echo_once-IsRead hf octets data_frame final marked small = (
    text_frame payload,
    echo_once_lem (client_frame flags key payload ∷ pieces) buf payload (
        recv_data-client_frame flags k0 k1 k2 k3 payload buf pieces hf octets data_frame final
          marked small),
    text_frame-IsRead payload rest (omega arith),
  )

  -- What a client sends to the chat server in such a frame, where the head of the session has at
  -- most 24 bytes, the other clients read from the frame that the server sends of the message: the
  -- head, and the payload behind it.
  read_message-IsRead :
      (m_message_head : List ℕ)
      → length m_message_head ≤ 24
      → flags < 256
      → All (λ k. k < 256) key
      → has flags ws_op_close ≡ false
      → has flags ws_fin ≡ true
      → has flags ws_has_mask ≡ true
      → length payload ≤ 1000
      → (message : List ℕ) × (read_message m_message_head
            (client_frame flags key payload ∷ pieces)
            buf
          ≡ some message)
        × IsRead 0x11 (m_message_head ++ payload) rest (text_frame message)
  read_message-IsRead m_message_head short hf octets data_frame final marked small = (
    m_message_head ++ payload,
    read_message_lem m_message_head (client_frame flags key payload ∷ pieces) buf payload (
        recv_data-client_frame flags k0 k1 k2 k3 payload buf pieces hf octets data_frame final
          marked small),
    text_frame-IsRead (m_message_head ++ payload) rest
        (omega (arith, length-append m_message_head payload)),
  )
