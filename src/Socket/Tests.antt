-- ===== src/Socket/Tests.antt =====
-- Runs of the sockets, and their theorems at concrete inputs.
use xynet.Prelude.{◌+◌, ◌*◌, ◌/◌, ◌%◌, false, ◌≡◌, refl, arith, [], ◌∷◌, none, some, true}
use xynet.Prelude.Int.{pos, negsuc}
use xynet.Operation.{AsyncOperationBase, Policy, no_error}
use xynet.Socket.{Socket, Answer, destroy, move_fd}
use xynet.Socket.Text.{
  from_ip, to_str, number_from, before_colon, after_colon, digits, from_ip-to_str,
}
use xynet.Socket.DecimalText.{decimal_text}
use xynet.Operation.{duration, error_code}
use xynet.Socket.{returned, file_descriptor}
use xynet.Socket.Calls.{accept, accept-described, finished, with_code_within}
use xynet.Socket.Address.{SocketAddress, ByteOrder}

abbrev little_endian : ByteOrder
little_endian = record {
  htons = λ n. n % 256 * 256 + n / 256;
  ntohs = λ n. n % 256 * 256 + n / 256;
  htonl = λ n. n;
  ntohs-htons = λ n small. omega arith;
}

abbrev home : SocketAddress
home = record { sin_port = 20480; s_addr = 16777343 }

abbrev home_8080 : SocketAddress
home_8080 = record { sin_port = 36895; s_addr = 16777343 }

abbrev open_socket : Socket
open_socket = record { m_fd = pos 5; m_local_address = home; m_peer_address = home }

abbrev opened : Answer
opened = record { ret = pos 7; errno = 0 }

abbrev refused : Answer
refused = record { ret = negsuc 0; errno = 24 }

abbrev base : AsyncOperationBase
base = record {
  m_res = pos 0;
  m_flags = pos 0;
  error = no_error;
  mp_service = none;
  awaiting_coroutine = none;
}

abbrev no_code : Policy
no_code = record { enable_timeout = false; enable_error_code = false }

moved_closes_nothing : destroy (move_fd open_socket).1 ≡ []
unfolding destroy move_fd
moved_closes_nothing = refl

home_text :
    to_str decimal_text little_endian home
    ≡ b'1' ∷ b'6' ∷ b'7' ∷ b'7' ∷ b'7' ∷ b'3' ∷ b'4' ∷ b'3' ∷ b':' ∷ b'8' ∷ b'0' ∷ []
unfolding to_str
home_text = refl

from_ip-to_str_example :
    let str = to_str decimal_text little_endian home in
    from_ip decimal_text little_endian (before_colon str) (number_from 0 (after_colon str)) ≡ home
from_ip-to_str_example =
    from_ip-to_str decimal_text little_endian home (digits 10 16777343) 80 refl refl (omega arith)

accept-described_example :
    accept
      (some 1)
      no_error
      (duration ∷ error_code ∷ [])
      (record { res = pos 7; flags = pos 0 })
      home
      file_descriptor
    ≡ finished (returned (record file_descriptor { m_fd = pos 7; m_peer_address = home })) no_error
accept-described_example =
    accept-described 1 (duration ∷ error_code ∷ []) true no_error
      (record { res = pos 7; flags = pos 0 }) home with_code_within (λ e. refl)
