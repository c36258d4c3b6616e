-- ===== src/SocketHandler.antt =====
-- GameLib/SocketHandler.h and SocketHandler.cpp, with `handle_read` of GameLib/TcpHandler.cpp: a
-- connection from the bytes it receives to the server's `ProcessPacket`, and back to its sends.
-- `ProcessPacket` is virtual: it is an argument, a function of the packet and of a state that holds
-- the connection and all else that it can reach. The state is `none` once something has faulted.
-- The timer is whether it runs. `policy[22]` is the 0 behind the string's 22 characters.
pub mod Blocks
pub mod Messages
pub mod Reads
pub mod Delivery
mod Tests
use thero_logic_server.Base.{
  ℕ, ◌*◌, ◌∷◌, [], List, Bool, true, false, not, ◌&&◌, ◌==◌, ltb, if◌then◌else◌, Option, none, some,
  ◌>>=◌, length, copy_from, get_or, zero,
}
use thero_logic_server.Base.Int.{ℤ, pos, negsuc, eqb_ℤ}
use thero_logic_server.Base.Words.{minus_one}
use thero_logic_server.Packet.{Packet}
use thero_logic_server.Packet.Output.{OutputPacket}
use thero_logic_server.EncryptDecrypt.{encrypt_buffer, decrypt_buffer}
use thero_logic_server.TcpHandler.{TcpHandler, Answer, send}
use thero_logic_server.PacketParser.{PacketParser, OnPacket, parse_packet}
use thero_logic_server.PacketParser as parser

-- `CONNECT`, `REQUEST` and `CLOSE` of GameLib/SockerAPI.h, and the -1 of the constructor
pub data ChunkStatus : Type 0 where
  unset connect request close : ChunkStatus

-- the connection without its parser, and the answers of the socket to its next `send`s
pub record SocketHandler : Type 0 where
  pub tcp : TcpHandler
  pub answers : List Answer
  pub status : ChunkStatus
  pub timer_runs : Bool
  pub handler_id : ℕ

-- What `recv` gives next: bytes, no more than the buffer holds, and none at the end of the stream;
-- nothing yet (EAGAIN or EWOULDBLOCK); or another error. Behind the last answer there is nothing yet.
pub data Received : Type 0 where
  received : List ℕ → Received
  nothing_yet failed : Received

abbrev pub Process : Type 0 → Type 0
Process S = Packet → SocketHandler × S → ℤ × Packet × SocketHandler × S

abbrev pub State : Type 0 → Type 0
State S = Option (SocketHandler × S)

abbrev pub recv_buffer_size : ℕ
recv_buffer_size = 1024 * 8

abbrev pub policy_request : List ℕ
policy_request =
    b'<' ∷ b'p' ∷ b'o' ∷ b'l' ∷ b'i' ∷ b'c' ∷ b'y' ∷ b'-' ∷ b'f' ∷ b'i' ∷ b'l' ∷ b'e' ∷ b'-' ∷ b'r'
    ∷ b'e' ∷ b'q' ∷ b'u' ∷ b'e' ∷ b's' ∷ b't' ∷ b'/' ∷ b'>' ∷ 0 ∷ []

-- `s_policystr`, whose own constructor stops at the literal's 0: 88 characters
abbrev pub policy_reply : List ℕ
policy_reply =
    60 ∷ 99 ∷ 114 ∷ 111 ∷ 115 ∷ 115 ∷ 45 ∷ 100 ∷ 111 ∷ 109 ∷ 97 ∷ 105 ∷ 110 ∷ 45 ∷ 112 ∷ 111 ∷ 108
    ∷ 105 ∷ 99 ∷ 121 ∷ 62 ∷ 60 ∷ 97 ∷ 108 ∷ 108 ∷ 111 ∷ 119 ∷ 45 ∷ 97 ∷ 99 ∷ 99 ∷ 101 ∷ 115 ∷ 115
    ∷ 45 ∷ 102 ∷ 114 ∷ 111 ∷ 109 ∷ 32 ∷ 100 ∷ 111 ∷ 109 ∷ 97 ∷ 105 ∷ 110 ∷ 61 ∷ 34 ∷ 42 ∷ 34 ∷ 32
    ∷ 116 ∷ 111 ∷ 45 ∷ 112 ∷ 111 ∷ 114 ∷ 116 ∷ 115 ∷ 61 ∷ 34 ∷ 42 ∷ 34 ∷ 32 ∷ 47 ∷ 62 ∷ 60 ∷ 47 ∷ 99
    ∷ 114 ∷ 111 ∷ 115 ∷ 115 ∷ 45 ∷ 100 ∷ 111 ∷ 109 ∷ 97 ∷ 105 ∷ 110 ∷ 45 ∷ 112 ∷ 111 ∷ 108 ∷ 105
    ∷ 99 ∷ 121 ∷ 62 ∷ []

abbrev pub equal_bytes : List ℕ → List ℕ → Bool
equal_bytes [] [] = true
equal_bytes (x ∷ xs) (y ∷ ys) = x == y && equal_bytes xs ys
equal_bytes _ _ = false

-- the bytes that `Send` gives to `TcpHandler::Send`
abbrev pub packet_bytes : OutputPacket → Option (List ℕ)
packet_bytes o = copy_from o.packet.buf 0 o.packet.packet_size

abbrev pub tcp_send : SocketHandler → List ℕ → Option (ℤ × SocketHandler)
tcp_send h bytes = do
  r ← send h.answers h.tcp bytes
  some (r.0, record h { tcp = r.1; answers = r.2 })

-- `SocketHandler::Send`: the result, the packet, and the connection
unfoldable pub send_packet :
    SocketHandler → OutputPacket → Option (ℤ × OutputPacket × SocketHandler)
unfolding encrypt_buffer send
send_packet h o = do
  e ← encrypt_buffer o
  bytes ← packet_bytes e.1
  r ← tcp_send h bytes
  some (r.0, e.1, r.1)

module _ {S : Type 0} (process : Process S) where
  abbrev pub processed : ℤ × Packet × SocketHandler × S → Bool × Packet × State S
  processed (ret, q, h, s) = (eqb_ℤ ret (negsuc 0), q, some (h, s))

  -- `OnPacketComplete`, which the parser calls
  unfoldable pub on_packet_complete : OnPacket (State S)
  unfolding decrypt_buffer
  on_packet_complete p none = (true, p, none)
  on_packet_complete p (some s) = elim (decrypt_buffer p) [
    | none ↦ (true, p, none)
    | some (size, q) ↦ if size == minus_one then (true, q, some s) else processed (process q s)
  ]

  -- a result, the parser if there is one, and the state
  abbrev pub Parsed : Type 0
  Parsed = Option (ℤ × Option PacketParser × SocketHandler × S)

  abbrev pub parsed : parser.Result (State S) → Parsed
  parsed none = none
  parsed (some (ret, p, none)) = none
  parsed (some (ret, p, some (h, s))) = some (ret, some p, h, s)

  -- a request for the policy file, and any packet of its length that starts as one
  abbrev pub policy_asked : Option PacketParser → SocketHandler → S → List ℕ → Parsed
  policy_asked p h s buf =
      if equal_bytes buf policy_request
      then (do r ← tcp_send h policy_reply; some (negsuc 0, p, r.1, s))
      else some (negsuc 0, p, h, s)

  -- `OnParser`; `memory` is what a new parser's buffer holds
  unfoldable pub on_parser : List ℕ → Option PacketParser → SocketHandler → S → List ℕ → Parsed
  unfolding on_packet_complete parser.create parse_packet send
  on_parser memory p h s buf =
      let h1 = record h { status = request; timer_runs = false } in
      let q : PacketParser = elim p [ none ↦ parser.create memory | some q ↦ q ] in
      if length buf == 23 && get_or buf 0 0 == b'<' && get_or buf 1 0 == b'p'
      then policy_asked p h1 s buf
      else parsed (parse_packet on_packet_complete q (some (h1, s)) buf)

  -- what `handle_read` makes of the result of `OnParser`
  abbrev pub parsed_on : Parsed → (Option PacketParser → SocketHandler → S → Parsed) → Parsed
  parsed_on (some (pos zero, p, h, s)) next = next p h s
  parsed_on (some (ret, p, h, s)) next = some (negsuc 0, p, h, s)
  parsed_on none next = none

  -- the loop of `handle_read`
  unfoldable pub read_loop :
      List ℕ → List Received → Option PacketParser → SocketHandler → S → Parsed
  unfolding on_parser
  read_loop memory [] p h s = some (pos 0, p, h, s)
  read_loop memory (nothing_yet ∷ more) p h s = some (pos 0, p, h, s)
  read_loop memory (failed ∷ more) p h s = some (negsuc 0, p, h, s)
  read_loop memory (received [] ∷ more) p h s = some (negsuc 0, p, h, s)
  read_loop memory (received (b ∷ bytes) ∷ more) p h s =
      parsed_on (on_parser memory p h s (b ∷ bytes)) (λ p' h' s'.
        if ltb (length (b ∷ bytes)) recv_buffer_size
        then some (pos 0, p', h', s')
        else read_loop memory more p' h' s')

  -- `TcpHandler::handle_read`
  unfoldable pub handle_read :
      List ℕ → List Received → Option PacketParser → SocketHandler → S → Parsed
  unfolding read_loop
  handle_read memory answers p h s =
      if h.tcp.full then some (negsuc 0, p, h, s) else read_loop memory answers p h s
