-- ===== src/PacketParser.antt =====
-- GameLib/PacketParser.cpp, class `CPacketParser`: the state machine that cuts packets out of the bytes
-- that a connection receives.
-- The bytes still unread are a list, so `ndx < length` is that it is not empty. `size_t` has 64 bits.
-- `m_pHandler->OnPacketComplete` is virtual: it is an argument, a function of the packet and of the
-- handler's state. It says whether it returned -1, and gives the packet that it may have changed.
pub mod Bytes
pub mod Body
pub mod Header
pub mod Chunks
pub mod Ready
pub mod Frames
pub mod Whole
pub mod Handlers
mod Tests
use thero_logic_server.Base.{
  ℕ, zero, suc, ◌+◌, ◌-◌, ◌*◌, ◌%◌, ◌^◌, Bool, true, false, not, ◌&&◌, ◌||◌, ltb, leb, ◌==◌,
  if◌then◌else◌, Option, none, some, ◌>>=◌, List, [], ◌∷◌, length, take, drop, get_or, write_at,
  replicate,
}
use thero_logic_server.Base.Int.{ℤ, pos, negsuc}
use thero_logic_server.Packet.{
  Packet, packet_header_size, packet_buffer_size, get_cmd_type, get_version, get_sub_version,
  get_body_length, write, server_packet_default_ver, server_packet_default_subver,
}
use thero_logic_server.Packet as packet

pub data Status : Type 0 where
  req_request req_header req_body req_done req_process req_error : Status

pub record PacketParser : Type 0 where
  pub status : Status
  pub packet_pos : ℕ
  pub body_len : ℕ
  pub packet : Packet

-- what `OnPacketComplete` does: whether the result is -1, the packet, the handler
abbrev pub OnPacket : Type 0 → Type 0
OnPacket H = Packet → H → Bool × Packet × H

-- `CPacketParser::reset`
abbrev pub reset : PacketParser → PacketParser
reset p = record {
  status = req_request;
  packet_pos = 0;
  body_len = 0;
  packet = packet.reset p.packet;
}

-- `CPacketParser::CPacketParser`. The buffer's first content is whatever was in memory.
unfoldable pub create : List ℕ → PacketParser
create memory = reset (record {
  status = req_request;
  packet_pos = 0;
  body_len = 0;
  packet = record { buf = memory; packet_size = 0; buf_pos = 0 };
})

-- `m_pBuf[m_nPacketPos++] = b`
abbrev pub put_byte : PacketParser → ℕ → PacketParser
put_byte p b =
    let r = p.packet in
    record p {
      packet = record r { buf = write_at p.packet.buf p.packet_pos (b ∷ []) };
      packet_pos = p.packet_pos + 1;
    }

-- the loop of `read_header`: the parser and the bytes left
unfoldable pub read_header_loop : PacketParser → List ℕ → PacketParser × List ℕ
read_header_loop p [] = (p, [])
read_header_loop p (b ∷ bytes) =
    let rest = read_header_loop (put_byte p b) bytes in
    if ltb p.packet_pos packet_header_size then rest else (p, b ∷ bytes)

-- a `short` as a `size_t`: a negative one becomes huge
abbrev pub short_to_size : ℕ → ℕ
short_to_size n = if ltb n (2 ^ 15) then n else n + 2 ^ 64 - 2 ^ 16

abbrev pub check_length : PacketParser → ℤ × PacketParser
check_length p =
    let len = short_to_size (get_body_length p.packet) in
    (if ltb len (packet_buffer_size - 2) then pos 0 else negsuc 3, record p { body_len = len })

-- `parse_header`: 0, or -1 for the magic bytes, -2 for the command, -3 for the version, -4 for the
-- length
unfoldable pub parse_header : PacketParser → ℤ × PacketParser
unfolding get_cmd_type get_version get_sub_version get_body_length
parse_header p =
    let cmd = get_cmd_type p.packet in
    if not (get_or p.packet.buf 2 0 == b'B') || not (get_or p.packet.buf 3 0 == b'Y')
    then (negsuc 0, p)
    else if cmd == 0 || leb (2 ^ 15) cmd || leb 32000 cmd
    then (negsuc 1, p)
    else if not (get_version p.packet == server_packet_default_ver)
        || not (get_sub_version p.packet == server_packet_default_subver)
    then (negsuc 2, p)
    else check_length p

-- `parse_Proxy_header`
unfoldable pub parse_proxy_header : PacketParser → ℤ × PacketParser
unfolding get_body_length
parse_proxy_header p = check_length p

-- `(m_nBodyLen+2) - m_nPacketPos` as a `size_t`, cut to an `int`
abbrev pub needed : PacketParser → ℕ
needed p = (p.body_len + 2 + 2 ^ 64 - p.packet_pos) % 2 ^ 64 % 2 ^ 32

-- the part of `parse_body` behind `WriteBody`
abbrev pub body_written : PacketParser → List ℕ → ℕ → Bool × Packet → Bool × PacketParser × List ℕ
body_written p bytes n (false, r) = (false, p, bytes)
body_written p bytes n (true, r) =
    let q = record p { packet = r; packet_pos = (p.packet_pos + n) % 2 ^ 64 } in
    (not (ltb q.packet_pos (q.body_len + 2)), q, drop n bytes)

-- `parse_body`: whether the body is complete, the parser, and the bytes left
unfoldable pub parse_body : PacketParser → List ℕ → Option (Bool × PacketParser × List ℕ)
parse_body p bytes =
    if needed p == 0 || leb (2 ^ 31) (needed p)
    then some (true, p, bytes)
    else if length bytes == 0
    then some (false, p, bytes)
    else (do
      let n = if ltb (length bytes) (needed p) then length bytes else needed p
      r ← write p.packet (take n bytes)
      some (body_written p bytes n r))

-- what one round of the loop leads to: the next round, or a return
pub data Round (H : Type 0) : Type 0 where
  go_on : PacketParser → H → List ℕ → Round H
  return : ℤ → PacketParser → H → Round H

abbrev pub Result : Type 0 → Type 0
Result H = Option (ℤ × PacketParser × H)

abbrev pub stopped : Status → Bool
stopped req_error = true
stopped _ = false

module _ {H : Type 0} where
  -- a complete packet is handed over, and the parser is reset unless the handler returned -1
  abbrev pub deliver : OnPacket H → PacketParser → H → List ℕ → Round H
  deliver on_packet p h bytes =
      let (refused, r, h') = on_packet p.packet h in
      let done = record p { status = req_done; packet = r } in
      if refused then return (negsuc 0) done h' else go_on (reset done) h' bytes

  abbrev pub body_round : OnPacket H → H → Bool × PacketParser × List ℕ → Round H
  body_round on_packet h (true, p, bytes) = deliver on_packet p h bytes
  body_round on_packet h (false, p, bytes) = go_on p h bytes

  -- the body's case of the switch, and what follows the switch
  abbrev pub in_body : OnPacket H → PacketParser → H → List ℕ → Option (Round H)
  in_body on_packet p h bytes = do r ← parse_body p bytes; some (body_round on_packet h r)

  abbrev pub header_parsed : OnPacket H → ℤ × PacketParser → H → List ℕ → Option (Round H)
  header_parsed on_packet (pos zero, p) h bytes =
      in_body on_packet (record p { status = req_body }) h bytes
  header_parsed on_packet (ret, p) h bytes = some (return ret (record p { status = req_error }) h)

  -- the header's case of the switch, which falls through to the body's
  abbrev pub in_header :
      OnPacket H → (PacketParser → ℤ × PacketParser) → H → PacketParser × List ℕ → Option (Round H)
  in_header on_packet header h (p, bytes) =
      if ltb p.packet_pos packet_header_size
      then some (go_on p h bytes)
      else header_parsed on_packet (header p) h bytes

  unfoldable pub round :
      OnPacket H
      → (PacketParser → ℤ × PacketParser)
      → Status
      → PacketParser
      → H
      → List ℕ
      → Option (Round H)
  unfolding read_header_loop parse_body
  round on_packet header req_request p h bytes =
      in_header on_packet header h (read_header_loop p bytes)
  round on_packet header req_header p h bytes =
      in_header on_packet header h (read_header_loop p bytes)
  round on_packet header req_body p h bytes = in_body on_packet p h bytes
  round on_packet header _ p h bytes = some (return (negsuc 0) p h)

  -- The loop. Each round of a well-formed parser reads a byte at least, so more fuel than bytes is
  -- enough; `none` is a fault, or that the fuel ran out.
  unfoldable pub parse_loop :
      OnPacket H → (PacketParser → ℤ × PacketParser) → ℕ → PacketParser → H → List ℕ → Result H
  parse_loop on_packet header fuel p h [] = some (pos 0, p, h)
  parse_loop on_packet header zero p h (b ∷ bytes) = none
  parse_loop on_packet header (suc fuel) p h (b ∷ bytes) = elim (stopped p.status) [
    | true ↦ some (pos 0, p, h)
    | false ↦ (do
      r ← round on_packet header p.status p h (b ∷ bytes)
      elim r [
        | go_on p' h' bytes' ↦ parse_loop on_packet header fuel p' h' bytes'
        | return ret p' h' ↦ some (ret, p', h')
      ])
  ]

  -- `ParsePacket`
  unfoldable pub parse_packet : OnPacket H → PacketParser → H → List ℕ → Result H
  unfolding parse_loop parse_header round
  parse_packet on_packet p h bytes = parse_loop on_packet parse_header (length bytes + 1) p h bytes

  -- `ParseProxyPacket`
  unfoldable pub parse_proxy_packet : OnPacket H → PacketParser → H → List ℕ → Result H
  unfolding parse_loop parse_proxy_header round
  parse_proxy_packet on_packet p h bytes =
      parse_loop on_packet parse_proxy_header (length bytes + 1) p h bytes
