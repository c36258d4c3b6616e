-- ===== src/PacketParser/Tests.antt =====
-- Runs of the parser on small inputs.
use thero_logic_server.Base.{
  ℕ, ◌+◌, ◌≡◌, refl, inl, false, some, List, [], ◌∷◌, ◌++◌, replicate, length-replicate, arith,
}
use thero_logic_server.Base.Int.{pos}
use thero_logic_server.Packet.{packet_buffer_size, write}
use thero_logic_server.Packet.Frames.{frame}
use thero_logic_server.PacketParser.{req_request, PacketParser, OnPacket, parse_body, parse_packet}
use thero_logic_server.PacketParser.Bytes.{InHeader}
use thero_logic_server.PacketParser.Body.{KeepsBlock}
use thero_logic_server.PacketParser.Ready.{parse_chunks, parse_chunks-joined}
use thero_logic_server.PacketParser.Frames.{IsFresh, received}
use thero_logic_server.PacketParser.Whole.{handed, parse_packet-frame}

abbrev block : List ℕ
block = replicate packet_buffer_size 0

abbrev fresh : PacketParser
fresh = record {
  status = req_request;
  packet_pos = 0;
  body_len = 0;
  packet = record { buf = block; packet_size = 9; buf_pos = 9 };
}

-- a handler that counts the packets, and refuses none
abbrev count_packet : OnPacket ℕ
count_packet r n = (false, r, n + 1)

count_packet-KeepsBlock : KeepsBlock count_packet
count_packet-KeepsBlock r n h = h

fresh-InHeader : InHeader fresh
fresh-InHeader = record {
  status = refl;
  within = omega arith;
  block = length-replicate packet_buffer_size (let z : ℕ = 0 in z);
  size = refl;
  cursor = refl;
}

fresh-IsFresh : IsFresh fresh
fresh-IsFresh = record { header = fresh-InHeader; start = refl }

-- two packets with command 1001, the second cut short
abbrev bytes : List ℕ
bytes = frame 1001 0 (1 ∷ 2 ∷ []) ++ (0 ∷ 9 ∷ b'B' ∷ [])

-- a parser whose array is cut short, to run the code on
abbrev small : PacketParser
small = record fresh { packet = record { buf = replicate 12 0; packet_size = 9; buf_pos = 9 } }

-- the packet is counted, and three bytes of the next one are kept
parse_run :
    parse_packet count_packet small 5 bytes
    ≡ some (
      pos 0,
      record small {
        packet_pos = 3;
        packet = record {
          buf = 0 ∷ 9 ∷ b'B' ∷ b'Y' ∷ 1 ∷ 1 ∷ 3 ∷ 233 ∷ 0 ∷ 1 ∷ 2 ∷ 0 ∷ [];
          packet_size = 9;
          buf_pos = 9;
        };
      },
      6,
    )
unfolding parse_packet parse_body write
parse_run = refl

parse_chunks-joined_example :
    parse_chunks count_packet fresh 5 ((0 ∷ []) ∷ (9 ∷ b'B' ∷ []) ∷ bytes ∷ [])
    ≡ parse_packet count_packet fresh 5 (0 ∷ 9 ∷ b'B' ∷ (bytes ++ []))
parse_chunks-joined_example =
    parse_chunks-joined count_packet count_packet-KeepsBlock fresh 5
      ((0 ∷ []) ∷ (9 ∷ b'B' ∷ []) ∷ bytes ∷ []) (inl fresh-InHeader)

parse_packet-frame_example :
    parse_packet count_packet fresh 5 (frame 1001 0 (1 ∷ 2 ∷ []) ++ (0 ∷ []))
    ≡ handed count_packet
        (received fresh (frame 1001 0 (1 ∷ 2 ∷ [])))
        (0 ∷ [])
        (count_packet (received fresh (frame 1001 0 (1 ∷ 2 ∷ []))).packet 5)
parse_packet-frame_example =
    parse_packet-frame count_packet count_packet-KeepsBlock fresh 5 1001 0 (1 ∷ 2 ∷ []) (0 ∷ [])
      fresh-IsFresh (omega arith) (omega arith) (omega arith)
