-- ===== src/SocketHandler/Tests.antt =====
-- Runs of a connection, and two packets that are sent and arrive.
use thero_logic_server.Base.{
  ℕ, ◌≡◌, refl, true, false, none, some, List, [], ◌∷◌, map, length, take, drop, ◌==◌,
  if◌then◌else◌, replicate, length-replicate, arith,
}
use thero_logic_server.Base.Int.{pos, negsuc}
use thero_logic_server.Packet.{packet_buffer_size}
use thero_logic_server.Packet.Output.{OutputPacket, int, short, str}
use thero_logic_server.Packet.Reads.{Kind, an_int, a_str, a_short}
use thero_logic_server.TcpHandler.{create}
use thero_logic_server.PacketParser.{req_request, PacketParser}
use thero_logic_server.PacketParser.Frames.{IsFresh}
use thero_logic_server.SocketHandler.{SocketHandler, connect, request, on_parser}
use thero_logic_server.SocketHandler.Reads.{reads}
use thero_logic_server.SocketHandler.Messages.{Message, note_packet, entry}
use thero_logic_server.SocketHandler.Delivery.{
  AllSendable, all_wires, transmitted_all_lem, sent-arrives,
}

abbrev block : List ℕ
block = replicate packet_buffer_size 0

length-block : length block ≡ packet_buffer_size
length-block = length-replicate packet_buffer_size (let z : ℕ = 0 in z)

abbrev object : OutputPacket
object = record {
  packet = record { buf = block; packet_size = 0; buf_pos = 0 };
  is_check_code = false;
}

abbrev kinds : ℕ → List Kind
kinds cmd = if cmd == 1001 then an_int ∷ a_str ∷ [] else a_short ∷ []

abbrev messages : List Message
messages =
    record { packet = object; cmd = 1001; fields = int 70000 ∷ str (104 ∷ 105 ∷ []) ∷ [] }
    ∷ record { packet = object; cmd = 1002; fields = short 3 ∷ [] }
    ∷ []

messages-AllSendable : AllSendable kinds messages
messages-AllSendable = (
  record {
    block = length-block;
    some_cmd = omega arith;
    legal_cmd = omega arith;
    room = omega arith;
    bytes = (
      omega arith,
      (
        omega arith,
        (
          omega arith,
          (
            omega arith,
            (
              omega arith,
              (
                omega arith,
                (omega arith, (omega arith, (omega arith, (omega arith, (omega arith, tt))))),
              ),
            ),
          ),
        ),
      ),
    );
    in_range = (omega arith, ((ground arith, (ground arith, tt)), tt));
    known = refl;
  },
  (
    record {
      block = length-block;
      some_cmd = omega arith;
      legal_cmd = omega arith;
      room = omega arith;
      bytes = (omega arith, (omega arith, tt));
      in_range = (omega arith, tt);
      known = refl;
    },
    tt,
  ),
)

abbrev fresh : PacketParser
fresh = record {
  status = req_request;
  packet_pos = 0;
  body_len = 0;
  packet = record { buf = block; packet_size = 9; buf_pos = 9 };
}

fresh-IsFresh : IsFresh fresh
fresh-IsFresh = record {
  header = record {
    status = refl;
    within = omega arith;
    block = length-block;
    size = refl;
    cursor = refl;
  };
  start = refl;
}

abbrev handler : SocketHandler
handler = record { tcp = create; answers = []; status = connect; timer_runs = true; handler_id = 1 }

-- a request of the policy file's length that is no such request
on_parser_refuses :
    on_parser (note_packet kinds) [] none handler [] (b'<' ∷ b'p' ∷ replicate 21 0)
    ≡ some (negsuc 0, none, record handler { status = request; timer_runs = false }, [])
unfolding on_parser
on_parser_refuses = refl

-- all bytes in two chunks
abbrev chunks : List (List ℕ)
chunks = take 3 (all_wires messages) ∷ drop 3 (all_wires messages) ∷ []

sent-arrives_example :
    (p' : PacketParser) × IsFresh p'
    × (reads (note_packet kinds) [] chunks (some fresh) handler []
        ≡ some (
          pos 0,
          some p',
          record handler { status = request; timer_runs = false },
          map entry messages,
        ))
unfolding create
sent-arrives_example =
    sent-arrives kinds messages [] chunks fresh handler [] messages-AllSendable fresh-IsFresh refl
      (refl, (refl, tt)) (transmitted_all_lem kinds messages messages-AllSendable)
