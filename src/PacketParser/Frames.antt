-- ===== src/PacketParser/Frames.antt =====
-- What a well-formed frame does to a parser that waits for one.
use thero_logic_server.Base.{
  ℕ, suc, ◌+◌, ◌-◌, ◌<◌, ◌≡◌, refl, ap, ◌∙◌, lt→ltb, lt→leb_false, le→ltb_false, List, [], ◌∷◌,
  ◌++◌, append-nil, length, length-append, write_at, write_at-append, length-write_at,
  get_or-write_at, arith,
}
use thero_logic_server.Base.Int.{pos}
use thero_logic_server.Packet.{
  Packet, packet_header_size, packet_buffer_size, get_body_length, get_cmd_type, get_version,
  get_sub_version,
}
use thero_logic_server.Packet.Frames.{
  header_bytes, frame, get_cmd_type-frame, get_version-frame, get_sub_version-frame,
  get_body_length-frame,
}
use thero_logic_server.PacketParser.{
  req_request, req_body, PacketParser, OnPacket, put_byte, parse_header,
}
use thero_logic_server.PacketParser.Bytes.{
  grown, hand_over, header_fed, feed, feed_all, then_feed, feed_all-append, feed_all_at,
  then_feed_nil, InHeader, InBody,
}
use thero_logic_server.PacketParser.Body.{
  KeepsBlock, parse_header-SetsLength, put_byte-InHeader, feed_body,
}

-- a parser at the start of a packet
pub record IsFresh (p : PacketParser) : Type 0 where
  pub header : InHeader p
  pub start : p.packet_pos ≡ 0

-- the parser that has received some header bytes, and the one that has received a frame
abbrev headed : PacketParser → List ℕ → PacketParser
headed p xs =
    let r = p.packet in
    record p {
      packet = record r { buf = write_at p.packet.buf p.packet_pos xs };
      packet_pos = p.packet_pos + length xs;
    }

abbrev pub received : PacketParser → List ℕ → PacketParser
received p fr = record {
  status = req_body;
  packet_pos = length fr;
  body_len = length fr - 2;
  packet = record {
    buf = write_at p.packet.buf 0 fr;
    packet_size = length fr;
    buf_pos = packet_header_size;
  };
}

headed-headed : (p : PacketParser) (xs ys : List ℕ) → headed (headed p xs) ys ≡ headed p (xs ++ ys)
headed-headed p xs ys = ground (
  arith,
  write_at-append p.packet.buf p.packet_pos (p.packet_pos + length xs) xs ys refl,
  length-append xs ys,
)

parse_header_frame :
    (p : PacketParser) (size cmd code : ℕ)
    → length p.packet.buf ≡ packet_buffer_size
    → 0 < cmd
    → cmd < 32000
    → size < packet_buffer_size - 9
    → parse_header (record p {
      packet = record p.packet { buf = write_at p.packet.buf 0 (header_bytes size cmd code) };
    })
      ≡ (
        pos 0,
        record p {
          packet = record p.packet { buf = write_at p.packet.buf 0 (header_bytes size cmd code) };
          body_len = 7 + size;
        },
      )
unfolding parse_header
parse_header_frame p size cmd code b c d s =
    rw
      (
        get_or-write_at p.packet.buf hd 2 0 (omega arith) (omega arith),
        get_or-write_at p.packet.buf hd 3 0 (omega arith) (omega arith),
        command,
        version,
        sub_version,
        body_length,
      )
      (ground arith)
  where
    hd : List ℕ
    hd = header_bytes size cmd code

    q : Packet
    q = record p.packet { buf = write_at p.packet.buf 0 hd }

    command : get_cmd_type q ≡ cmd
    command = get_cmd_type-frame q p.packet.buf size cmd code [] refl (omega arith) (omega arith)

    version : get_version q ≡ 1
    version = get_version-frame q p.packet.buf size cmd code [] refl (omega arith)

    sub_version : get_sub_version q ≡ 1
    sub_version = get_sub_version-frame q p.packet.buf size cmd code [] refl (omega arith)

    body_length : get_body_length q ≡ 7 + size
    body_length =
        get_body_length-frame q p.packet.buf size cmd code [] refl (omega arith) (omega arith)

module _ {H : Type 0} (on_packet : OnPacket H) (keeps : KeepsBlock on_packet) where
  feed_header_run :
      (x : ℕ) (xs : List ℕ) (p : PacketParser) (h : H)
      → InHeader p
      → p.packet_pos + length (x ∷ xs) ≡ packet_header_size
      → feed_all on_packet parse_header p h (x ∷ xs)
        ≡ header_fed on_packet (parse_header (headed p (x ∷ xs))) h
  unfolding feed
  feed_header_run x [] p h v e =
      feed_all_at on_packet parse_header x [] p h req_request v.status
      ∙ then_feed_nil on_packet parse_header (feed on_packet parse_header req_request p h x)
      ∙ ground arith
  feed_header_run x (y ∷ xs) p h v e =
      feed_all_at on_packet parse_header x (y ∷ xs) p h req_request v.status
      ∙ rw (lt→ltb (p.packet_pos + 1) packet_header_size (omega arith)) (
          feed_header_run y xs (put_byte p x) h (put_byte-InHeader p x v (omega arith))
            (omega arith)
          ∙ ap (λ q. header_fed on_packet (parse_header q) h) (headed-headed p (x ∷ []) (y ∷ xs)))

  -- the data of a frame, behind its header
  feed_data :
      (p : PacketParser) (h : H) (body : List ℕ) (hd : List ℕ)
      → length p.packet.buf ≡ packet_buffer_size
      → length hd ≡ 9
      → length body < packet_buffer_size - 9
      → then_feed on_packet parse_header
          (header_fed on_packet
            (
              pos 0,
              record p {
                packet_pos = 9;
                body_len = 7 + length body;
                packet = record { buf = write_at p.packet.buf 0 hd; packet_size = 9; buf_pos = 9 };
              },
            )
            h)
          body
        ≡ hand_over on_packet (received p (hd ++ body)) h
  feed_data p h [] hd b l s =
      then_feed_nil on_packet parse_header _ ∙ ap (λ q. hand_over on_packet q h) empty
    where
      empty :
          record {
            status = req_body;
            packet_pos = 9;
            body_len = 7;
            packet = record { buf = write_at p.packet.buf 0 hd; packet_size = 9; buf_pos = 9 };
          }
          ≡ received p (hd ++ [])
      empty = rw (append-nil hd, l) refl
  feed_data p h (x ∷ xs) hd b l s = rw (lt→leb_false (7 + suc (length xs) + 2) 9 (omega arith)) (
      feed_body on_packet parse_header parse_header-SetsLength keeps x xs q h opened (omega arith)
      ∙ rw (le→ltb_false (9 + suc (length xs)) (7 + suc (length xs) + 2) (omega arith))
          (ap (λ t. hand_over on_packet t h) whole))
    where
      q : PacketParser
      q = record {
        status = req_body;
        packet_pos = 9;
        body_len = 7 + suc (length xs);
        packet = record { buf = write_at p.packet.buf 0 hd; packet_size = 9; buf_pos = 9 };
      }

      opened : InBody q
      opened = record {
        status = refl;
        within = omega arith;
        bounded = omega arith;
        size = refl;
        valid = record {
          block = length-write_at p.packet.buf 0 hd ∙ b;
          header = omega arith;
          size_in = omega arith;
          pos_from = omega arith;
          pos_in = omega arith;
        };
      }

      whole : grown q (x ∷ xs) ≡ received p (hd ++ (x ∷ xs))
      whole = ground (
        arith,
        write_at-append p.packet.buf 0 9 hd (x ∷ xs) (omega arith),
        length-append hd (x ∷ xs),
      )

  -- the bytewise parser on a whole frame
  pub feed_all-frame :
      (p : PacketParser) (h : H) (cmd code : ℕ) (body rest : List ℕ)
      → IsFresh p
      → 0 < cmd
      → cmd < 32000
      → length body < packet_buffer_size - 9
      → feed_all on_packet parse_header p h (frame cmd code body ++ rest)
        ≡ then_feed on_packet parse_header
            (hand_over on_packet (received p (frame cmd code body)) h)
            rest
  feed_all-frame p h cmd code body rest v c d s =
      feed_all-append on_packet parse_header (hd ++ body) rest p h
      ∙ ap (λ f. then_feed on_packet parse_header f rest)
          (feed_all-append on_packet parse_header hd body p h
            ∙ ap (λ f. then_feed on_packet parse_header f body) head
            ∙ feed_data p h body hd v.header.block refl s)
    where
      hd : List ℕ
      hd = header_bytes (length body) cmd code

      q0 : PacketParser
      q0 = record p {
        packet_pos = 9;
        packet = record { buf = p.packet.buf; packet_size = 9; buf_pos = 9 };
      }

      start : headed p hd ≡ record q0 {
        packet = record { buf = write_at p.packet.buf 0 hd; packet_size = 9; buf_pos = 9 };
      }
      start = rw (v.start, v.header.size, v.header.cursor) refl

      head :
          feed_all on_packet parse_header p h hd
          ≡ header_fed on_packet
              (
                pos 0,
                record p {
                  packet_pos = 9;
                  body_len = 7 + length body;
                  packet = record {
                    buf = write_at p.packet.buf 0 hd;
                    packet_size = 9;
                    buf_pos = 9;
                  };
                },
              )
              h
      head =
          feed_header_run _ _ p h v.header (omega (arith, v.start))
          ∙ ap (λ q. header_fed on_packet (parse_header q) h) start
          ∙ ap (λ r. header_fed on_packet r h)
              (parse_header_frame q0 (length body) cmd code v.header.block c d s)
