-- ===== src/EncryptDecrypt/Tests.antt =====
-- Runs of the encryption on small inputs.
use thero_logic_server.Base.{
  ◌>>=◌, ℕ, ◌≡◌, refl, true, false, some, List, [], ◌∷◌, map, length, replicate, length-replicate,
  write_at, arith,
}
use thero_logic_server.Base.Words.{minus_one}
use thero_logic_server.Packet.{Packet, packet_buffer_size}
use thero_logic_server.Packet.Frames.{frame}
use thero_logic_server.EncryptDecrypt.{
  map_send_byte, map_recv_byte, encrypt_buffer, decrypt_buffer, data_size,
}
use thero_logic_server.EncryptDecrypt.Packets.{IsWhole, check_code, decrypt_buffer-encrypt_buffer}
use thero_logic_server.EncryptDecrypt.Frames.{frame-IsWhole}

-- a packet whose array is cut short, to run the code on
abbrev plain : Packet
plain = record { buf = frame 1001 0 (1 ∷ 255 ∷ 7 ∷ []); packet_size = 12; buf_pos = 9 }

encrypt_run :
    encrypt_buffer (record { packet = plain; is_check_code = false })
    ≡ some (
      3,
      record {
        packet = record plain { buf = frame 1001 249 (map map_send_byte (1 ∷ 255 ∷ 7 ∷ [])) };
        is_check_code = true;
      },
    )
unfolding encrypt_buffer
encrypt_run = refl

-- an encrypted packet is left alone
encrypt_again :
    encrypt_buffer (record { packet = plain; is_check_code = true })
    ≡ some (0, record { packet = plain; is_check_code = true })
unfolding encrypt_buffer
encrypt_again = refl

decrypt_run :
    decrypt_buffer (record plain { buf = frame 1001 249 (map map_send_byte (1 ∷ 255 ∷ 7 ∷ [])) })
    ≡ some (3, record plain { buf = frame 1001 249 (1 ∷ 255 ∷ 7 ∷ []) })
unfolding decrypt_buffer map_recv_byte map_send_byte
decrypt_run = refl

decrypt_wrong_code :
    decrypt_buffer (record plain { buf = frame 1001 248 (map map_send_byte (1 ∷ 255 ∷ 7 ∷ [])) })
    ≡ some (minus_one, record plain { buf = frame 1001 248 (1 ∷ 255 ∷ 7 ∷ []) })
unfolding decrypt_buffer map_recv_byte map_send_byte
decrypt_wrong_code = refl

abbrev block : List ℕ
block = replicate packet_buffer_size 0

length-block : length block ≡ packet_buffer_size
length-block = length-replicate packet_buffer_size (let z : ℕ = 0 in z)

abbrev whole : Packet
whole = record {
  buf = write_at block 0 (frame 1001 0 (1 ∷ 255 ∷ 7 ∷ []));
  packet_size = 12;
  buf_pos = 9;
}

whole-IsWhole : IsWhole whole
whole-IsWhole =
    frame-IsWhole whole block 1001 0 (1 ∷ 255 ∷ 7 ∷ []) refl length-block (omega arith)
      (omega arith, (omega arith, (omega arith, tt)))

decrypt_buffer-encrypt_buffer_example :
    (do
      e ← encrypt_buffer (record { packet = whole; is_check_code = false })
      decrypt_buffer e.1.packet)
    ≡ some (
      data_size whole,
      record whole { buf = write_at whole.buf 8 (check_code whole whole-IsWhole ∷ []) },
    )
decrypt_buffer-encrypt_buffer_example = decrypt_buffer-encrypt_buffer whole whole-IsWhole
