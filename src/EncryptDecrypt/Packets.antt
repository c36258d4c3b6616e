-- ===== src/EncryptDecrypt/Packets.antt =====
-- `DecryptBuffer` on what `EncryptBuffer` leaves.
use thero_logic_server.Base.{
  ◌>>=◌, ℕ, ◌+◌, ◌-◌, ◌%◌, ◌^◌, ◌≤◌, ◌<◌, ◌≡◌, refl, sym, ap, ◌∙◌, true, false, some, List, [], ◌∷◌,
  write_at, slice, length, map, arith, length-write_at, length-slice, length-map, slice-write_at,
  slice-write_at_before, slice-write_at_after, write_at_comm, write_at_over, write_at-slice,
}
use thero_logic_server.Base.Words.{int_sub, short_to_int, of_be}
use thero_logic_server.Packet.{
  Packet, packet_header_size, packet_buffer_size, get_body_length, get_check_code,
}
use thero_logic_server.EncryptDecrypt.{
  map_send_byte, encrypt_buffer, decrypt_buffer, data_size, rounds,
}
use thero_logic_server.EncryptDecrypt.RoundTrip.{
  AllBytes, sum, encrypt_loop_lem, decrypt_loop_lem, map_back,
}

-- A packet whose length field lies within the buffer, and whose data are bytes.
pub record IsWhole (p : Packet) : Type 0 where
  pub block : length p.buf ≡ packet_buffer_size
  pub length_in : get_body_length p + 2 ≤ packet_buffer_size
  pub bytes : AllBytes (slice p.buf packet_header_size (get_body_length p - 7))

rounds_lem : (len : ℕ) → len < 2 ^ 15 → rounds (int_sub (short_to_int len) 7) ≡ len - 7
rounds_lem len h = ground arith

module _ (p : Packet) (v : IsWhole p) where
  abbrev pub body : List ℕ
  body = slice p.buf packet_header_size (get_body_length p - 7)

  abbrev pub check_code : ℕ
  check_code = (256 - (0 + sum body) % 256) % 256

  abbrev mapped : List ℕ
  mapped = write_at p.buf packet_header_size (map map_send_byte body)

  abbrev pub sealed : Packet
  sealed = record p { buf = write_at mapped 8 (check_code ∷ []) }

  short : get_body_length p < 2 ^ 15
  short = omega (arith, v.length_in)

  within : packet_header_size + (get_body_length p - 7) ≤ length p.buf
  within = omega (arith, v.length_in, v.block)

  length-body : length body ≡ get_body_length p - 7
  length-body = omega (arith, within, length-slice p.buf packet_header_size (get_body_length p - 7))

  length-mapped : length (map map_send_byte body) ≡ get_body_length p - 7
  length-mapped = length-map body map_send_byte ∙ length-body

  -- `EncryptBuffer` of a fresh packet maps the data and writes the check code that makes their sum 0
  -- modulo 256.
  pub encrypt_buffer_lem :
      encrypt_buffer (record { packet = p; is_check_code = false })
      ≡ some (data_size p, record { packet = sealed; is_check_code = true })
  unfolding encrypt_buffer
  encrypt_buffer_lem =
      rw
        (
          rounds_lem (get_body_length p) short,
          encrypt_loop_lem (get_body_length p - 7) packet_header_size 0 p.buf within (omega arith),
        )
        refl

  length-sealed : length sealed.buf ≡ length p.buf
  length-sealed =
      length-write_at mapped 8 (check_code ∷ [])
      ∙ length-write_at p.buf packet_header_size (map map_send_byte body)

  sealed_length : get_body_length sealed ≡ get_body_length p
  unfolding get_body_length
  sealed_length =
      ap (λ t. of_be t 0)
        (slice-write_at_before mapped 0 8 2 (check_code ∷ []) (omega arith)
          ∙ slice-write_at_before p.buf 0 9 2 (map map_send_byte body) (omega arith))

  sealed_code : get_check_code sealed ≡ check_code
  unfolding get_check_code
  sealed_code =
      ap (λ t. of_be t 0)
        (slice-write_at mapped 8 (check_code ∷ []) (
          omega
            (arith, length-write_at p.buf packet_header_size (map map_send_byte body), v.block)))
      ∙ omega arith

  sealed_body : slice sealed.buf packet_header_size (get_body_length p - 7) ≡ map map_send_byte body
  sealed_body =
      slice-write_at_after mapped packet_header_size 8 (get_body_length p - 7) (check_code ∷ [])
        (omega arith)
      ∙ ap (slice mapped packet_header_size) (sym length-mapped)
      ∙ slice-write_at p.buf packet_header_size (map map_send_byte body)
          (omega (arith, length-mapped, within))

  restored : write_at sealed.buf packet_header_size body ≡ write_at p.buf 8 (check_code ∷ [])
  restored =
      write_at_comm mapped 8 packet_header_size (check_code ∷ []) body (omega arith)
      ∙ ap (λ t. write_at t 8 (check_code ∷ []))
          (write_at_over p.buf packet_header_size (map map_send_byte body) body
              (length-mapped ∙ sym length-body)
            ∙ write_at-slice p.buf packet_header_size (get_body_length p - 7))

  code_zero : (check_code + sum body) % 256 ≡ 0
  code_zero = omega arith

  -- `DecryptBuffer` gives the data back, and accepts them.
  pub decrypt_buffer_lem :
      decrypt_buffer sealed
      ≡ some (data_size p, record p { buf = write_at p.buf 8 (check_code ∷ []) })
  unfolding decrypt_buffer
  decrypt_buffer_lem =
      rw
        (
          sealed_length,
          sealed_code,
          rounds_lem (get_body_length p) short,
          decrypt_loop_lem (get_body_length p - 7) packet_header_size check_code sealed.buf
              (omega (arith, within, length-sealed)) (omega arith),
          sealed_body,
          map_back body v.bytes,
          restored,
          code_zero,
        )
        refl

  -- `DecryptBuffer` undoes `EncryptBuffer`: of a packet that is not sealed yet, `DecryptBuffer` of what `EncryptBuffer`
  -- leaves accepts the check code, returns the number of data bytes, and gives the packet back as it was but for the
  -- check code in its header, which is the negated sum of the data modulo 256. The conditions are that the length field
  -- lies within the buffer, and that the data are bytes.
  pub decrypt_buffer-encrypt_buffer :
      (do
        e ← encrypt_buffer (record { packet = p; is_check_code = false })
        decrypt_buffer e.1.packet)
      ≡ some (data_size p, record p { buf = write_at p.buf 8 (check_code ∷ []) })
  decrypt_buffer-encrypt_buffer = rw encrypt_buffer_lem decrypt_buffer_lem
