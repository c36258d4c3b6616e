-- ===== src/EncryptDecrypt/Frames.antt =====
-- Encryption and decryption of a packet that is laid out as a frame.
use thero_logic_server.Base.{
  ℕ, ◌+◌, ◌-◌, ◌%◌, ◌≤◌, ◌≡◌, refl, sym, ap, ◌∙◌, true, false, some, List, [], ◌∷◌, ◌++◌, map,
  write_at, write_at-slice, slice, slice_zero, slice-write_at_in, slice_eq, length, length-map,
  length-write_at, write_at_comm, write_at_over, write_at-append, arith,
}
use thero_logic_server.Base.Words.{be16}
use mathlib.Core.Path.{subst}
use thero_logic_server.Packet.{Packet, packet_buffer_size, get_body_length}
use thero_logic_server.Packet.Frames.{frame, header_bytes, get_body_length-frame, body-frame}
use thero_logic_server.EncryptDecrypt.{map_send_byte, encrypt_buffer, decrypt_buffer, data_size}
use thero_logic_server.EncryptDecrypt.RoundTrip.{AllBytes, sum}
use thero_logic_server.EncryptDecrypt.Packets.{
  IsWhole, sealed, encrypt_buffer_lem, decrypt_buffer_lem,
}

-- the check code of some data
abbrev pub code_of : List ℕ → ℕ
code_of xs = (256 - (0 + sum xs) % 256) % 256

-- A block whose check code and data are written over.
reseal :
    (m hd xs sent : List ℕ) (c k : ℕ)
    → length hd ≡ 8
    → length xs ≡ length sent
    → write_at (write_at (write_at m 0 (hd ++ (c ∷ xs))) 9 sent) 8 (k ∷ [])
      ≡ write_at m 0 (hd ++ (k ∷ sent))
reseal m hd xs sent c k h e =
    ap (λ t. write_at (write_at t 9 sent) 8 (k ∷ []))
      (sym (write_at-append m 0 8 hd (c ∷ xs) (omega arith))
        ∙ sym (write_at-append (write_at m 0 hd) 8 9 (c ∷ []) xs (omega arith)))
    ∙ ap (λ t. write_at t 8 (k ∷ [])) (write_at_over _ 9 xs sent e)
    ∙ sym (write_at_comm _ 8 9 (k ∷ []) sent (omega arith))
    ∙ ap (λ t. write_at t 9 sent) (write_at_over (write_at m 0 hd) 8 (c ∷ []) (k ∷ []) refl)
    ∙ write_at-append (write_at m 0 hd) 8 9 (k ∷ []) sent (omega arith)
    ∙ write_at-append m 0 8 hd (k ∷ sent) (omega arith)

module _ (p : Packet) (m : List ℕ) (cmd c : ℕ) (xs : List ℕ)
    (laid : p.buf ≡ write_at m 0 (frame cmd c xs)) (block : length m ≡ packet_buffer_size)
    (room : 9 + length xs ≤ packet_buffer_size) (bytes : AllBytes xs) where
  size_lem : get_body_length p ≡ 7 + length xs
  size_lem = get_body_length-frame p m (length xs) cmd c xs laid (omega arith) (omega arith)

  data_lem : slice p.buf 9 (get_body_length p - 7) ≡ xs
  data_lem =
      slice_eq p.buf 9 9 _ (length xs) refl (omega (arith, size_lem))
      ∙ body-frame p m (length xs) cmd c xs laid (omega arith)

  pub frame-IsWhole : IsWhole p
  frame-IsWhole = record {
    block = ap length laid ∙ length-write_at m 0 (frame cmd c xs) ∙ block;
    length_in = omega (arith, size_lem);
    bytes = subst AllBytes (sym data_lem) bytes;
  }

  pub sealed-frame :
      (sealed p frame-IsWhole).buf ≡ write_at m 0 (frame cmd (code_of xs) (map map_send_byte xs))
  sealed-frame =
      ap (λ t. write_at (write_at p.buf 9 (map map_send_byte t)) 8 (code_of t ∷ [])) data_lem
      ∙ ap (λ b. write_at (write_at b 9 (map map_send_byte xs)) 8 (code_of xs ∷ [])) laid
      ∙ reseal m (be16 (7 + length xs) ++ (b'B' ∷ b'Y' ∷ 1 ∷ 1 ∷ be16 cmd)) xs
          (map map_send_byte xs) c (code_of xs) refl (sym (length-map xs map_send_byte))
      ∙ ap (λ n. write_at m 0 (header_bytes n cmd (code_of xs) ++ map map_send_byte xs))
          (sym (length-map xs map_send_byte))

-- `EncryptBuffer` of a frame is the frame of the mapped data, with their check code.
pub encrypt_buffer-frame :
    (m : List ℕ) (s t cmd c : ℕ) (xs : List ℕ)
    → length m ≡ packet_buffer_size
    → 9 + length xs ≤ packet_buffer_size
    → AllBytes xs
    → (r : ℕ) × (encrypt_buffer (record {
      packet = record { buf = write_at m 0 (frame cmd c xs); packet_size = s; buf_pos = t };
      is_check_code = false;
    })
        ≡ some (
          r,
          record {
            packet = record {
              buf = write_at m 0 (frame cmd (code_of xs) (map map_send_byte xs));
              packet_size = s;
              buf_pos = t;
            };
            is_check_code = true;
          },
        ))
encrypt_buffer-frame m s t cmd c xs b h a = (
  data_size p,
  encrypt_buffer_lem p v
      ∙ ap
          (λ b. some (
            data_size p,
            record {
              packet = record { buf = b; packet_size = s; buf_pos = t };
              is_check_code = true;
            },
          ))
          (sealed-frame p m cmd c xs refl b h a),
)
  where
    p : Packet
    p = record { buf = write_at m 0 (frame cmd c xs); packet_size = s; buf_pos = t }

    v : IsWhole p
    v = frame-IsWhole p m cmd c xs refl b h a

-- `DecryptBuffer` of a frame of mapped data, with their check code, is the frame of the data.
pub decrypt_buffer-frame :
    (m : List ℕ) (s t cmd : ℕ) (xs : List ℕ)
    → length m ≡ packet_buffer_size
    → 9 + length xs ≤ packet_buffer_size
    → AllBytes xs
    → decrypt_buffer (record {
      buf = write_at m 0 (frame cmd (code_of xs) (map map_send_byte xs));
      packet_size = s;
      buf_pos = t;
    })
      ≡ some (
        data_size (record {
          buf = write_at m 0 (frame cmd (code_of xs) xs);
          packet_size = s;
          buf_pos = t;
        }),
        record { buf = write_at m 0 (frame cmd (code_of xs) xs); packet_size = s; buf_pos = t },
      )
decrypt_buffer-frame m s t cmd xs b h a =
    sym (
      ap (λ b. decrypt_buffer (record { buf = b; packet_size = s; buf_pos = t }))
        (sealed-frame p m cmd (code_of xs) xs refl b h a))
    ∙ decrypt_buffer_lem p v
    ∙ ap (λ b. some (data_size p, record { buf = b; packet_size = s; buf_pos = t }))
        (ap (λ d. write_at p.buf 8 (code_of d ∷ [])) (data_lem p m cmd (code_of xs) xs refl b h a)
          ∙ ap (write_at p.buf 8) (sym code_there)
          ∙ write_at-slice p.buf 8 1)
  where
    p : Packet
    p = record { buf = write_at m 0 (frame cmd (code_of xs) xs); packet_size = s; buf_pos = t }

    v : IsWhole p
    v = frame-IsWhole p m cmd (code_of xs) xs refl b h a

    code_there : slice p.buf 8 1 ≡ code_of xs ∷ []
    code_there =
        slice-write_at_in m (frame cmd (code_of xs) xs) 8 1 (omega arith) (omega arith)
        ∙ ap (◌∷◌ (code_of xs)) (slice_zero xs 0)
