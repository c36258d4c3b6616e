-- ===== src/Packet/Frames.antt =====
-- The layout of a packet on the wire, and what `Begin`, `BuildPackage` and the header's getters make of it.
use thero_logic_server.Base.{
  ℕ, ◌+◌, ◌^◌, ◌≤◌, ◌<◌, ◌≡◌, refl, sym, ap, ◌∙◌, false, some, List, [], ◌∷◌, ◌++◌, length,
  length-append, append_assoc, slice, slice_zero, write_at, length-write_at, slice-write_at_in,
  write_at_comm, write_at-append, slice-take-drop, take_all, arith,
}
use thero_logic_server.Base.Words.{be16, of_be, of_be-be16, int_sub}
use thero_logic_server.Packet.{
  Packet, packet_buffer_size, packet_header_size, get_body_length, get_cmd_type, get_check_code,
  get_version, get_sub_version, begin, end,
}
use thero_logic_server.Packet.Output.{OutputPacket, Field, begin_packet, end_packet, build_package}
use thero_logic_server.Packet.Access.{IsValid, appended}
use thero_logic_server.Packet.Fields.{encode_all, write_fields_fits}

-- A header: the length, "BY", version 1, sub-version 1, the command, the check code.
abbrev pub header_bytes : ℕ → ℕ → ℕ → List ℕ
header_bytes size cmd code = be16 (7 + size) ++ (b'B' ∷ b'Y' ∷ 1 ∷ 1 ∷ (be16 cmd ++ (code ∷ [])))

abbrev pub frame : ℕ → ℕ → List ℕ → List ℕ
frame cmd code body = header_bytes (length body) cmd code ++ body

single : (n : ℕ) → 0 + n ≡ n
single n = omega arith

-- The header's getters, on a block that starts with such a header.
module _ (p : Packet) (m : List ℕ) (size cmd code : ℕ) (body : List ℕ)
    (laid : p.buf ≡ write_at m 0 (header_bytes size cmd code ++ body))
    (room : 9 + length body ≤ length m) where
  header_slice :
      (i n : ℕ) → i + n ≤ 9 → slice p.buf i n ≡ slice (header_bytes size cmd code ++ body) i n
  header_slice i n h =
      ap (λ b. slice b i n) laid
      ∙ slice-write_at_in m (header_bytes size cmd code ++ body) i n (omega arith) (omega arith)

  pub get_body_length-frame : size < 2 ^ 15 → get_body_length p ≡ 7 + size
  unfolding get_body_length
  get_body_length-frame h =
      ap (λ t. of_be t 0) (header_slice 0 2 (omega arith)) ∙ of_be-be16 (7 + size) (omega arith)

  pub get_cmd_type-frame : cmd < 2 ^ 16 → get_cmd_type p ≡ cmd
  unfolding get_cmd_type
  get_cmd_type-frame h = ap (λ t. of_be t 0) (header_slice 6 2 (omega arith)) ∙ of_be-be16 cmd h

  pub get_version-frame : get_version p ≡ 1
  unfolding get_version
  get_version-frame = ap (λ t. of_be t 0) (header_slice 4 1 (omega arith))

  pub get_sub_version-frame : get_sub_version p ≡ 1
  unfolding get_sub_version
  get_sub_version-frame = ap (λ t. of_be t 0) (header_slice 5 1 (omega arith))

  pub get_check_code-frame : get_check_code p ≡ code
  unfolding get_check_code
  get_check_code-frame =
      ap (λ t. of_be t 0) (header_slice 8 1 (omega arith))
      ∙ ap (λ t. of_be (code ∷ t) 0) (slice_zero body 0)
      ∙ single code

  pub body-frame : slice p.buf packet_header_size (length body) ≡ body
  body-frame =
      ap (λ b. slice b 9 (length body)) laid
      ∙ slice-write_at_in m (header_bytes size cmd code ++ body) 9 (length body) (omega arith)
          (omega arith)
      ∙ slice-take-drop body 0 (length body)
      ∙ take_all (length body) body (omega arith)

-- The writes of `Begin`, of the data, and of `End`, in the order in which they run, fill a block's front.
header_writes :
    (m v cmd len code body : List ℕ)
    → length v ≡ 2
    → length cmd ≡ 2
    → length len ≡ 2
    → length code ≡ 1
    → write_at
        (write_at
          (write_at
            (write_at (write_at (write_at (write_at m 2 v) 4 (1 ∷ [])) 5 (1 ∷ [])) 6 cmd)
            9
            body)
          0
          len)
        8
        code
      ≡ write_at m 0 (len ++ (v ++ (1 ∷ 1 ∷ (cmd ++ (code ++ body)))))
header_writes m v cmd len code body a b c d =
    ap (λ t. write_at (write_at (write_at t 9 body) 0 len) 8 code) merged
    ∙ ap (λ t. write_at t 8 code) (sym (write_at_comm _ 0 9 len body (omega arith)))
    ∙ sym (write_at_comm _ 8 9 code body (omega arith))
    ∙ ap (λ t. write_at (write_at t 8 code) 9 body)
        (sym (write_at_comm m 0 2 len mid (omega arith))
          ∙ write_at-append m 0 2 len mid (omega arith))
    ∙ ap (λ t. write_at t 9 body)
        (write_at-append m 0 8 (len ++ mid) code (omega (arith, length-append len mid, mid_length)))
    ∙ write_at-append m 0 9 ((len ++ mid) ++ code) body
        (omega (arith, length-append (len ++ mid) code, length-append len mid, mid_length))
    ∙ ap (write_at m 0) (simp append_assoc)
  where
    mid : List ℕ
    mid = ((v ++ (1 ∷ [])) ++ (1 ∷ [])) ++ cmd

    first : length (v ++ (1 ∷ [])) ≡ 3
    first = omega (arith, length-append v (let n : ℕ = 1 in n ∷ []))

    second : length ((v ++ (1 ∷ [])) ++ (1 ∷ [])) ≡ 4
    second = omega (arith, first, length-append (v ++ (1 ∷ [])) (let n : ℕ = 1 in n ∷ []))

    mid_length : length mid ≡ 6
    mid_length = omega (arith, second, length-append ((v ++ (1 ∷ [])) ++ (1 ∷ [])) cmd)

    merged :
        write_at (write_at (write_at (write_at m 2 v) 4 (1 ∷ [])) 5 (1 ∷ [])) 6 cmd
        ≡ write_at m 2 mid
    merged =
        ap (λ t. write_at (write_at t 5 (1 ∷ [])) 6 cmd)
          (write_at-append m 2 4 v (1 ∷ []) (omega arith))
        ∙ ap (λ t. write_at t 6 cmd)
            (write_at-append m 2 5 (v ++ (1 ∷ [])) (1 ∷ []) (omega (arith, first)))
        ∙ write_at-append m 2 6 ((v ++ (1 ∷ [])) ++ (1 ∷ [])) cmd (omega (arith, second))

begin_end_lem :
    (m : List ℕ) (s t cmd : ℕ) (body : List ℕ)
    → 9 + length body ≤ packet_buffer_size
    → end (appended (begin (record { buf = m; packet_size = s; buf_pos = t }) cmd 1 1) body)
      ≡ record { buf = write_at m 0 (frame cmd 0 body); packet_size = 9 + length body; buf_pos = 9 }
unfolding begin end
begin_end_lem m s t cmd body h =
    ap (λ b. record { buf = b; packet_size = 9 + length body; buf_pos = 9 })
      (ap
          (λ k.
            write_at
              (write_at
                (write_at
                  (write_at
                    (write_at (write_at (write_at m 2 (b'B' ∷ b'Y' ∷ [])) 4 (1 ∷ [])) 5 (1 ∷ [])) 6
                    (be16 cmd))
                  9 body)
                0 (be16 k))
              8 (0 ∷ []))
          size_lem
        ∙ header_writes m (b'B' ∷ b'Y' ∷ []) (be16 cmd) (be16 (7 + length body)) (0 ∷ []) body refl
            refl refl refl)
  where
    size_lem : int_sub (9 + length body) 2 ≡ 7 + length body
    size_lem = omega arith

-- `BuildPackage` lays out a frame with the encoded fields, if the buffer has room for them, whatever
-- the packet was before.
pub build_package_lem :
    (o : OutputPacket) (cmd : ℕ) (fs : List Field)
    → length o.packet.buf ≡ packet_buffer_size
    → 9 + length (encode_all fs) ≤ packet_buffer_size
    → build_package o cmd fs
      ≡ some (record {
        packet = record {
          buf = write_at o.packet.buf 0 (frame cmd 0 (encode_all fs));
          packet_size = 9 + length (encode_all fs);
          buf_pos = 9;
        };
        is_check_code = false;
      })
unfolding build_package begin_packet end_packet
build_package_lem o cmd fs b h = rw (write_fields_fits fs begun valid h) (
    ap (λ p. some (record { packet = p; is_check_code = false }))
      (begin_end_lem o.packet.buf o.packet.packet_size o.packet.buf_pos cmd (encode_all fs) h))
  where
    begun : Packet
    begun = begin o.packet cmd 1 1

    valid : IsValid begun
    valid =
        unfold begin in
        record {
          block =
              length-write_at _ 6 _
              ∙ length-write_at _ 5 _
              ∙ length-write_at _ 4 _
              ∙ length-write_at _ 2 _
              ∙ b;
          header = omega arith;
          size_in = omega arith;
          pos_from = omega arith;
          pos_in = omega arith;
        }
