-- ===== src/Packet/Tests.antt =====
-- Runs of the packet's reads and writes on small inputs.
use thero_logic_server.Base.{
  ℕ, ◌-◌, ◌^◌, ◌≡◌, refl, ◌∙◌, true, false, none, some, List, [], ◌∷◌, length, replicate,
  length-replicate, map, write_at, length-write_at, arith,
}
use thero_logic_server.Packet.{Packet, packet_buffer_size, read, write}
use thero_logic_server.Packet.Output.{Field, int, short, ulong, str, build_package}
use thero_logic_server.Packet.Access.{IsValid, read_negative}
use thero_logic_server.Packet.Fields.{encode_all}
use thero_logic_server.Packet.Frames.{frame, build_package_lem}
use thero_logic_server.Packet.Reads.{kind_of, read_fields, read_fields_lem, skip}

abbrev block : List ℕ
block = replicate packet_buffer_size 0

length-block : length block ≡ packet_buffer_size
length-block = length-replicate packet_buffer_size (let z : ℕ = 0 in z)

abbrev empty : Packet
empty = record { buf = block; packet_size = 9; buf_pos = 9 }

abbrev fields : List Field
fields = int 1000 ∷ short 7 ∷ str (104 ∷ 105 ∷ []) ∷ ulong 5 ∷ []

abbrev filled : Packet
filled = record { buf = write_at block 9 (encode_all fields); packet_size = 30; buf_pos = 9 }

empty-IsValid : IsValid empty
empty-IsValid = record {
  block = length-block;
  header = omega arith;
  size_in = omega arith;
  pos_from = omega arith;
  pos_in = omega arith;
}

filled-IsValid : IsValid filled
filled-IsValid = record {
  block = length-write_at block 9 (encode_all fields) ∙ length-block;
  header = omega arith;
  size_in = omega arith;
  pos_from = omega arith;
  pos_in = omega arith;
}

-- a packet whose array is cut short, to run the code on
abbrev small : Packet
small = record {
  buf = 0 ∷ 0 ∷ 0 ∷ 0 ∷ 0 ∷ 0 ∷ 0 ∷ 0 ∷ 0 ∷ 1 ∷ 2 ∷ 3 ∷ 4 ∷ [];
  packet_size = 12;
  buf_pos = 9;
}

read_run : read small 2 ≡ some (some (1 ∷ 2 ∷ []), record small { buf_pos = 11 })
unfolding read
read_run = refl

read_refused : read small 4 ≡ some (none, small)
unfolding read
read_refused = refl

write_run :
    write small (9 ∷ [])
    ≡ some (
      true,
      record small {
        buf = 0 ∷ 0 ∷ 0 ∷ 0 ∷ 0 ∷ 0 ∷ 0 ∷ 0 ∷ 0 ∷ 1 ∷ 2 ∷ 3 ∷ 9 ∷ [];
        packet_size = 13;
      },
    )
unfolding write
write_run = refl

read_negative_example : read filled (2 ^ 32 - 1) ≡ none
read_negative_example = read_negative filled (2 ^ 32 - 1) filled-IsValid (omega arith) (omega arith)

build_package_lem_example :
    build_package (record { packet = empty; is_check_code = true }) 1001 fields
    ≡ some (record {
      packet = record {
        buf = write_at block 0 (frame 1001 0 (encode_all fields));
        packet_size = 30;
        buf_pos = 9;
      };
      is_check_code = false;
    })
build_package_lem_example =
    build_package_lem (record { packet = empty; is_check_code = true }) 1001 fields length-block
      (omega arith)

read_fields_lem_example :
    read_fields (map kind_of fields) filled
    ≡ some (fields, skip filled (length (encode_all fields)))
read_fields_lem_example =
    read_fields_lem fields filled filled-IsValid
      (omega arith, (omega arith, ((ground arith, (ground arith, tt)), (omega arith, tt))))
      (refl, omega arith)
