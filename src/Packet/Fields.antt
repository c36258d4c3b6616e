-- ===== src/Packet/Fields.antt =====
-- Fields written one after another, and read back by the reads of their kinds.
use thero_logic_server.Base.{
  ℕ, ◌+◌, ◌≤◌, ◌≡◌, ap, ◌∙◌, true, some, List, [], ◌∷◌, ◌++◌, length, length-append, write_at_nil,
  arith,
}
use thero_logic_server.Base.Words.{be16, be32}
use thero_logic_server.Packet.{Packet, packet_buffer_size}
use thero_logic_server.Packet.Output.{
  Field, int, short, ulong, str, write_string, write_field, write_fields,
}
use thero_logic_server.Packet.Access.{
  IsValid, appended, appended-IsValid, appended-appended, write_fits, write_zero_fits,
}

-- the bytes that stand for a field
abbrev pub encode : Field → List ℕ
encode (int n) = be32 n
encode (short n) = be16 n
encode (ulong n) = be32 n ++ (0 ∷ 0 ∷ 0 ∷ 0 ∷ [])
encode (str s) = be32 (length s + 1) ++ (s ++ (0 ∷ []))

abbrev pub encode_all : List Field → List ℕ
encode_all [] = []
encode_all (f ∷ fs) = encode f ++ encode_all fs

write_string_fits :
    (p : Packet) (s : List ℕ)
    → IsValid p
    → p.packet_size + (4 + (length s + 1)) ≤ packet_buffer_size
    → write_string p s ≡ some (true, appended p (be32 (length s + 1) ++ (s ++ (0 ∷ []))))
unfolding write_string
write_string_fits p s v h =
    rw
      (
        write_fits p head v (omega arith),
        write_fits q s qv (omega arith),
        write_zero_fits (appended q s) (appended-IsValid q s qv (omega arith)) (omega arith),
      )
      (ap (λ t. some (true, t))
        (appended-appended q s (0 ∷ []) ∙ appended-appended p head (s ++ (0 ∷ []))))
  where
    head : List ℕ
    head = be32 (length s + 1)

    q : Packet
    q = appended p head

    qv : IsValid q
    qv = appended-IsValid p head v (omega arith)

pub length-encode_str : (s : List ℕ) → length (encode (str s)) ≡ 4 + (length s + 1)
length-encode_str s = omega (arith, length-append s (let z : ℕ = 0 in z ∷ []))

pub write_field_fits :
    (p : Packet) (f : Field)
    → IsValid p
    → p.packet_size + length (encode f) ≤ packet_buffer_size
    → write_field p f ≡ some (true, appended p (encode f))
unfolding write_field
write_field_fits p (int n) v h = write_fits p (be32 n) v h
write_field_fits p (short n) v h = write_fits p (be16 n) v h
write_field_fits p (ulong n) v h = write_fits p (encode (ulong n)) v h
write_field_fits p (str s) v h = write_string_fits p s v (omega (arith, length-encode_str s))

-- With room for all of them, the fields of `BuildPackage` are appended in order.
pub write_fields_fits :
    (fs : List Field) (p : Packet)
    → IsValid p
    → p.packet_size + length (encode_all fs) ≤ packet_buffer_size
    → write_fields p fs ≡ some (appended p (encode_all fs))
unfolding write_fields
write_fields_fits [] p v h = ground (arith, write_at_nil p.buf p.packet_size)
write_fields_fits (f ∷ fs) p v h =
    rw (write_field_fits p f v (omega (arith, length-append (encode f) (encode_all fs)))) (
      write_fields_fits fs (appended p (encode f))
        (appended-IsValid p (encode f) v (omega (arith, length-append (encode f) (encode_all fs))))
        (omega (arith, length-append (encode f) (encode_all fs)))
      ∙ ap some (appended-appended p (encode f) (encode_all fs)))
