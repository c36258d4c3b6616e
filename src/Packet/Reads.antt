-- ===== src/Packet/Reads.antt =====
-- A client's reads of the fields of a packet, by their kinds, and the round trip with the writes.
use thero_logic_server.Base.{
  ℕ, ◌+◌, ◌-◌, ◌^◌, ◌≤◌, ◌<◌, ◌≡◌, ◌≢◌, refl, sym, ap, ◌∙◌, Option, some, ◌>>=◌, List, [], ◌∷◌,
  ◌++◌, length, length-append, take, drop, slice, arith, map, suc_add, take-append, drop-append,
  take-slice, drop-slice, slice_eq, slice-take-drop,
}
use thero_logic_server.Base.Words.{be16, be32, of_be-be16, of_be-be32}
use thero_logic_server.Packet.{Packet, packet_buffer_size, read, read_point}
use thero_logic_server.Packet.Input.{
  read_int, read_short, read_ulong, read_string, read_char, c_string,
}
use thero_logic_server.Packet.Output.{Field, int, short, ulong, str}
use thero_logic_server.Packet.Access.{IsValid, read_fits}
use thero_logic_server.Packet.Fields.{encode, encode_all, length-encode_str}

-- The typed reads of a client, by the kind of field that it expects next.
pub data Kind : Type 0 where
  an_int a_short a_ulong a_str : Kind

abbrev pub kind_of : Field → Kind
kind_of (int n) = an_int
kind_of (short n) = a_short
kind_of (ulong n) = a_ulong
kind_of (str s) = a_str

unfoldable pub read_field : Kind → Packet → Option (Field × Packet)
unfolding read_int read_short read_ulong read_string
read_field an_int p = read_int p >>= λ r. some (int r.0, r.1)
read_field a_short p = read_short p >>= λ r. some (short r.0, r.1)
read_field a_ulong p = read_ulong p >>= λ r. some (ulong r.0, r.1)
read_field a_str p = read_string p >>= λ r. some (str r.0, r.1)

unfoldable pub read_fields : List Kind → Packet → Option (List Field × Packet)
unfolding read_field
read_fields [] p = some ([], p)
read_fields (k ∷ ks) p = do r ← read_field k p; s ← read_fields ks r.1; some (r.0 ∷ s.0, s.1)

abbrev pub NoZero : List ℕ → Type 0
NoZero [] = Unit {0}
NoZero (b ∷ bs) = (b ≢ 0) × NoZero bs

-- The values that the wire carries: an `int`, a `short`, an `unsigned long` below 2 ^ 32 (`htonl` cuts
-- the rest), a C string.
abbrev pub InRange : Field → Type 0
InRange (int n) = n < 2 ^ 32
InRange (short n) = n < 2 ^ 16
InRange (ulong n) = n < 2 ^ 32
InRange (str s) = NoZero s

abbrev pub AllInRange : List Field → Type 0
AllInRange [] = Unit {0}
AllInRange (f ∷ fs) = InRange f × AllInRange fs

-- the packet holds some bytes at its read position
abbrev pub Holds : Packet → List ℕ → Type 0
Holds p xs = (slice p.buf p.buf_pos (length xs) ≡ xs) × (p.buf_pos + length xs ≤ p.packet_size)

abbrev pub skip : Packet → ℕ → Packet
skip p n = record p { buf_pos = p.buf_pos + n }

read-Holds :
    (p : Packet) (xs : List ℕ)
    → IsValid p
    → Holds p xs
    → read p (length xs) ≡ some (some xs, skip p (length xs))
read-Holds p xs v h =
    read_fits p (length xs) v h.1 ∙ ap (λ t. some (some t, skip p (length xs))) h.0

c_string_lem :
    (s xs : List ℕ) → NoZero s → take (length s + 1) xs ≡ s ++ (0 ∷ []) → c_string xs ≡ some s
unfolding c_string
c_string_lem [] [] z e = cc
c_string_lem [] (x ∷ xs) z e = ground arith
c_string_lem (c ∷ s) [] z e = cc (e')
  where
    e' : [] ≡ c ∷ (s ++ (0 ∷ []))
    e' = rw (suc_add (length s) 1) at e
c_string_lem (c ∷ s) (x ∷ xs) z e = ground (arith, c_string_lem s xs z.1, e')
  where
    e' : x ∷ take (length s + 1) xs ≡ c ∷ (s ++ (0 ∷ []))
    e' = rw (suc_add (length s) 1) at e

Holds-left : (p : Packet) (xs ys : List ℕ) → Holds p (xs ++ ys) → Holds p xs
Holds-left p xs ys h = (
  sym (
        take-slice p.buf p.buf_pos (length (xs ++ ys)) (length xs)
          (omega (arith, length-append xs ys)))
      ∙ ap (take (length xs)) h.0
      ∙ take-append xs ys,
  omega (arith, length-append xs ys),
)

Holds-right : (p : Packet) (xs ys : List ℕ) → Holds p (xs ++ ys) → Holds (skip p (length xs)) ys
Holds-right p xs ys h = (
  slice_eq p.buf _ _ (length ys) (length (xs ++ ys) - length xs) refl
        (omega (arith, length-append xs ys))
      ∙ sym (
          drop-slice p.buf p.buf_pos (length (xs ++ ys)) (length xs)
            (omega (arith, length-append xs ys)))
      ∙ ap (drop (length xs)) h.0
      ∙ drop-append xs ys,
  omega (arith, length-append xs ys),
)

skip-IsValid : (p : Packet) (n : ℕ) → IsValid p → p.buf_pos + n ≤ p.packet_size → IsValid (skip p n)
skip-IsValid p n v h = omega arith

read_char_lem :
    (s : List ℕ) (p : Packet)
    → IsValid p
    → Holds p (encode (str s))
    → read_char p ≡ some (some (p.buf_pos + 4), skip p (4 + (length s + 1)))
unfolding read_char read_point
read_char_lem s p v h =
    rw (read-Holds p (be32 (length s + 1)) v (Holds-left p _ _ h), of_be-be32 (length s + 1) small)
      (ground (arith, small_size, h.1, length-encode_str s))
  where
    small_size : p.buf_pos + (4 + (length s + 1)) ≤ packet_buffer_size
    small_size = omega (arith, h.1, length-encode_str s)

    small : length s + 1 < 2 ^ 32
    small = omega (arith, small_size)

read_string_lem :
    (s : List ℕ) (p : Packet)
    → IsValid p
    → NoZero s
    → Holds p (encode (str s))
    → read_string p ≡ some (s, skip p (length (encode (str s))))
unfolding read_string
read_string_lem s p v z h = rw (read_char_lem s p v h, found) (ground (arith, length-encode_str s))
  where
    body : Holds (skip p 4) (s ++ (0 ∷ []))
    body = Holds-right p (be32 (length s + 1)) (s ++ (0 ∷ [])) h

    found : c_string (drop (p.buf_pos + 4) p.buf) ≡ some s
    found = c_string_lem s (drop (p.buf_pos + 4) p.buf) z (
        sym (slice-take-drop p.buf (p.buf_pos + 4) (length s + 1))
        ∙ slice_eq p.buf _ _ (length s + 1) _ refl
            (omega (arith, length-append s (let n : ℕ = 0 in n ∷ [])))
        ∙ body.0)

read_field_lem :
    (f : Field) (p : Packet)
    → IsValid p
    → InRange f
    → Holds p (encode f)
    → read_field (kind_of f) p ≡ some (f, skip p (length (encode f)))
unfolding read_field
read_field_lem (int n) p v r h =
    rw (read-Holds p (be32 n) v h) (ap (λ k. some (int k, skip p 4)) (of_be-be32 n r))
read_field_lem (short n) p v r h =
    rw (read-Holds p (be16 n) v h) (ap (λ k. some (short k, skip p 2)) (of_be-be16 n r))
read_field_lem (ulong n) p v r h =
    rw (read-Holds p (encode (ulong n)) v h) (ap (λ k. some (ulong k, skip p 8)) (of_be-be32 n r))
read_field_lem (str s) p v r h = rw (read_string_lem s p v r h)

-- Reading back what was written: on a packet that holds the encoded fields at its read position, the
-- reads of their kinds give the fields, in order, and move behind them.
pub read_fields_lem :
    (fs : List Field) (p : Packet)
    → IsValid p
    → AllInRange fs
    → Holds p (encode_all fs)
    → read_fields (map kind_of fs) p ≡ some (fs, skip p (length (encode_all fs)))
unfolding read_fields
read_fields_lem [] p v r h = ground arith
read_fields_lem (f ∷ fs) p v r h =
    rw
      (
        read_field_lem f p v r.0 (Holds-left p (encode f) (encode_all fs) h),
        read_fields_lem fs (skip p (length (encode f)))
            (skip-IsValid p _ v (Holds-left p (encode f) (encode_all fs) h).1) r.1
            (Holds-right p (encode f) (encode_all fs) h),
      )
      (ground (arith, length-append (encode f) (encode_all fs)))
