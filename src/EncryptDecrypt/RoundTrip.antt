-- ===== src/EncryptDecrypt/RoundTrip.antt =====
-- What the loops compute, and decryption after encryption.
use thero_logic_server.Base.{
  ℕ, zero, suc, ◌+◌, ◌%◌, ◌≤◌, ◌<◌, ◌≡◌, refl, ap, ◌∙◌, true, ◌&&◌, ◌==◌, Option, none, some, List,
  [], ◌∷◌, get_elem?, write_at, slice, length, map, arith, all_below, all_below_sound,
  slice-get_elem?, slice_zero, write_at_nil, ap₂, length-write_at, slice-write_at_after,
  write_at-cons,
}
use thero_logic_server.EncryptDecrypt.{map_send_byte, map_recv_byte, encrypt_loop, decrypt_loop}

abbrev pub AllBytes : List ℕ → Type 0
AllBytes [] = Unit {0}
AllBytes (b ∷ bs) = (b < 256) × AllBytes bs

tables_inverse :
    all_below 256
      (λ b. map_recv_byte (map_send_byte b) == b && map_send_byte (map_recv_byte b) == b)
    ≡ true
unfolding map_recv_byte map_send_byte
tables_inverse = refl

-- The two tables are inverse to one another, on every byte and both ways.
pub tables_lem :
    (b : ℕ)
    → b < 256
    → (map_recv_byte (map_send_byte b) ≡ b) × (map_send_byte (map_recv_byte b) ≡ b)
tables_lem b h = ground (
  arith,
  all_below_sound 256
      (λ b. map_recv_byte (map_send_byte b) == b && map_send_byte (map_recv_byte b) == b) b
      tables_inverse h,
)

abbrev pub sum : List ℕ → ℕ
sum [] = 0
sum (b ∷ bs) = b + sum bs

encrypt_step :
    (n i code : ℕ) (buf : List ℕ) (b : ℕ)
    → get_elem? buf i ≡ some b
    → encrypt_loop (suc n) i code buf
      ≡ encrypt_loop n (suc i) ((code + b) % 256) (write_at buf i (map_send_byte b ∷ []))
unfolding encrypt_loop
encrypt_step n i code buf b e = rw (e, encrypt_loop)

-- The loops over `n` bytes of the buffer map these bytes, and sum them up.
pub encrypt_loop_lem :
    (n i code : ℕ) (buf : List ℕ)
    → i + n ≤ length buf
    → code < 256
    → encrypt_loop n i code buf
      ≡ some
          ((code + sum (slice buf i n)) % 256, write_at buf i (map map_send_byte (slice buf i n)))
unfolding encrypt_loop
encrypt_loop_lem zero i code buf h c =
    rw (slice_zero buf i, write_at_nil buf i) (ap (λ k. some (k, buf)) (omega arith))
encrypt_loop_lem (suc n) i code buf h c =
    let (b, g, s) = slice-get_elem? buf i n (omega arith) in
    rw (encrypt_step n i code buf b g, s)
      (encrypt_loop_lem n (suc i) ((code + b) % 256) (write_at buf i (map_send_byte b ∷ []))
          (omega (arith, length-write_at buf i (map_send_byte b ∷ []))) (omega arith)
        ∙ rw
            (
              slice-write_at_after buf (suc i) i n (map_send_byte b ∷ []) (omega arith),
              write_at-cons buf i (map_send_byte b) (map map_send_byte (slice buf (suc i) n)),
            )
            (ap
              (λ k.
                some
                  (k, write_at buf i (map_send_byte b ∷ map map_send_byte (slice buf (suc i) n))))
              (omega arith)))

decrypt_step :
    (n i code : ℕ) (buf : List ℕ) (b : ℕ)
    → get_elem? buf i ≡ some b
    → decrypt_loop (suc n) i code buf
      ≡ decrypt_loop n
          (suc i)
          ((code + map_recv_byte b) % 256)
          (write_at buf i (map_recv_byte b ∷ []))
unfolding decrypt_loop
decrypt_step n i code buf b e = rw (e, decrypt_loop)

pub decrypt_loop_lem :
    (n i code : ℕ) (buf : List ℕ)
    → i + n ≤ length buf
    → code < 256
    → decrypt_loop n i code buf
      ≡ some (
        (code + sum (map map_recv_byte (slice buf i n))) % 256,
        write_at buf i (map map_recv_byte (slice buf i n)),
      )
unfolding decrypt_loop
decrypt_loop_lem zero i code buf h c =
    rw (slice_zero buf i, write_at_nil buf i) (ap (λ k. some (k, buf)) (omega arith))
decrypt_loop_lem (suc n) i code buf h c =
    let (b, g, s) = slice-get_elem? buf i n (omega arith) in
    rw (decrypt_step n i code buf b g, s)
      (decrypt_loop_lem n (suc i) ((code + map_recv_byte b) % 256)
          (write_at buf i (map_recv_byte b ∷ []))
          (omega (arith, length-write_at buf i (map_recv_byte b ∷ []))) (omega arith)
        ∙ rw
            (
              slice-write_at_after buf (suc i) i n (map_recv_byte b ∷ []) (omega arith),
              write_at-cons buf i (map_recv_byte b) (map map_recv_byte (slice buf (suc i) n)),
            )
            (ap
              (λ k.
                some
                  (k, write_at buf i (map_recv_byte b ∷ map map_recv_byte (slice buf (suc i) n))))
              (omega arith)))

pub map_back : (xs : List ℕ) → AllBytes xs → map map_recv_byte (map map_send_byte xs) ≡ xs
map_back [] a = refl
map_back (x ∷ xs) a = ap₂ ◌∷◌ (tables_lem x a.0).0 (map_back xs a.1)

-- a loop that does not fault leaves a block of the same length
abbrev pub SameLength : List ℕ → Option (ℕ × List ℕ) → Type 0
SameLength buf none = Unit {0}
SameLength buf (some (code, buf')) = length buf' ≡ length buf

SameLength-trans :
    (buf buf' : List ℕ) (r : Option (ℕ × List ℕ))
    → length buf' ≡ length buf
    → SameLength buf' r
    → SameLength buf r
SameLength-trans buf buf' none e s = tt
SameLength-trans buf buf' (some (code, b)) e s = s ∙ e

pub length-decrypt_loop : (n i code : ℕ) (buf : List ℕ) → SameLength buf (decrypt_loop n i code buf)
unfolding decrypt_loop
length-decrypt_loop zero i code buf = refl
length-decrypt_loop (suc n) i code buf = go (get_elem? buf i) (length-decrypt_loop n (suc i))
  where
    go :
        (o : Option ℕ)
        → ((c : ℕ) (b : List ℕ) → SameLength b (decrypt_loop n (suc i) c b))
        → SameLength buf (elim o as (λ _. Option (ℕ × List ℕ)) [
          | none ↦ none
          | some b ↦
              decrypt_loop n
                (suc i)
                ((code + map_recv_byte b) % 256)
                (write_at buf i (map_recv_byte b ∷ []))
        ])
    go none ih = tt
    go (some b) ih =
        SameLength-trans buf (write_at buf i (map_recv_byte b ∷ [])) _
          (length-write_at buf i (map_recv_byte b ∷ [])) (ih _ _)
