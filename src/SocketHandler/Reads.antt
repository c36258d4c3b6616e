-- ===== src/SocketHandler/Reads.antt =====
-- A connection that receives chunk after chunk, each by a call of `handle_read`.
use thero_logic_server.Base.{
  ℕ, ◌≡◌, refl, sym, ap, ◌∙◌, Bool, true, false, ◌&&◌, ◌==◌, ltb, if◌then◌else◌, Option, none, some,
  List, [], ◌∷◌, length, get_or, arith,
}
use mathlib.Core.Path.{subst}
use thero_logic_server.Base.Int.{ℤ, pos}
use thero_logic_server.Packet.{Packet}
use thero_logic_server.Packet.Reads.{Kind}
use thero_logic_server.PacketParser.{PacketParser, OnPacket, parse_packet, parse_header}
use thero_logic_server.PacketParser.Bytes.{
  Fed, running, ended, result, feed_all, then_feed, feed_all-append, IsReady,
}
use thero_logic_server.PacketParser.Body.{KeepsBlock}
use thero_logic_server.PacketParser.Chunks.{parse_packet-feed_all}
use thero_logic_server.PacketParser.Ready.{Goes, feed_all-Goes, joined}
use thero_logic_server.PacketParser.Handlers.{Holds, feed_all-Holds}
use thero_logic_server.SocketHandler.{
  SocketHandler, request, received, recv_buffer_size, Process, State, on_packet_complete, Parsed,
  parsed, parsed_on, on_parser, read_loop, handle_read,
}
use thero_logic_server.SocketHandler.Messages.{Log, note_packet}

module _ {S : Type 0} (process : Process S) where
  -- The caller of `handle_read` goes on with the next chunk as long as the result is 0; otherwise it closes the
  -- connection.
  pub reads : List ℕ → List (List ℕ) → Option PacketParser → SocketHandler → S → Parsed process
  reads memory [] p h s = some (pos 0, p, h, s)
  reads memory (c ∷ chunks) p h s =
      parsed_on process (handle_read process memory (received c ∷ []) p h s)
        (λ p' h' s'. reads memory chunks p' h' s')

-- a chunk that `OnParser` takes for a request for the policy file, or refuses as one
abbrev pub looks_like_policy : List ℕ → Bool
looks_like_policy c = length c == 23 && get_or c 0 0 == b'<' && get_or c 1 0 == b'p'

-- chunks that are not empty, and not taken for requests for the policy file
abbrev pub AllPlain : List (List ℕ) → Type 0
AllPlain [] = Unit {0}
AllPlain ([] ∷ chunks) = ⊥
AllPlain ((b ∷ bytes) ∷ chunks) = (looks_like_policy (b ∷ bytes) ≡ false) × AllPlain chunks

-- the connection once it has received something
abbrev pub opened : SocketHandler → SocketHandler
opened h = record h { status = request; timer_runs = false }

abbrev pub after : List (List ℕ) → SocketHandler → SocketHandler
after [] h = h
after (c ∷ chunks) h = opened h

after-opened : (chunks : List (List ℕ)) (h : SocketHandler) → after chunks (opened h) ≡ opened h
after-opened [] h = refl
after-opened (c ∷ chunks) h = refl

if_false : {A : Type 0} (c : Bool) (x y : A) → c ≡ false → (if c then x else y) ≡ y
if_false true x y e = absurd cc
if_false false x y e = refl

if_same : {A : Type 0} (c : Bool) (x : A) → (if c then x else x) ≡ x
if_same true x = refl
if_same false x = refl

-- the parts of a state of the bytewise parser
abbrev parser_of : {H : Type 0} → Fed H → PacketParser
parser_of (running p h) = p
parser_of (ended r p h) = p

abbrev log_of : Fed (State Log) → Log
log_of (running p (some (h, log))) = log
log_of _ = []

not_running : {H : Type 0} (r : ℤ) (p q : PacketParser) (h k : H) → ended r p h ≡ running q k → ⊥
not_running r p q h k e = absurd cc

module _ (kinds : ℕ → List Kind) (keeps : KeepsBlock (on_packet_complete (note_packet kinds))) where
  abbrev on_complete : OnPacket (State Log)
  on_complete = on_packet_complete (note_packet kinds)

  -- the connection is this one, or something has faulted; something has faulted
  abbrev Stays : SocketHandler → State Log → Type 0
  Stays h none = Unit {0}
  Stays h (some (h', log)) = h' ≡ h

  abbrev Faulted : State Log → Type 0
  Faulted none = Unit {0}
  Faulted (some s) = ⊥

  on_complete-Stays :
      (h : SocketHandler) (p : Packet) (s : State Log) → Stays h s → Stays h (on_complete p s).2
  unfolding on_packet_complete note_packet
  on_complete-Stays h p none v = v
  on_complete-Stays h p (some (h', log)) v = ground (arith, v)

  on_complete-Faulted : (p : Packet) (s : State Log) → Faulted s → Faulted (on_complete p s).2
  unfolding on_packet_complete
  on_complete-Faulted p none v = v
  on_complete-Faulted p (some s) v = absurd v

  on_parser-plain :
      (memory c : List ℕ) (p : PacketParser) (h : SocketHandler) (log : Log)
      → looks_like_policy c ≡ false
      → on_parser (note_packet kinds) memory (some p) h log c
        ≡ parsed (note_packet kinds) (parse_packet on_complete p (some (opened h, log)) c)
  unfolding on_parser
  on_parser-plain memory c p h log l = if_false (looks_like_policy c) _ _ l

  -- one chunk that does not end the connection
  handle_read-chunk :
      (memory : List ℕ) (b : ℕ) (bytes : List ℕ) (p p' : PacketParser) (h h' : SocketHandler)
      (log log' : Log)
      → h.tcp.full ≡ false
      → looks_like_policy (b ∷ bytes) ≡ false
      → parse_packet on_complete p (some (opened h, log)) (b ∷ bytes)
        ≡ some (pos 0, p', some (h', log'))
      → handle_read (note_packet kinds) memory (received (b ∷ bytes) ∷ []) (some p) h log
        ≡ some (pos 0, some p', h', log')
  unfolding handle_read read_loop
  handle_read-chunk memory b bytes p p' h h' log log' f l e =
      if_false h.tcp.full _ _ f
      ∙ ap
          (λ t.
            parsed_on (note_packet kinds) t
              (λ q k s. if less then some (pos 0, q, k, s) else some (pos 0, q, k, s)))
          (on_parser-plain memory (b ∷ bytes) p h log l ∙ ap (parsed (note_packet kinds)) e)
      ∙ if_same less (some (pos 0, some p', h', log'))
    where
      less : Bool
      less = ltb (length (b ∷ bytes)) recv_buffer_size

  -- Chunks that the parser takes whole, as one stream, are received one after another.
  pub reads-feed_all :
      (memory : List ℕ) (chunks : List (List ℕ)) (p p' : PacketParser) (h : SocketHandler)
      (log log' : Log)
      → IsReady p
      → h.tcp.full ≡ false
      → AllPlain chunks
      → feed_all on_complete parse_header p (some (opened h, log)) (joined chunks)
        ≡ running p' (some (opened h, log'))
      → reads (note_packet kinds) memory chunks (some p) h log
        ≡ some (pos 0, some p', after chunks h, log')
  unfolding feed_all reads
  reads-feed_all memory [] p p' h log log' v f a e =
      ap {A = Fed (State Log)} (λ t. some (pos 0, some (parser_of t), h, log_of t)) e
  reads-feed_all memory ([] ∷ chunks) p p' h log log' v f a e = absurd a
  reads-feed_all memory ((b ∷ bytes) ∷ chunks) p p' h log log' v f (plain, a) e =
      go (feed_all on_complete parse_header p (some (opened h, log)) (b ∷ bytes)) refl
        (feed_all-Goes on_complete keeps (b ∷ bytes) p (some (opened h, log)) v)
        (feed_all-Holds on_complete (Stays (opened h)) (on_complete-Stays (opened h)) (b ∷ bytes) p
          (some (opened h, log)) refl)
        (λ q log1 w d. reads-feed_all memory chunks q p' (opened h) log1 log' w f a d)
    where
      whole :
          then_feed on_complete parse_header
            (feed_all on_complete parse_header p (some (opened h, log)) (b ∷ bytes))
            (joined chunks)
          ≡ running p' (some (opened h, log'))
      whole =
          sym (
            feed_all-append on_complete parse_header (b ∷ bytes) (joined chunks) p
              (some (opened h, log)))
          ∙ e

      go :
          (t : Fed (State Log))
          → feed_all on_complete parse_header p (some (opened h, log)) (b ∷ bytes) ≡ t
          → Goes t
          → Holds on_complete (Stays (opened h)) (on_complete-Stays (opened h)) t
          → ((q : PacketParser) (log1 : Log)
              → IsReady q
              → feed_all on_complete parse_header q (some (opened h, log1)) (joined chunks)
                ≡ running p' (some (opened h, log'))
              → reads (note_packet kinds) memory chunks (some q) (opened h) log1
                ≡ some (pos 0, some p', after chunks (opened h), log'))
          → reads (note_packet kinds) memory ((b ∷ bytes) ∷ chunks) (some p) h log
            ≡ some (pos 0, some p', opened h, log')
      go (ended r q s) d g k ih = absurd (
          not_running r q p' s (some (opened h, log'))
            (ap (λ t. then_feed on_complete parse_header t (joined chunks)) (sym d) ∙ whole))
      go (running q none) d g k ih = absurd (
          subst (Holds on_complete Faulted on_complete-Faulted)
            (ap (λ t. then_feed on_complete parse_header t (joined chunks)) (sym d) ∙ whole)
            (feed_all-Holds on_complete Faulted on_complete-Faulted (joined chunks) q none tt))
      go (running q (some (k, log1))) d g same ih =
          ap
            (λ r.
              parsed_on (note_packet kinds) r
                (λ p1 h1 s1. reads (note_packet kinds) memory chunks p1 h1 s1))
            (handle_read-chunk memory b bytes p q h k log log1 f plain (
              parse_packet-feed_all on_complete p (some (opened h, log)) (b ∷ bytes) keeps v
              ∙ ap result d))
          ∙ ap (λ k1. reads (note_packet kinds) memory chunks (some q) k1 log1) same
          ∙ ih q log1 g (
              ap (λ k1. feed_all on_complete parse_header q (some (k1, log1)) (joined chunks))
                (sym same)
              ∙ ap (λ t. then_feed on_complete parse_header t (joined chunks)) (sym d)
              ∙ whole)
          ∙ ap (λ k1. some (pos 0, some p', k1, log')) (after-opened chunks h)
