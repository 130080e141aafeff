-- ===== src/Spiffy.antt =====
-- spiffy.c and spiffy.h: with the network simulator, every datagram goes to a router, behind a
-- header with its source and its destination. The system calls are parameters: what `sendto`
-- returns, and what `recvfrom`, `getenv` and `inet_aton` deliver. There is memory for the buffers.
pub mod Relay
use proj.Prelude.{
  ℕ, zero, suc, ◌+◌, ◌-◌, ◌*◌, ◌/◌, ◌%◌, ◌^◌, Bool, true, false, Option, none, some, List, [], ◌∷◌,
  ◌++◌, ltb, ◌==◌, if◌then◌else◌, ◌>>=◌, length, take, drop,
}
use proj.Prelude.Int.{ℤ, pos, negsuc, ◌-ℤ◌, ltb_ℤ}
use proj.Scan.{atoi}
use proj.Wire.{read_bytes}
use proj.Peer.{short_bytes, word_bytes}

-- The globals: `giSpiffyEnabled`, `glNodeID`, `glSrcAddr`, `gsSrcPort` and `gsSpiffyRouter`, numbers as
-- bit patterns.
pub record Spiffy : Type 0 where
  pub enabled : Bool
  pub node_id : ℕ
  pub src_addr : ℕ
  pub src_port : ℕ
  pub router_addr : ℕ
  pub router_port : ℕ

-- `spiffy_header`.
pub record SpiffyHeader : Type 0 where
  pub id : ℕ
  pub src_addr : ℕ
  pub dest_addr : ℕ
  pub src_port : ℕ
  pub dest_port : ℕ

-- A datagram at the socket, with the address and the port of the other side.
pub record SocketData : Type 0 where
  pub bytes : List ℕ
  pub addr : ℕ
  pub port : ℕ

-- `sizeof(spiffy_header)`.
abbrev pub spiffy_header_size : ℕ
spiffy_header_size = 16

-- `htonl` and `htons` on a little-endian machine.
unfoldable pub htonl : ℕ → ℕ
htonl x = x % 256 * 2 ^ 24 + x / 256 % 256 * 2 ^ 16 + x / 2 ^ 16 % 256 * 2 ^ 8 + x / 2 ^ 24 % 256

unfoldable pub htons : ℕ → ℕ
htons x = x % 256 * 256 + x / 256 % 256

-- The memory of a header, in front of a message.
unfoldable pub spiffy_bytes : SpiffyHeader → List ℕ → List ℕ
spiffy_bytes h msg = word_bytes h.id (
    word_bytes h.src_addr
      (word_bytes h.dest_addr (short_bytes h.src_port (short_bytes h.dest_port msg))))

-- `spiffy_sendto`, when `sendto` returns `sent`: the result, and what is handed to `sendto`. `inet`
-- says whether the family of the address is AF_INET.
unfoldable pub spiffy_sendto : Spiffy → List ℕ → Bool → ℕ → ℕ → ℤ → ℤ × Option SocketData
unfolding htonl spiffy_bytes
spiffy_sendto g msg inet addr port sent =
    if g.enabled
    then (if inet
        then (
          if ltb_ℤ (pos 0) sent then sent -ℤ pos spiffy_header_size else sent,
          some (record {
            bytes =
                spiffy_bytes
                  (record {
                    id = htonl g.node_id;
                    src_addr = g.src_addr;
                    dest_addr = addr;
                    src_port = g.src_port;
                    dest_port = port;
                  })
                  msg;
            addr = g.router_addr;
            port = g.router_port;
          }),
        )
        else (negsuc 0, none))
    else (sent, some (record { bytes = msg; addr = addr; port = port }))

-- What `spiffy_recvfrom` leaves: its result, the buffer, and the address.
pub record Recvd : Type 0 where
  pub ret : ℤ
  pub buffer : List ℕ
  pub addr : ℕ
  pub port : ℕ

-- The source in a header; the first 16 bytes of `newbuf` are those of a header in any case.
unfoldable pub source : List ℕ → Option (ℕ × ℕ)
source (i0 ∷ i1 ∷ i2 ∷ i3 ∷ a0 ∷ a1 ∷ a2 ∷ a3 ∷ d0 ∷ d1 ∷ d2 ∷ d3 ∷ p0 ∷ p1 ∷ rest) =
    some (a0 + 256 * a1 + 65536 * (a2 + 256 * a3), p0 + 256 * p1)
source _ = none

-- `newbuf` with what arrived in it: the message is copied with all bytes of the buffer's size, and what
-- is behind the datagram is what lay in fresh memory.
unfoldable pub unwrap : (ℕ → ℕ) → ℕ → List ℕ → Option Recvd
unwrap stray size newbuf = source (read_bytes stray spiffy_header_size newbuf) >>= λ (addr, port).
    some (record {
      ret = pos (length newbuf) -ℤ pos spiffy_header_size;
      buffer = read_bytes stray size (drop spiffy_header_size newbuf);
      addr = addr;
      port = port;
    })

-- `spiffy_recvfrom` with a buffer of `size` bytes and what `recvfrom` receives, which is cut to the
-- size asked for; without it, it returns -1. `before` is what the arguments held.
unfoldable pub spiffy_recvfrom : (ℕ → ℕ) → Spiffy → ℕ → Recvd → Option SocketData → Option Recvd
unfolding unwrap
spiffy_recvfrom stray g size before none = some (record before { ret = negsuc 0 })
spiffy_recvfrom stray g size before (some d) =
    let plain = take size d.bytes in
    let newbuf = take (size + spiffy_header_size) d.bytes in
    let received = unwrap stray size newbuf in
    if g.enabled
    then (if ltb 0 (length newbuf) then received else some (record before { ret = pos 0 }))
    else some (record {
      ret = pos (length plain);
      buffer = plain ++ drop (length plain) before.buffer;
      addr = d.addr;
      port = d.port;
    })

-- A text cut at its first colon.
unfoldable pub split_colon : List ℕ → Option (List ℕ × List ℕ)
split_colon [] = none
split_colon (c ∷ cs) =
    let rest = split_colon cs in
    if c == 58
    then some ([], cs)
    else elim rest [ none ↦ none | some (name, port) ↦ some (c ∷ name, port) ]

-- The bit pattern of the low half of an `int`.
abbrev pub low_half : ℤ → ℕ
low_half (pos n) = n % 2 ^ 16
low_half (negsuc n) = 2 ^ 16 - 1 - n % 2 ^ 16

-- `spiffy_init`, with the value of SPIFFY_ROUTER, and what `inet_aton` makes of its first part.
unfoldable pub spiffy_init : (List ℕ → Option ℕ) → Spiffy → Option (List ℕ) → ℕ → ℕ → ℕ → ℤ × Spiffy
unfolding split_colon htons
spiffy_init inet_aton g none node addr port = (pos 1, g)
spiffy_init inet_aton g (some router) node addr port = elim (split_colon router) [
  | none ↦ (negsuc 0, g)
  | some (name, number) ↦ elim (inet_aton name) [
    | none ↦ (negsuc 0, record g { router_port = htons (low_half (atoi number)) })
    | some router_addr ↦ (
      pos 0,
      record {
        enabled = true;
        node_id = node;
        src_addr = addr;
        src_port = port;
        router_addr = router_addr;
        router_port = htons (low_half (atoi number));
      },
    )
  ]
]
