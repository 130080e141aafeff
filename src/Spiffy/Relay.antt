-- ===== src/Spiffy/Relay.antt =====
-- A message goes through the router, or directly, and arrives with its source.
use proj.Prelude.{
  ℕ, zero, suc, ◌+◌, ◌-◌, ◌*◌, ◌/◌, ◌%◌, ◌^◌, ◌≤◌, ◌<◌, ◌≡◌, refl, ap, sym, ◌∙◌, inl, inr, Bool,
  true, false, Option, none, some, some-eq, List, [], ◌∷◌, ◌++◌, arith, length, take, drop,
  take_all, take-length, ltb, ◌==◌, if◌then◌else◌, Bool-cases, length-append, lt→ltb,
}
use proj.Prelude.Int.{ℤ, pos, negsuc, ◌-ℤ◌, ltb_ℤ, ◌<ℤ◌}
use proj.Wire.{read_bytes}
use proj.Wire.Send.{take-read_bytes}
use proj.Peer.Headers.{word-value}
use proj.Spiffy.{
  Spiffy, SpiffyHeader, SocketData, Recvd, htonl, spiffy_bytes, spiffy_sendto, source, unwrap,
  spiffy_recvfrom,
}

length-spiffy_bytes :
    (h : SpiffyHeader) (msg : List ℕ) → length (spiffy_bytes h msg) ≡ 16 + length msg
unfolding spiffy_bytes
length-spiffy_bytes h msg = omega arith

drop-spiffy_bytes : (h : SpiffyHeader) (msg : List ℕ) → drop 16 (spiffy_bytes h msg) ≡ msg
unfolding spiffy_bytes
drop-spiffy_bytes h msg = refl

source-spiffy_bytes :
    (stray : ℕ → ℕ) (h : SpiffyHeader) (msg : List ℕ)
    → h.src_addr < 2 ^ 32
    → h.src_port < 2 ^ 16
    → source (read_bytes stray 16 (spiffy_bytes h msg)) ≡ some (h.src_addr, h.src_port)
unfolding source spiffy_bytes read_bytes
source-spiffy_bytes stray h msg a p =
    let port : h.src_port % 256 + 256 * (h.src_port / 256 % 256) ≡ h.src_port = omega arith in
    let addr = word-value h.src_addr a in
    ap (λ x. some (x, h.src_port % 256 + 256 * (h.src_port / 256 % 256))) addr
    ∙ ap (λ y. some (h.src_addr, y)) port

-- What arrives: the message at the beginning of the buffer, its length, and where it comes from.
pub record Arrived (msg : List ℕ) (src_addr src_port : ℕ) (r : Recvd) : Type 0 where
  pub ret : r.ret ≡ pos (length msg)
  pub message : take (length msg) r.buffer ≡ msg
  pub addr : r.addr ≡ src_addr
  pub port : r.port ≡ src_port

less_header : (n m : ℕ) → n ≡ 16 + m → pos n -ℤ pos 16 ≡ pos m
unfolding proj.Prelude.Int.◌-ℤ◌
less_header n m h = ground (arith, h)

unwrap-Arrived :
    (stray : ℕ → ℕ) (size : ℕ) (h : SpiffyHeader) (msg : List ℕ)
    → h.src_addr < 2 ^ 32
    → h.src_port < 2 ^ 16
    → length msg ≤ size
    → (r : Recvd) × (unwrap stray size (spiffy_bytes h msg) ≡ some r)
      × Arrived msg h.src_addr h.src_port r
unfolding unwrap
unwrap-Arrived stray size h msg a p fits =
    let all = spiffy_bytes h msg in
    let r : Recvd = record {
      ret = pos (length all) -ℤ pos 16;
      buffer = read_bytes stray size (drop 16 all);
      addr = h.src_addr;
      port = h.src_port;
    } in
    (
      r,
      rw (source-spiffy_bytes stray h msg a p) refl,
      record {
        ret = less_header (length all) (length msg) (length-spiffy_bytes h msg);
        message =
            ap (λ xs. take (length msg) (read_bytes stray size xs)) (drop-spiffy_bytes h msg)
            ∙ take-read_bytes stray size msg fits;
        addr = refl;
        port = refl;
      },
    )

-- What the sender's globals make the router deliver: the message with the sender's own address, or
-- that with the address that the socket sees.
abbrev pub Delivered : Spiffy → List ℕ → SocketData → Recvd → Type 0
Delivered g msg from r =
    Arrived msg (if g.enabled then g.src_addr else from.addr)
      (if g.enabled then g.src_port else from.port) r

module _ (stray : ℕ → ℕ) (g h : Spiffy) (msg : List ℕ) (addr port size : ℕ) (sent : ℤ)
    (before : Recvd) (fits : length msg ≤ size) (src_addr : g.src_addr < 2 ^ 32)
    (src_port : g.src_port < 2 ^ 16) (same : h.enabled ≡ g.enabled) where
  abbrev wrapped : SpiffyHeader
  wrapped = record {
    id = htonl g.node_id;
    src_addr = g.src_addr;
    dest_addr = addr;
    src_port = g.src_port;
    dest_port = port;
  }

  relayed :
      (from : SocketData)
      → g.enabled ≡ true
      → from.bytes ≡ spiffy_bytes wrapped msg
      → (r : Recvd) × (spiffy_recvfrom stray h size before (some from) ≡ some r)
        × Delivered g msg from r
  unfolding spiffy_recvfrom
  relayed from on is =
      let (r, unwraps, a) = unwrap-Arrived stray size wrapped msg src_addr src_port fits in
      let len = length-spiffy_bytes wrapped msg in
      let all : take (size + 16) from.bytes ≡ spiffy_bytes wrapped msg =
        ap (take (size + 16)) is
        ∙ take_all (size + 16) (spiffy_bytes wrapped msg) (omega (arith, len)) in
      let some' : ltb 0 (length (spiffy_bytes wrapped msg)) ≡ true = ground (arith, len) in
      (r, rw (same, on, all, some') unwraps, rw on a)

  direct :
      (from : SocketData)
      → g.enabled ≡ false
      → from.bytes ≡ msg
      → (r : Recvd) × (spiffy_recvfrom stray h size before (some from) ≡ some r)
        × Delivered g msg from r
  unfolding spiffy_recvfrom
  direct from off is =
      let all : take size from.bytes ≡ msg = ap (take size) is ∙ take_all size msg fits in
      let r : Recvd = record {
        ret = pos (length msg);
        buffer = msg ++ drop (length msg) before.buffer;
        addr = from.addr;
        port = from.port;
      } in
      (
        r,
        rw (same, off, all) refl,
        rw off (record {
          ret = refl;
          message = take-length msg (drop (length msg) before.buffer);
          addr = refl;
          port = refl;
        }),
      )

  -- A message fits into the receiver's buffer, the sender's address and port fit their types, and
  -- both peers use the simulator or neither does. The bytes of what `spiffy_sendto` hands to
  -- `sendto` arrive. Then it was handed on for the router, or for the destination;
  -- `spiffy_recvfrom` returns the length of the message and has the message in front of the buffer,
  -- and the address and the port it gives are the sender's own, or without the simulator those that
  -- the socket sees.
  pub spiffy_recvfrom-spiffy_sendto :
      (d from : SocketData)
      → (spiffy_sendto g msg true addr port sent).1 ≡ some d
      → from.bytes ≡ d.bytes
      → (r : Recvd) × (spiffy_recvfrom stray h size before (some from) ≡ some r)
        × Delivered g msg from r
        × (d.addr ≡ (if g.enabled then g.router_addr else addr))
        × (d.port ≡ (if g.enabled then g.router_port else port))
  unfolding spiffy_sendto
  spiffy_recvfrom-spiffy_sendto d from hands is = elim (Bool-cases g.enabled) [
    | inl on ↦
        let d1 : SocketData = record {
          bytes = spiffy_bytes wrapped msg;
          addr = g.router_addr;
          port = g.router_port;
        } in
        let same_d : d ≡ d1 = some-eq d d1 (sym hands ∙ rw on refl) in
        let (r, receives, a) = relayed from on (is ∙ ap (λ (x : SocketData). x.bytes) same_d) in
        (
          r,
          receives,
          a,
          ap (λ (x : SocketData). x.addr) same_d ∙ rw on refl,
          ap (λ (x : SocketData). x.port) same_d ∙ rw on refl,
        )
    | inr off ↦
        let d1 : SocketData = record { bytes = msg; addr = addr; port = port } in
        let same_d : d ≡ d1 = some-eq d d1 (sym hands ∙ rw off refl) in
        let (r, receives, a) = direct from off (is ∙ ap (λ (x : SocketData). x.bytes) same_d) in
        (
          r,
          receives,
          a,
          ap (λ (x : SocketData). x.addr) same_d ∙ rw off refl,
          ap (λ (x : SocketData). x.port) same_d ∙ rw off refl,
        )
  ]
