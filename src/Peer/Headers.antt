-- ===== src/Peer/Headers.antt =====
-- Headers as bytes.
use proj.Prelude.{ℕ, ◌+◌, ◌*◌, ◌/◌, ◌%◌, ◌^◌, ◌<◌, ◌≡◌, some, List, arith}
use proj.Wire.{Header}
use proj.Peer.{header_bytes, read_packet}

-- All fields fit their C types.
pub record Fits (h : Header) : Type 0 where
  pub magicnum : h.magicnum < 2 ^ 16
  pub version : h.version < 2 ^ 8
  pub packet_type : h.packet_type < 2 ^ 8
  pub header_len : h.header_len < 2 ^ 16
  pub packet_len : h.packet_len < 2 ^ 16
  pub seq_num : h.seq_num < 2 ^ 32
  pub ack_num : h.ack_num < 2 ^ 32

short-value : (x : ℕ) → x < 2 ^ 16 → x % 256 + 256 * (x / 256 % 256) ≡ x
short-value x h = omega arith

-- A word from its four bytes.
pub word-value :
    (x : ℕ)
    → x < 2 ^ 32
    → x % 65536 % 256
        + 256 * (x % 65536 / 256 % 256)
        + 65536 * (x / 65536 % 256 + 256 * (x / 65536 / 256 % 256))
      ≡ x
word-value x h = omega arith

-- A header whose fields fit their types is read back from its bytes, with the rest as payload.
pub read_packet-header_bytes :
    (h : Header) (rest : List ℕ)
    → Fits h
    → read_packet (header_bytes h rest) ≡ some (record { header = h; payload = rest })
unfolding read_packet header_bytes
read_packet-header_bytes h rest f = ground (
  arith,
  short-value h.magicnum f.magicnum,
  short-value h.header_len f.header_len,
  short-value h.packet_len f.packet_len,
  word-value h.seq_num f.seq_num,
  word-value h.ack_num f.ack_num,
)
