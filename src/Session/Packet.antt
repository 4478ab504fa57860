-- ===== src/Session/Packet.antt =====
-- The packet header of session/multiplex_handler.c: 8 bytes, the numbers of two bytes in network
-- order. A `uint16_t` keeps the low 16 bits of what is assigned, a `uint8_t` the low 8.
use my_test_module.Prelude.{
  ℕ, ◌+◌, ◌*◌, ◌/◌, ◌%◌, ◌≡◌, ◌<◌, refl, List, [], ◌∷◌, ◌++◌, arith, get_or, length,
}

pub record ProtocolBuffer : Type 0 where
  pub kind : ℕ
  pub option : ℕ
  pub local_channel_id : ℕ
  pub remote_channel_id : ℕ
  pub payload_len : ℕ

abbrev pub head_len : ℕ
head_len = 8

-- the two bytes of `htons(n)` in memory
abbrev pub htons_bytes : ℕ → List ℕ
htons_bytes n = n / 256 % 256 ∷ n % 256 ∷ []

abbrev pub ntohs_bytes : ℕ → ℕ → ℕ
ntohs_bytes hi lo = hi * 256 + lo

-- the header in memory
unfoldable pub header_bytes : ProtocolBuffer → List ℕ
header_bytes pb =
    pb.kind % 256 ∷ pb.option % 256 ∷ htons_bytes pb.local_channel_id
    ++ htons_bytes pb.remote_channel_id
    ++ htons_bytes pb.payload_len

-- the fields of the header at the front of `bytes`
unfoldable pub read_header : List ℕ → ProtocolBuffer
read_header bytes = record {
  kind = get_or bytes 0 0;
  option = get_or bytes 1 0;
  local_channel_id = ntohs_bytes (get_or bytes 2 0) (get_or bytes 3 0);
  remote_channel_id = ntohs_bytes (get_or bytes 4 0) (get_or bytes 5 0);
  payload_len = ntohs_bytes (get_or bytes 6 0) (get_or bytes 7 0);
}

-- The length of the packet whose header stands at the front of `bytes`.
abbrev pub packet_len : List ℕ → ℕ
packet_len bytes = ntohs_bytes (get_or bytes 6 0) (get_or bytes 7 0) + head_len

pub length-header_bytes : (pb : ProtocolBuffer) → length (header_bytes pb) ≡ 8
unfolding header_bytes
length-header_bytes pb = refl

-- The fields come back from the wire if they fit their types.
pub record Fits (pb : ProtocolBuffer) : Type 0 where
  pub kind : pb.kind < 256
  pub option : pb.option < 256
  pub local : pb.local_channel_id < 65536
  pub remote : pb.remote_channel_id < 65536
  pub payload : pb.payload_len < 65536

-- The fields of a header come back from its bytes, whatever follows them, if each field fits its
-- type.
pub read_header-header_bytes :
    (pb : ProtocolBuffer) (payload : List ℕ)
    → Fits pb
    → read_header (header_bytes pb ++ payload) ≡ pb
unfolding header_bytes read_header
read_header-header_bytes pb payload f = ground arith

pub packet_len-header_bytes :
    (pb : ProtocolBuffer) (payload : List ℕ)
    → pb.payload_len < 65536
    → packet_len (header_bytes pb ++ payload) ≡ pb.payload_len + 8
unfolding header_bytes
packet_len-header_bytes pb payload h = omega arith
