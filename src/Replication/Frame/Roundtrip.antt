-- ===== src/Replication/Frame/Roundtrip.antt =====
-- The frame header and the `MULTICAST` payload of src/replication.rs survive the wire.
use ringfire.Prelude.{
  ℕ, ◌^◌, ◌<◌, ◌≡◌, refl, true, ◌⊎◌, inl, inr, List, [], ◌∷◌, ◌++◌, length, arith,
}
use ringfire.Errors.{ok}
use ringfire.Replication.Bytes.{to_le_bytes, from_le_bytes-to_le_bytes}
use ringfire.Replication.Frame.{
  Frame, encode, decode, encode_udp_info, is_multicast, is_unspecified, decode_udp_info,
}

-- The fields are in the range of their types.
pub record IsTyped (f : Frame) : Type 0 where
  pub kind_u8 : f.kind < 256
  pub flags_u8 : f.flags < 256
  pub count_u16 : f.count < 2 ^ 16
  pub len_u32 : f.len < 2 ^ 32
  pub seq_u64 : f.seq < 2 ^ 64

pub length-encode : (f : Frame) → length (encode f) ≡ 16
unfolding encode to_le_bytes
length-encode f = refl

-- The payload may follow the header.
pub decode-encode : (f : Frame) (rest : List ℕ) → IsTyped f → decode (encode f ++ rest) ≡ f
unfolding decode encode to_le_bytes
decode-encode f rest t = cc (
  from_le_bytes-to_le_bytes 2 f.count t.count_u16,
  from_le_bytes-to_le_bytes 4 f.len t.len_u32,
  from_le_bytes-to_le_bytes 8 f.seq t.seq_u64,
)

-- An announced group that is a multicast address, or 0.0.0.0 for unicast, comes back with the port, the
-- session and the token.
decode_udp_info-encode_udp_info :
    (a b c d port mtu ttl session token : ℕ)
    → port < 2 ^ 16
    → token < 2 ^ 32
    → (is_multicast (a ∷ b ∷ c ∷ d ∷ []) ≡ true) ⊎ (is_unspecified (a ∷ b ∷ c ∷ d ∷ []) ≡ true)
    → decode_udp_info (encode_udp_info (a ∷ b ∷ c ∷ d ∷ []) port mtu ttl session token)
      ≡ ok (record { group = a ∷ b ∷ c ∷ d ∷ []; port = port; session = session; token = token })
unfolding decode_udp_info encode_udp_info to_le_bytes
decode_udp_info-encode_udp_info a b c d port mtu ttl session token lt lt' (inl group) =
    rw group (cc (from_le_bytes-to_le_bytes 2 port lt, from_le_bytes-to_le_bytes 4 token lt'))
decode_udp_info-encode_udp_info a b c d port mtu ttl session token lt lt' (inr group) =
    ground (arith, from_le_bytes-to_le_bytes 2 port lt, from_le_bytes-to_le_bytes 4 token lt')
