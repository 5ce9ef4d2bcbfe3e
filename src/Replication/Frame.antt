-- ===== src/Replication/Frame.antt =====
-- The frames of src/replication.rs: `Frame`, and the `MULTICAST` payload (`encode_udp_info`, `MulticastInfo`).
pub mod Roundtrip
use ringfire.Prelude.{
  ℕ, ◌+◌, ◌-◌, ◌%◌, ◌^◌, ◌≤◌, ◌<◌, min, ◌≡◌, Bool, true, false, not, ◌&&◌, ◌||◌, List, [], ◌∷◌,
  ◌++◌, leb, ltb, ◌==◌, ◌!=◌, if◌then◌else◌,
}
use ringfire.Errors.{Result, ok, err, ◌>>=◌, ◌>>◌, refuse_if, protocol}
use ringfire.Replication.Bytes.{to_le_bytes, from_le_bytes, range, byte_at}

abbrev pub frame_header_len : ℕ
frame_header_len = 16

abbrev pub nak_len : ℕ
nak_len = 8

abbrev pub kind_hello : ℕ
kind_hello = 1

abbrev pub kind_geometry : ℕ
kind_geometry = 2

abbrev pub kind_data : ℕ
kind_data = 3

abbrev pub kind_gap : ℕ
kind_gap = 4

abbrev pub kind_heartbeat : ℕ
kind_heartbeat = 5

abbrev pub kind_nak : ℕ
kind_nak = 6

abbrev pub kind_multicast : ℕ
kind_multicast = 7

abbrev pub kind_punch : ℕ
kind_punch = 8

pub record Frame : Type 0 where
  pub kind : ℕ
  pub flags : ℕ
  pub count : ℕ
  pub len : ℕ
  pub seq : ℕ

unfoldable pub control : (kind seq : ℕ) → Frame
control kind seq = record { kind = kind; flags = 0; count = 0; len = 0; seq = seq }

unfoldable pub encode : Frame → List ℕ
encode f =
    f.kind ∷ f.flags ∷ (to_le_bytes 2 f.count ++ (to_le_bytes 4 f.len ++ to_le_bytes 8 f.seq))

unfoldable pub decode : List ℕ → Frame
decode b = record {
  kind = byte_at b 0;
  flags = byte_at b 1;
  count = from_le_bytes (range b 2 4);
  len = from_le_bytes (range b 4 8);
  seq = from_le_bytes (range b 8 16);
}

-- An IPv4 address is the list of its four octets.
pub record MulticastInfo : Type 0 where
  pub group : List ℕ
  pub port : ℕ
  pub session : ℕ
  pub token : ℕ

unfoldable pub encode_udp_info : (group : List ℕ) (port mtu ttl session token : ℕ) → List ℕ
encode_udp_info group port mtu ttl session token =
    group
    ++ (to_le_bytes 2 port
        ++ (to_le_bytes 2 (min mtu (2 ^ 16 - 1))
            ++ (ttl ∷ session ∷ (to_le_bytes 4 token ++ (0 ∷ 0 ∷ [])))))

-- `Ipv4Addr::is_multicast` and `is_unspecified`.
abbrev pub is_multicast : List ℕ → Bool
is_multicast group = leb 224 (byte_at group 0) && leb (byte_at group 0) 239

abbrev pub is_unspecified : List ℕ → Bool
is_unspecified group =
    byte_at group 0 == 0 && byte_at group 1 == 0 && byte_at group 2 == 0 && byte_at group 3 == 0

pub decode_udp_info : List ℕ → Result MulticastInfo
decode_udp_info b = do
  let group = range b 0 4
  refuse_if (not (is_multicast group) && not (is_unspecified group))
      (protocol "MULTICAST group is not a multicast address")
  ok (record {
    group = group;
    port = from_le_bytes (range b 4 6);
    session = byte_at b 9;
    token = from_le_bytes (range b 10 14);
  })
