-- ===== src/Nats/Codec.antt =====
-- What transport/natstransport asks of msgpack and of NATS. A value is marshaled to bytes, and
-- unmarshaled from them; both may fail.
use eurus.Prelude.{ℕ, String, List, Option, some, ◌≡◌}

abbrev pub Bytes : Type 0
Bytes = List ℕ

-- msgpack.Marshal and msgpack.Unmarshal at one type.
pub record Codec (A : Type 0) : Type 0 where
  pub marshal : A → Option Bytes
  pub unmarshal : Bytes → Option A

-- The value is marshaled, and its bytes are unmarshaled to it.
pub record Keeps {A : Type 0} (c : Codec A) (a : A) : Type 0 where
  pub bytes : Bytes
  pub marshals : c.marshal a ≡ some bytes
  pub unmarshals : c.unmarshal bytes ≡ some a

-- nats.Msg: the subject to reply to, and the bytes.
pub record Msg : Type 0 where
  pub reply : String
  pub bytes : Bytes
