-- ===== src/Sql/Client.antt =====
-- What src/data_source/sql.rs takes from the crates tokio_postgres and serde_json and from the types of
-- the application: a client of a database, and encodings.
use hotshot_query_service.Prelude.{
  ℕ, ◌-◌, ◌^◌, ◌%◌, Option, List, Result, ltb, if◌then◌else◌, ◌≡◌, ok,
}
use Prim.Native.String.{String}
use hotshot_query_service.NodeTypes.{NodeTypes}
use hotshot_query_service.Metrics.Values.{ℤ, pos, negsuc}

-- `n as i64`, which wraps.
unfoldable pub as_i64 : ℕ → ℤ
as_i64 n = let m = n % 2 ^ 64 in if ltb m (2 ^ 63) then pos m else negsuc (2 ^ 64 - 1 - m)

-- `n as i32`, which wraps.
unfoldable pub as_i32 : ℕ → ℤ
as_i32 n = let m = n % 2 ^ 32 in if ltb m (2 ^ 31) then pos m else negsuc (2 ^ 32 - 1 - m)

-- `n as usize` and `n as u64` for a signed integer `n`.
unfoldable pub as_usize : ℤ → ℕ
as_usize (pos n) = n % 2 ^ 64
as_usize (negsuc n) = 2 ^ 64 - 1 - n % 2 ^ 64

-- The encodings of `serde_json` and of the hashes and keys as text, and `Payload::from_bytes`. An error
-- is its text.
pub record Encodings (N : NodeTypes) : Type 1 where
  pub Json : Type 0
  pub Text : Type 0
  pub leaf_to_json : N.Leaf → Result String Json
  pub leaf_from_json : Json → Result String N.Leaf
  pub qc_to_json : N.QuorumCertificate → Result String Json
  pub qc_from_json : Json → Result String N.QuorumCertificate
  pub header_to_json : N.Header → Result String Json
  pub header_from_json : Json → Result String N.Header
  pub index_to_json : N.TransactionIndex → Result String Json
  pub index_from_json : Json → Result String N.TransactionIndex
  pub leaf_hash_text : N.LeafHash → Text
  pub block_hash_text : N.BlockHash → Text
  pub block_hash_parse : Text → Result String N.BlockHash
  pub transaction_hash_text : N.TransactionHash → Text
  pub key_text : N.EncodedPublicKey → Text
  -- the text of the error of encoding a payload that cannot be encoded
  pub encode_error : N.Payload → String
  pub from_bytes : List ℕ → N.Header → N.Payload

-- What is read back is what was encoded.
pub record EncodingLaws {N : NodeTypes} (C : Encodings N) : Type 0 where
  pub leaf_round : (l : N.Leaf) (j : C.Json) → C.leaf_to_json l ≡ ok j → C.leaf_from_json j ≡ ok l
  pub header_round :
      (h : N.Header) (j : C.Json) → C.header_to_json h ≡ ok j → C.header_from_json j ≡ ok h
  pub hash_round : (h : N.BlockHash) → C.block_hash_parse (C.block_hash_text h) ≡ ok h
  pub qc_round :
      (q : N.QuorumCertificate) (j : C.Json) → C.qc_to_json q ≡ ok j → C.qc_from_json j ≡ ok q

-- A parameter of a statement (`Box<dyn ToSql>`).
pub data Param (J T : Type 0) : Type 0 where
  bigint : ℤ → Param J T
  integer : ℤ → Param J T
  text : T → Param J T
  json : J → Param J T
  bytea : List ℕ → Param J T

-- A client with the database behind it. An error is its text. A query does not change the database.
pub record Client (J T : Type 0) : Type 1 where
  pub Db : Type 0
  pub Row : Type 0
  pub batch_execute : Db → String → Db × Result String (Unit {0})
  pub execute_raw : Db → String → List (Param J T) → Db × Result String (Unit {0})
  pub query_opt : Db → String → List (Param J T) → Result String (Option Row)
  pub query_one : Db → String → List (Param J T) → Result String Row
  pub query_raw : Db → String → List (Param J T) → Result String (List (Result String Row))
  pub try_get_json : Row → String → Result String J
  pub try_get_text : Row → String → Result String T
  pub try_get_integer : Row → String → Result String (Option ℤ)
  pub try_get_bytea : Row → String → Result String (Option (List ℕ))
  -- `row.get(0)`, which panics on an error
  pub get_bigint : Row → ℕ → Result String (Option ℤ)
