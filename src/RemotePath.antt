-- ===== src/RemotePath.antt =====
-- src/remote_path.rs: service names, their ALPN identifiers, and the paths `<node-id>/tcp/<name>`.
-- The iroh crate's `EndpointId` is a type with the two functions that the source calls.
pub mod Names
pub mod Alpn
pub mod Parsing
pub mod Samples
mod Tests
use iroh_proxy.Common.{
  ℕ, Bool, ◌||◌, Option, none, some, List, [], ◌∷◌, ◌++◌, Result, ok, err, ◌>>=◌, ◌>>◌, map_err,
  bail_if, ltb, nat_eq, if◌then◌else◌, ◌==◌, is_empty, any,
}
use iroh_proxy.Common.Text.{Text, text, text_eq, text_Keyed, is_whitespace, is_control}
use iroh_proxy.Common.Utf8.{Bytes, encode, byte_len}

-- `EndpointId::from_str`, without the error's text, and its `Display`.
pub record Iroh (EndpointId : Type 0) : Type 0 where
  pub from_str : Text → Option EndpointId
  pub to_string : EndpointId → Text

pub record RemotePath (EndpointId : Type 0) : Type 0 where
  pub endpoint_id : EndpointId
  pub service : Text

abbrev pub max_service_name_len : ℕ
max_service_name_len = 128

pub data NameError : Type 0 where
  empty_name name_too_long name_bad_char : NameError

unfoldable pub is_bad_char : ℕ → Bool
is_bad_char ch = nat_eq ch b'/' || is_whitespace ch || is_control ch

unfoldable pub validate_service_name : Text → Result NameError (Unit {0})
validate_service_name name = do
  bail_if (is_empty name) empty_name
  bail_if (ltb max_service_name_len (byte_len name)) name_too_long
  bail_if (any is_bad_char name) name_bad_char
  ok tt

abbrev pub alpn_prefix : Text
alpn_prefix = text "iroh-proxy/tcp/"

unfoldable pub service_to_alpn : Text → Bytes
service_to_alpn name = encode (alpn_prefix ++ name)

unfoldable pub to_alpn : {EndpointId : Type 0} → RemotePath EndpointId → Bytes
to_alpn remote = service_to_alpn remote.service

-- `str::split('/')`, collected.
abbrev prepend : ℕ → List Text → List Text
prepend c [] = (c ∷ []) ∷ []
prepend c (part ∷ parts) = (c ∷ part) ∷ parts

unfoldable pub split_slash : Text → List Text
split_slash [] = [] ∷ []
split_slash (c ∷ s) =
    let parts = split_slash s in if nat_eq c b'/' then [] ∷ parts else prepend c parts

pub data PathError : Type 0 where
  missing_endpoint missing_protocol missing_service extra_segment : PathError
  unsupported_protocol : Text → PathError
  invalid_service : Text → NameError → PathError
  invalid_endpoint : Text → PathError

module _ {EndpointId : Type 0} ⦃iroh : Iroh EndpointId⦄ where
  unfoldable pub check_endpoint : Text → Text → Result PathError (RemotePath EndpointId)
  check_endpoint endpoint_raw service = elim (iroh.from_str endpoint_raw) [
    | none ↦ err (invalid_endpoint endpoint_raw)
    | some id ↦ ok (record { endpoint_id = id; service = service })
  ]

  unfoldable pub check_segments : Text → Text → Text → Result PathError (RemotePath EndpointId)
  unfolding check_endpoint
  check_segments endpoint_raw protocol service =
      if protocol == text "tcp"
      then (do
        map_err (invalid_service service) (validate_service_name service)
        check_endpoint endpoint_raw service)
      else err (unsupported_protocol protocol)

  -- The segments are taken one by one; a fourth is refused before the others are looked at.
  unfoldable pub from_segments : List Text → Result PathError (RemotePath EndpointId)
  unfolding check_segments
  from_segments [] = err missing_endpoint
  from_segments (endpoint_raw ∷ []) = err missing_protocol
  from_segments (endpoint_raw ∷ protocol ∷ []) = err missing_service
  from_segments (endpoint_raw ∷ protocol ∷ service ∷ []) =
      check_segments endpoint_raw protocol service
  from_segments (endpoint_raw ∷ protocol ∷ service ∷ extra ∷ rest) = err extra_segment

  -- `RemotePath::from_str`.
  unfoldable pub parse : Text → Result PathError (RemotePath EndpointId)
  unfolding from_segments split_slash
  parse value = from_segments (split_slash value)

  -- `format!("{}/tcp/{}", remote.endpoint_id, remote.service)`, as the daemon prints a path.
  unfoldable pub show_remote : RemotePath EndpointId → Text
  show_remote remote = iroh.to_string remote.endpoint_id ++ (text "/tcp/" ++ remote.service)
