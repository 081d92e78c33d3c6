-- ===== src/RemotePath/Tests.antt =====
-- Runs of src/remote_path.rs, and the theorems at concrete inputs.
use iroh_proxy.Common.{ℕ, ◌≡◌, refl, ◌↔◌, Result, ok, err, arith}
use iroh_proxy.Common.Text.{Text, text}
use iroh_proxy.Common.Utf8.{text_computes}
use iroh_proxy.RemotePath.{
  RemotePath, PathError, parse, show_remote, service_to_alpn, validate_service_name, is_bad_char,
  extra_segment, missing_protocol, unsupported_protocol, invalid_service, invalid_endpoint,
  empty_name, name_bad_char,
}
use iroh_proxy.RemotePath.Samples.{letter_ids, ollama}
use iroh_proxy.RemotePath.Names.{IsServiceName, validate_service_name_iff}
use iroh_proxy.RemotePath.Alpn.{service_to_alpn_injective}
use iroh_proxy.RemotePath.Parsing.{Denotes, parse_iff, parse-show_remote}

abbrev read : Text → Result PathError (RemotePath ℕ)
read = parse

parse_tests :
    (read (text "a/tcp/ollama") ≡ ok ollama)
    × (read (text "a/udp/ollama") ≡ err (unsupported_protocol (text "udp")))
    × (read (text "a/tcp/ollama/extra") ≡ err extra_segment)
    × (read (text "a") ≡ err missing_protocol)
    × (read (text "c/tcp/x") ≡ err (invalid_endpoint (text "c")))
    × (read (text "a/tcp/") ≡ err (invalid_service (text "") empty_name))
    × (read (text "a/tcp/b d") ≡ err (invalid_service (text "b d") name_bad_char))
unfolding parse is_bad_char validate_service_name text_computes
parse_tests = (refl, refl, refl, refl, refl, refl, refl)

alpn_test : service_to_alpn (text "ollama") ≡ text "iroh-proxy/tcp/ollama"
unfolding service_to_alpn text_computes
alpn_test = refl

ollama-IsServiceName : IsServiceName (text "ollama")
unfolding validate_service_name is_bad_char text_computes
ollama-IsServiceName = (validate_service_name_iff (text "ollama")).0 refl

valid_name : (validate_service_name (text "ollama") ≡ ok tt) ↔ IsServiceName (text "ollama")
valid_name = validate_service_name_iff (text "ollama")

two_names : text "ollama" ≡ text "ollama"
two_names =
    service_to_alpn_injective (text "ollama") (text "ollama") (omega arith) (omega arith) refl

parse_iff_example : (parse (text "a/tcp/ollama") ≡ ok ollama) ↔ Denotes (text "a/tcp/ollama") ollama
parse_iff_example = parse_iff (text "a/tcp/ollama") ollama

parse-show_remote_example : parse (show_remote ollama) ≡ ok ollama
unfolding text_computes
parse-show_remote_example = parse-show_remote ollama refl (omega arith) ollama-IsServiceName
