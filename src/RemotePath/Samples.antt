-- ===== src/RemotePath/Samples.antt =====
-- Concrete endpoints for runs: `a`, which may also be written `A`, and `b`.
use iroh_proxy.Common.{ℕ, none, some, if◌then◌else◌, nat_eq}
use iroh_proxy.Common.Text.{text, text_eq}
use iroh_proxy.RemotePath.{Iroh, RemotePath}

instance abbrev pub letter_ids : Iroh ℕ
letter_ids = record {
  from_str = λ s.
      if text_eq s (text "a")
      then some 0
      else if text_eq s (text "A")
      then some 0
      else if text_eq s (text "b")
      then some 1
      else none;
  to_string = λ i. if nat_eq i 0 then text "a" else text "b";
}

abbrev pub ollama : RemotePath ℕ
ollama = record { endpoint_id = 0; service = text "ollama" }
