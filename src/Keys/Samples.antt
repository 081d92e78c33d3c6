-- ===== src/Keys/Samples.antt =====
-- Keys of one byte, and an operating system without faults, for runs of src/keys.rs.
use iroh_proxy.Common.{ℕ, ◌≡◌, refl, false, Option, none, some, [], ◌∷◌}
use iroh_proxy.Common.Utf8.{Bytes}
use iroh_proxy.Keys.{Secret, KeyOs}
use iroh_proxy.Keys.Private.{ReadsBack}

abbrev read_byte : Bytes → Option ℕ
read_byte [] = none
read_byte (b ∷ []) = some b
read_byte (b ∷ c ∷ bytes) = none

instance abbrev pub byte_key : Secret ℕ
byte_key = record { try_from = read_byte; to_bytes = λ b. b ∷ [] }

pub byte_key-ReadsBack : ReadsBack byte_key
byte_key-ReadsBack key = refl

pub byte_key-none : byte_key.try_from [] ≡ none
byte_key-none = refl

abbrev pub sound : KeyOs
sound = record {
  create_mode = 384;
  create_dir_fails = false;
  read_fails = false;
  open_fails = false;
  metadata_fails = false;
  set_permissions_fails = false;
  write_fails = none;
  sync_fails = false;
  seek_fails = false;
  set_len_fails = false;
}
