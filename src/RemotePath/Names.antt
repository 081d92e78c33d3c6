-- ===== src/RemotePath/Names.antt =====
-- What `validate_service_name` accepts.
use iroh_proxy.Common.{ℕ, ◌≤◌, ◌≡◌, refl, ◌≢◌, ◌↔◌, false, [], ◌∷◌, ok, arith, All, any}
use iroh_proxy.Common.Text.{Text, is_whitespace, is_control}
use iroh_proxy.Common.Utf8.{byte_len}
use iroh_proxy.RemotePath.{is_bad_char, validate_service_name}

-- Neither a slash, nor white space, nor a control character.
abbrev pub IsNameChar : ℕ → Type 0
IsNameChar c = (c ≢ b'/') × (is_whitespace c ≡ false) × (is_control c ≡ false)

pub record IsServiceName (name : Text) : Type 0 where
  pub nonempty : name ≢ []
  pub short : byte_len name ≤ 128
  pub clean : All IsNameChar name

is_bad_char-false : (c : ℕ) → (is_bad_char c ≡ false) ↔ IsNameChar c
unfolding is_bad_char
is_bad_char-false c = ground arith

any-clean : (s : Text) → any is_bad_char s ≡ false → All IsNameChar s
any-clean [] h = tt
any-clean (c ∷ s) h = ground (arith, is_bad_char-false c, any-clean s)

clean-any : (s : Text) → All IsNameChar s → any is_bad_char s ≡ false
clean-any [] h = refl
clean-any (c ∷ s) (p, h) = ground (arith, is_bad_char-false c, clean-any s h)

-- A name is accepted exactly if it has 1 to 128 bytes and no slash, white space or control
-- character.
pub validate_service_name_iff :
    (name : Text) → (validate_service_name name ≡ ok tt) ↔ IsServiceName name
unfolding validate_service_name
validate_service_name_iff name = (accepted name, valid name)
  where
    accepted : (s : Text) → validate_service_name s ≡ ok tt → IsServiceName s
    accepted s h = record {
      nonempty = ground arith;
      short = ground arith;
      clean = ground (arith, any-clean s);
    }

    valid : (s : Text) → IsServiceName s → validate_service_name s ≡ ok tt
    valid s v = ground (arith, clean-any s v.clean)
