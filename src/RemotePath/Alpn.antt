-- ===== src/RemotePath/Alpn.antt =====
-- The ALPN identifiers of services.
use iroh_proxy.Common.{◌≡◌, ◌++◌, arith, All-append}
use iroh_proxy.Common.Text.{Text}
use iroh_proxy.Common.Utf8.{IsText, IsChar, encode_injective}
use iroh_proxy.RemotePath.{service_to_alpn, alpn_prefix}

alpn_prefix-cancel : (s t : Text) → alpn_prefix ++ s ≡ alpn_prefix ++ t → s ≡ t
alpn_prefix-cancel s t e = cc

prefixed-IsText : (s : Text) → IsText s → IsText (alpn_prefix ++ s)
prefixed-IsText s h = All-append IsChar alpn_prefix s (omega arith) h

-- Services with different names have different ALPN identifiers.
pub service_to_alpn_injective :
    (name other : Text)
    → IsText name
    → IsText other
    → service_to_alpn name ≡ service_to_alpn other
    → name ≡ other
unfolding service_to_alpn
service_to_alpn_injective name other h k e =
    alpn_prefix-cancel name other
      (encode_injective _ _ (prefixed-IsText name h) (prefixed-IsText other k) e)
