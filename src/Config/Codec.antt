-- ===== src/Config/Codec.antt =====
-- A concrete printer and reader of configurations, for runs: each text and list after its length.
use iroh_proxy.Common.{
  ℕ, zero, suc, ◌≡◌, refl, ap, subst, subst, Option, none, some, List, [], ◌∷◌, ◌++◌, length, take,
}
use iroh_proxy.Common.Text.{Text}
use iroh_proxy.Common.Utf8.{Bytes}
use iroh_proxy.Config.Rules.{Config, ServeService, ForwardService, ServeSection, ForwardSection}
use iroh_proxy.Config.Files.{Toml}
use iroh_proxy.Config.Loading.{RoundTrips}

abbrev drop : ℕ → Bytes → Bytes
drop zero s = s
drop (suc n) [] = []
drop (suc n) (x ∷ s) = drop n s

put_text : Text → Bytes → Bytes
put_text t tail = length t ∷ (t ++ tail)

put_serves : List ServeService → Bytes → Bytes
put_serves [] tail = tail
put_serves (s ∷ l) tail = put_text s.name (put_text s.target (put_serves l tail))

put_forwards : List ForwardService → Bytes → Bytes
put_forwards [] tail = tail
put_forwards (f ∷ l) tail =
    f.close_on_request_timeout_secs ∷ put_text f.listen (put_text f.remote (put_forwards l tail))

put_serve : Option ServeSection → Bytes → Bytes
put_serve none tail = 0 ∷ tail
put_serve (some section) tail = 1 ∷ length section.services ∷ put_serves section.services tail

put_forward : Option ForwardSection → Bytes → Bytes
put_forward none tail = 0 ∷ tail
put_forward (some section) tail = 1 ∷ length section.services ∷ put_forwards section.services tail

put_config : Config → Bytes
put_config c = put_serve c.serve (put_forward c.forward [])

infixl 5 ◌>>=◌
abbrev ◌>>=◌ : {A B : Type 0} → Option A → (A → Option B) → Option B
none >>= f = none
some a >>= f = f a

get_text : Bytes → Option (Text × Bytes)
get_text [] = none
get_text (n ∷ s) = some (take n s, drop n s)

get_serves : ℕ → Bytes → Option (List ServeService × Bytes)
get_serves zero s = some ([], s)
get_serves (suc n) s = get_text s >>= λ (name, s1). get_text s1 >>= λ (target, s2).
    get_serves n s2 >>= λ (l, s3). some (record { name = name; target = target } ∷ l, s3)

get_forwards : ℕ → Bytes → Option (List ForwardService × Bytes)
get_forwards zero s = some ([], s)
get_forwards (suc n) [] = none
get_forwards (suc n) (secs ∷ s) = get_text s >>= λ (listen, s1). get_text s1 >>= λ (remote, s2).
    get_forwards n s2 >>= λ (l, s3).
    some (record { listen = listen; remote = remote; close_on_request_timeout_secs = secs } ∷ l, s3)

get_serve : Bytes → Option (Option ServeSection × Bytes)
get_serve (suc zero ∷ n ∷ s) =
    get_serves n s >>= λ (l, s1). some (some (record { services = l }), s1)
get_serve (zero ∷ s) = some (none, s)
get_serve _ = none

get_forward : Bytes → Option (Option ForwardSection × Bytes)
get_forward (suc zero ∷ n ∷ s) =
    get_forwards n s >>= λ (l, s1). some (some (record { services = l }), s1)
get_forward (zero ∷ s) = some (none, s)
get_forward _ = none

get_config : Bytes → Option Config
unfolding get_text get_serves get_forwards get_serve get_forward
get_config s = get_serve s >>= λ (serve, s1).
    get_forward s1 >>= λ (forward, s2). some (record { serve = serve; forward = forward })

take-append : (t tail : Text) → take (length t) (t ++ tail) ≡ t
take-append [] tail = refl
take-append (c ∷ t) tail = ap (◌∷◌ c) (take-append t tail)

drop-append : (t tail : Text) → drop (length t) (t ++ tail) ≡ tail
drop-append [] tail = refl
drop-append (c ∷ t) tail = drop-append t tail

get-put_text : (t tail : Text) → get_text (put_text t tail) ≡ some (t, tail)
unfolding get_text put_text
get-put_text t tail = cc (take-append t tail, drop-append t tail)

get-put_serves :
    (l : List ServeService) (tail : Bytes)
    → get_serves (length l) (put_serves l tail) ≡ some (l, tail)
unfolding get_serves put_serves
get-put_serves [] tail = refl
get-put_serves (s ∷ l) tail =
    simp (get-put_text s.name, get-put_text s.target, get-put_serves l tail)

get-put_forwards :
    (l : List ForwardService) (tail : Bytes)
    → get_forwards (length l) (put_forwards l tail) ≡ some (l, tail)
unfolding get_forwards put_forwards
get-put_forwards [] tail = refl
get-put_forwards (f ∷ l) tail =
    simp (get-put_text f.listen, get-put_text f.remote, get-put_forwards l tail)

get-put_serve :
    (o : Option ServeSection) (tail : Bytes) → get_serve (put_serve o tail) ≡ some (o, tail)
unfolding get_serve put_serve
get-put_serve none tail = refl
get-put_serve (some section) tail = simp (get-put_serves section.services tail)

get-put_forward :
    (o : Option ForwardSection) (tail : Bytes) → get_forward (put_forward o tail) ≡ some (o, tail)
unfolding get_forward put_forward
get-put_forward none tail = refl
get-put_forward (some section) tail = simp (get-put_forwards section.services tail)

get-put_config : (c : Config) → get_config (put_config c) ≡ some c
unfolding get_config put_config
get-put_config c = simp (get-put_serve c.serve, get-put_forward c.forward)

instance unfoldable pub sample_toml : Toml
unfolding get_config put_config put_text put_serves put_forwards put_serve put_forward
sample_toml = record { from_str = get_config; to_string_pretty = λ c. some (put_config c) }

pub sample_toml-RoundTrips : RoundTrips sample_toml
unfolding sample_toml
sample_toml-RoundTrips c raw h =
    let e : put_config c ≡ raw = cc in subst (λ r. get_config r ≡ some c) e (get-put_config c)
