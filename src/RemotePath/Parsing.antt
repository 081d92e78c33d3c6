-- ===== src/RemotePath/Parsing.antt =====
-- What `RemotePath::from_str` accepts, and printing followed by parsing.
use iroh_proxy.Common.{
  ℕ, ◌≡◌, refl, ap, subst, nat_eq_iff, ◌≢◌, ◌↔◌, ◌∙◌, some, List, [], ◌∷◌, ◌++◌, if◌then◌else◌, inl,
  inr, ok, arith, All, nat_eq, Bool-cases,
}
use iroh_proxy.Common.Text.{Text, text, text_eq, text_eq_iff}
use iroh_proxy.RemotePath.{
  Iroh, RemotePath, split_slash, prepend, check_endpoint, check_segments, from_segments, parse,
  show_remote, validate_service_name,
}
use iroh_proxy.RemotePath.Names.{IsServiceName, IsNameChar, validate_service_name_iff}

abbrev pub NoSlash : Text → Type 0
NoSlash s = All (λ c. c ≢ b'/') s

abbrev join_slash : List Text → Text
join_slash [] = []
join_slash (part ∷ []) = part
join_slash (part ∷ next ∷ parts) = part ++ (b'/' ∷ join_slash (next ∷ parts))

join-prepend : (c : ℕ) (parts : List Text) → join_slash (prepend c parts) ≡ c ∷ join_slash parts
join-prepend c [] = refl
join-prepend c (part ∷ []) = refl
join-prepend c (part ∷ next ∷ parts) = refl

join-nil : (parts : List Text) → parts ≢ [] → join_slash ([] ∷ parts) ≡ b'/' ∷ join_slash parts
join-nil [] h = absurd (h refl)
join-nil (part ∷ parts) h = refl

split_slash-ne-nil : (s : Text) → split_slash s ≢ []
unfolding split_slash
split_slash-ne-nil [] h = cc
split_slash-ne-nil (c ∷ s) h = go (split_slash s) (ground arith)
  where
    go : (l : List Text) → (if nat_eq c b'/' then [] ∷ l else prepend c l) ≢ []
    go [] e = ground arith
    go (part ∷ parts) e = ground arith

-- Splitting at the slashes loses nothing, and leaves no slash in a part.
join-split : (s : Text) → join_slash (split_slash s) ≡ s
unfolding split_slash
join-split [] = refl
join-split (c ∷ s) = elim (Bool-cases (nat_eq c b'/')) [
  | inl e ↦
      rw e (
        join-nil (split_slash s) (split_slash-ne-nil s)
        ∙ cc ((nat_eq_iff c b'/').0 e, join-split s))
  | inr e ↦ rw e (join-prepend c (split_slash s) ∙ ap (◌∷◌ c) (join-split s))
]

prepend-NoSlash :
    (c : ℕ) (parts : List Text) → c ≢ b'/' → All NoSlash parts → All NoSlash (prepend c parts)
prepend-NoSlash c [] p h = ((p, tt), tt)
prepend-NoSlash c (part ∷ parts) p (q, h) = ((p, q), h)

split-NoSlash : (s : Text) → All NoSlash (split_slash s)
unfolding split_slash
split-NoSlash [] = (tt, tt)
split-NoSlash (c ∷ s) = elim (Bool-cases (nat_eq c b'/')) [
  | inl e ↦ rw e (tt, split-NoSlash s)
  | inr e ↦ rw e (prepend-NoSlash c (split_slash s) (ground arith) (split-NoSlash s))
]

split-plain : (s : Text) → NoSlash s → split_slash s ≡ s ∷ []
unfolding split_slash
split-plain [] h = refl
split-plain (c ∷ s) (p, h) = ground (arith, split-plain s h)

split-append :
    (part rest : Text)
    → NoSlash part
    → split_slash (part ++ (b'/' ∷ rest)) ≡ part ∷ split_slash rest
unfolding split_slash
split-append [] rest h = refl
split-append (c ∷ part) rest (p, h) = ground (arith, split-append part rest h)

service-NoSlash : (name : Text) → All IsNameChar name → NoSlash name
service-NoSlash [] h = tt
service-NoSlash (c ∷ name) (p, h) = (p.0, service-NoSlash name h)

split-written :
    (raw service : Text)
    → NoSlash raw
    → NoSlash service
    → split_slash (raw ++ (text "/tcp/" ++ service)) ≡ raw ∷ text "tcp" ∷ service ∷ []
split-written raw service plain clean =
    split-append raw (text "tcp/" ++ service) plain
    ∙ ap (◌∷◌ raw) (
        split-append (text "tcp") service (omega arith)
        ∙ ap (◌∷◌ (text "tcp")) (split-plain service clean))

module _ {EndpointId : Type 0} ⦃iroh : Iroh EndpointId⦄ where
  -- The shape of an accepted path.
  pub record Denotes (value : Text) (remote : RemotePath EndpointId) : Type 0 where
    pub endpoint_raw : Text
    pub written : value ≡ endpoint_raw ++ (text "/tcp/" ++ remote.service)
    pub plain : NoSlash endpoint_raw
    pub known : iroh.from_str endpoint_raw ≡ some remote.endpoint_id
    pub named : IsServiceName remote.service

  check_endpoint-ok :
      (raw service : Text) (r : RemotePath EndpointId)
      → check_endpoint raw service ≡ ok r
      → (iroh.from_str raw ≡ some r.endpoint_id) × (service ≡ r.service)
  unfolding check_endpoint
  check_endpoint-ok raw service r h = ground arith

  check_segments-ok :
      (raw protocol service : Text) (r : RemotePath EndpointId)
      → check_segments raw protocol service ≡ ok r
      → (protocol ≡ text "tcp")
        × (validate_service_name service ≡ ok tt)
        × (check_endpoint raw service ≡ ok r)
  unfolding check_segments
  check_segments-ok raw protocol service r h = ground (arith, text_eq_iff protocol (text "tcp"))

  from_segments-Denotes :
      (parts : List Text) (r : RemotePath EndpointId)
      → All NoSlash parts
      → from_segments parts ≡ ok r
      → Denotes (join_slash parts) r
  unfolding from_segments
  from_segments-Denotes (raw ∷ protocol ∷ service ∷ []) r (plain, h) e =
      let (tcp, valid, found) = check_segments-ok raw protocol service r e in
      let (known, same) = check_endpoint-ok raw service r found in
      record {
        endpoint_raw = raw;
        written = cc (tcp, same);
        plain = plain;
        known = known;
        named = subst IsServiceName same ((validate_service_name_iff service).0 valid);
      }
  from_segments-Denotes [] r h e = cc
  from_segments-Denotes (raw ∷ []) r h e = cc
  from_segments-Denotes (raw ∷ protocol ∷ []) r h e = cc
  from_segments-Denotes (raw ∷ protocol ∷ service ∷ extra ∷ rest) r h e = cc

  check_endpoint-known :
      (raw service : Text) (r : RemotePath EndpointId)
      → iroh.from_str raw ≡ some r.endpoint_id
      → service ≡ r.service
      → check_endpoint raw service ≡ ok r
  unfolding check_endpoint
  check_endpoint-known raw service r known same = ground arith

  check_segments-known :
      (raw service : Text) (r : RemotePath EndpointId)
      → validate_service_name service ≡ ok tt
      → check_endpoint raw service ≡ ok r
      → check_segments raw (text "tcp") service ≡ ok r
  unfolding check_segments text_eq
  check_segments-known raw service r valid found = rw valid found

  parse-Denotes : (value : Text) (r : RemotePath EndpointId) → parse value ≡ ok r → Denotes value r
  unfolding parse
  parse-Denotes value r h =
      subst (λ v. Denotes v r) (join-split value)
        (from_segments-Denotes (split_slash value) r (split-NoSlash value) h)

  Denotes-parse : (value : Text) (r : RemotePath EndpointId) → Denotes value r → parse value ≡ ok r
  unfolding parse
  Denotes-parse value r d =
      rw
        (
          d.written,
          split-written d.endpoint_raw r.service d.plain (service-NoSlash r.service d.named.clean),
        )
        (check_segments-known d.endpoint_raw r.service r
          ((validate_service_name_iff r.service).1 d.named)
          (check_endpoint-known d.endpoint_raw r.service r d.known refl))

  -- A text is accepted, as a given remote path, exactly if it is an endpoint id without a slash that
  -- the iroh crate reads as the path's endpoint, then `/tcp/`, then the path's service, which is a
  -- valid service name.
  pub parse_iff :
      (value : Text) (r : RemotePath EndpointId) → (parse value ≡ ok r) ↔ Denotes value r
  parse_iff value r = (parse-Denotes value r, Denotes-parse value r)

  -- A printed remote path is read back, if the iroh crate reads back what it prints for an endpoint
  -- id and prints no slash, and the service name is valid.
  pub parse-show_remote :
      (r : RemotePath EndpointId)
      → iroh.from_str (iroh.to_string r.endpoint_id) ≡ some r.endpoint_id
      → NoSlash (iroh.to_string r.endpoint_id)
      → IsServiceName r.service
      → parse (show_remote r) ≡ ok r
  unfolding show_remote
  parse-show_remote r known plain named = Denotes-parse _ r (record {
    endpoint_raw = iroh.to_string r.endpoint_id;
    written = refl;
    plain = plain;
    known = known;
    named = named;
  })
