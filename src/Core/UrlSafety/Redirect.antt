-- ===== src/Core/UrlSafety/Redirect.antt =====
-- url_safety.rs: what the checks of a redirect promise.
use ai_model_downloader.Base.{
  nat_eq, string_eq, ℕ, ◌<◌, ◌≡◌, sym, ap, subst, inl, inr, true, false, Option, none, some, List,
  [], ◌∷◌, arith, leb, Bool-cases, length, All, Texts, is_empty, is_some,
}
use ai_model_downloader.Core.Error.{ok, err, panic, ok-parts}
use ai_model_downloader.Core.UrlSafety.{
  Url, IpAddr, is_http, check_answer, check_each, some_ip, resolve_name, resolve_host,
  validate_resolved_ip, validate_redirect, validate_public_http_url, reject_forbidden_ip,
}
use ai_model_downloader.Core.UrlSafety.Blocks6.{IsAllowed, IsAddress, reject_forbidden_ip-IsAllowed}

check_each_sound :
    (ips found : List IpAddr)
    → check_each ips ≡ ok found
    → (found ≡ ips) × All (λ ip. reject_forbidden_ip ip ≡ ok tt) ips
unfolding check_each
check_each_sound [] found h = (ground arith, tt)
check_each_sound (ip ∷ ips) found h =
    let (_, h', accepted) = ok-parts _ _ (reject_forbidden_ip ip) h in
    let (checked, h'', e) = ok-parts _ _ (check_each ips) h' in
    let (same, all) = check_each_sound ips checked e in (ground arith, (cc, all))

some_ip_sound :
    (found ips : List IpAddr) → some_ip found ≡ ok ips → (ips ≡ found) × (0 < length found)
some_ip_sound [] ips h = cc
some_ip_sound (ip ∷ found) ips h = (ground arith, omega arith)

-- What every list of addresses that the checks return satisfies.
abbrev Checked : List IpAddr → Type 0
Checked ips = (0 < length ips) × All (λ ip. reject_forbidden_ip ip ≡ ok tt) ips

check_answer-Checked :
    (answer : Option (List IpAddr)) (ips : List IpAddr) → check_answer answer ≡ ok ips → Checked ips
check_answer-Checked none ips h = cc
check_answer-Checked (some answers) ips h =
    let (checked, h', e) = ok-parts some_ip _ (check_each answers) h in
    let (same, all) = check_each_sound answers checked e in
    let (same', most) = some_ip_sound checked ips h' in
    subst Checked (sym same')
      (most, subst (All (λ ip. reject_forbidden_ip ip ≡ ok tt)) (sym same) all)

-- The URL names http or https and carries no credentials.
abbrev pub IsPlain : Url → Type 0
IsPlain url =
    (is_http url.scheme ≡ true) × (is_empty url.username ≡ true) × (is_some url.password ≡ false)

module _ (parse_ip : Texts → Option IpAddr) (resolve : Texts → ℕ → Option (List IpAddr)) where
  resolve_name-Checked :
      (literal : Option IpAddr) (host : Texts) (port : ℕ) (ips : List IpAddr)
      → resolve_name parse_ip resolve literal host port ≡ ok ips
      → Checked ips
  resolve_name-Checked none host port ips h = check_answer-Checked (resolve host port) ips h
  resolve_name-Checked (some ip) host port ips h =
      let (_, h', accepted) = ok-parts _ _ (reject_forbidden_ip ip) h in
      subst Checked (ap (λ r. elim r [ ok l ↦ l | err e ↦ [] | panic ↦ [] ]) h')
        (omega arith, (accepted, tt))

  resolve_host-Checked :
      (host : Option Texts) (port : Option ℕ) (ips : List IpAddr)
      → resolve_host parse_ip resolve host port ≡ ok ips
      → Checked ips
  resolve_host-Checked none port ips h = cc
  resolve_host-Checked (some host) port ips h = resolve_name-Checked (parse_ip host) host _ ips h

  validate_resolved_ip-Checked :
      (url : Url) (ips : List IpAddr)
      → validate_resolved_ip parse_ip resolve url ≡ ok ips
      → Checked ips
  unfolding validate_resolved_ip
  validate_resolved_ip-Checked url ips h =
      resolve_host-Checked url.host_str url.port_or_known_default ips h

  validate_public_http_url-IsPlain :
      (url : Url) → validate_public_http_url parse_ip resolve url ≡ ok tt → IsPlain url
  unfolding validate_public_http_url
  validate_public_http_url-IsPlain url h = ground arith

allowed :
    (ips : List IpAddr)
    → All IsAddress ips
    → All (λ ip. reject_forbidden_ip ip ≡ ok tt) ips
    → All IsAllowed ips
allowed [] a h = tt
allowed (ip ∷ ips) (a, as') (h, hs) = ((reject_forbidden_ip-IsAllowed ip a).0 h, allowed ips as' hs)

-- A redirect that is followed is one below the limit, its URL is an http or https URL without
-- credentials, and the addresses that the client is to connect to are at least one and all allowed,
-- whatever the parser and the resolver answer, as long as these are addresses.
pub validate_redirect-IsAllowed :
    (parse_ip : Texts → Option IpAddr) (resolve : Texts → ℕ → Option (List IpAddr)) (url : Url)
    (max_redirects current_redirect : ℕ) (ips : List IpAddr)
    → All IsAddress ips
    → validate_redirect parse_ip resolve url max_redirects current_redirect ≡ ok ips
    → (current_redirect < max_redirects) × IsPlain url × (0 < length ips) × All IsAllowed ips
unfolding validate_redirect
validate_redirect-IsAllowed parse_ip resolve url most current ips a h =
    elim (Bool-cases (leb most current)) [
      | inl past ↦ absurd (over past)
      | inr below ↦ within below
    ]
  where
    over : leb most current ≡ true → ⊥
    over past = let z = rw past at h in cc z

    within :
        leb most current ≡ false
        → (current < most) × IsPlain url × (0 < length ips) × All IsAllowed ips
    within below =
        let (_, h', plain) =
          ok-parts _ _ (validate_public_http_url parse_ip resolve url) (rw below at h) in
        let (some', accepted) = validate_resolved_ip-Checked parse_ip resolve url ips h' in
        (
          ground arith,
          validate_public_http_url-IsPlain parse_ip resolve url plain,
          some',
          allowed ips a accepted,
        )
