-- ===== src/Gateway/Headers/Response.antt =====
-- Which headers the gateway proxy returns: apps/web/src/server/gateways/proxy.ts.
use semantius_idp.Prelude.{
  Text, codes, text_eq, text_eq_iff, keep, Bool, true, not, Option, none, some, if◌then◌else◌, ◌≡◌,
  inl, inr, ap, arith, Option-cases, find, find-keep,
}
use semantius_idp.Gateway.Headers.{
  Headers, set_header, connection_tokens, is_returned, response_headers, without_location, located,
}
use semantius_idp.Gateway.Headers.Laws.{find-set_header}

text_eq_sym : (s t : Text) → text_eq s t ≡ text_eq t s
text_eq_sym s t = ground (arith, text_eq_iff s t, text_eq_iff t s)

abbrev keep_some : (Text → Bool) → Option Text → Option Text
keep_some p none = none
keep_some p (some t) = if p t then some t else none

-- What the caller is told of one header of the upstream's answer, by name
abbrev pub caller_header : (Text → Text) → (Text → Bool) → Headers → Text → Option Text
caller_header lower same_origin upstream name =
    if text_eq (codes "cache-control") name
    then some (codes "no-store")
    else if text_eq (codes "content-security-policy") name
    then some (codes "sandbox; default-src 'none'")
    else if not (is_returned lower (connection_tokens lower upstream) name)
    then none
    else if text_eq (codes "location") name
    then keep_some same_origin (find name upstream)
    else find name upstream

find-without_location :
    (h : Headers) (name : Text)
    → find name (without_location h)
      ≡ (if text_eq name (codes "location") then none else find name h)
find-without_location h name =
    ground (arith, find-keep (λ n. not (text_eq n (codes "location"))) name h)

find-located :
    (lower : Text → Text) (same_origin : Text → Bool) (upstream : Headers) (name : Text)
    → find name (
        located same_origin
          (find (codes "location") upstream)
          (keep (λ e. is_returned lower (connection_tokens lower upstream) e.0) upstream))
      ≡ (if not (is_returned lower (connection_tokens lower upstream) name)
          then none
          else if text_eq (codes "location") name
          then keep_some same_origin (find name upstream)
          else find name upstream)
find-located lower same_origin upstream name =
    let kept = keep (λ e. is_returned lower (connection_tokens lower upstream) e.0) upstream in
    let same = λ (h : text_eq (codes "location") name ≡ true).
      ap (λ n. find n upstream) ((text_eq_iff (codes "location") name).0 h) in
    elim (Option-cases (find (codes "location") upstream)) [
      | inl e ↦ rw (e) (
          ground (
            arith,
            e,
            find-keep (is_returned lower (connection_tokens lower upstream)) name upstream,
            same,
          ))
      | inr (l, e) ↦ rw (e) (
          ground (
            arith,
            e,
            find-keep (is_returned lower (connection_tokens lower upstream)) name upstream,
            same,
            find-without_location kept name,
            text_eq_sym (codes "location") name,
          ))
    ]

-- Each header of the answer that the caller gets, by its name: `cache-control` and
-- `content-security-policy` are the gateway's own; any other header is there exactly when it is of no
-- single hop and on neither list of refused ones; a `location`, only on the upstream's own origin.
pub caller_header_lem :
    (lower : Text → Text) (same_origin : Text → Bool) (upstream : Headers) (name : Text)
    → find name (response_headers lower same_origin upstream)
      ≡ caller_header lower same_origin upstream name
unfolding response_headers
caller_header_lem lower same_origin upstream name =
    let kept = keep (λ e. is_returned lower (connection_tokens lower upstream) e.0) upstream in
    let place = located same_origin (find (codes "location") upstream) kept in
    ground (
      arith,
      find-set_header (codes "cache-control") name (codes "no-store") (
          set_header (codes "content-security-policy") (codes "sandbox; default-src 'none'") place),
      find-set_header (codes "content-security-policy") name (codes "sandbox; default-src 'none'")
          place,
      find-located lower same_origin upstream name,
    )
