-- ===== src/Net/ClientIp/Edge.antt =====
-- What the edge does to a request before anything reads it: `resolveClientAddress` and
-- `copyWithHeaders` of apps/web/src/server/http/client-ip.ts. Headers are a dictionary by name.
use semantius_idp.Prelude.{
  Dict, Option, Text, codes, false, filled, find, find-put, find-remove, if◌then◌else◌, inl, inr,
  none, not, put, refl, remove, some, sym, text_eq, text_eq-cases, ◌&&◌, ◌∙◌, ◌≡◌, ◌≢◌, ℕ,
}
use semantius_idp.Net.ClientIp.{TrustProxy, client_ip_from}

-- A request, whose body is there or not
pub record Request : Type 0 where
  pub method : Text
  pub url : Text
  pub headers : Dict Text
  pub body : Option Text

pub record ResolvedRequest : Type 0 where
  pub request : Request
  pub ip_address : Option Text

-- `SOCKET_ADDRESS_HEADER`
abbrev pub socket_address_header : Text
socket_address_header = codes "x-idp-socket-address"

-- `copyWithHeaders`
unfoldable pub copy_with_headers : Request → Dict Text → Request
copy_with_headers request headers = record {
  method = request.method;
  url = request.url;
  headers = headers;
  body =
      if not (text_eq request.method (codes "GET")) && not (text_eq request.method (codes "HEAD"))
      then request.body
      else none;
}

-- The headers with the address, or without one
unfoldable pub stamped : Option Text → Dict Text → Dict Text
stamped none headers = remove socket_address_header headers
stamped (some ip) headers = put socket_address_header ip headers

apart : (name : Text) → name ≢ socket_address_header → text_eq socket_address_header name ≡ false
apart name n = elim (text_eq-cases socket_address_header name) [
  | inl e ↦ absurd (n (sym e))
  | inr o ↦ o
]

find-stamped :
    (ip : Option Text) (headers : Dict Text) (name : Text)
    → (find socket_address_header (stamped ip headers) ≡ ip)
      × (name ≢ socket_address_header → find name (stamped ip headers) ≡ find name headers)
unfolding stamped text_eq
find-stamped none headers name = (
  find-remove socket_address_header socket_address_header headers,
  λ n. find-remove socket_address_header name headers ∙ rw (apart name n) refl,
)
find-stamped (some ip) headers name = (
  find-put socket_address_header socket_address_header ip headers,
  λ n. find-put socket_address_header name ip headers ∙ rw (apart name n) refl,
)

module _ (number : Text → Option ℕ) where
  -- `resolveClientAddress`
  unfoldable pub resolve_client_address : Request → TrustProxy → ResolvedRequest
  resolve_client_address request trust =
      let ip_address =
        client_ip_from number trust (find socket_address_header request.headers)
          (find (codes "x-forwarded-for") request.headers) in
      record {
        request = copy_with_headers request (stamped (filled ip_address) request.headers);
        ip_address = ip_address;
      }

  -- Whatever a request says of its own address, the header that the rest of the program reads holds
  -- the resolved address afterwards, and is gone where none is resolved; each other header stays.
  pub resolved_headers :
      (request : Request) (trust : TrustProxy) (name : Text)
      → (find socket_address_header (resolve_client_address request trust).request.headers
          ≡ filled (resolve_client_address request trust).ip_address)
        × (name ≢ socket_address_header
            → find name (resolve_client_address request trust).request.headers
              ≡ find name request.headers)
  unfolding resolve_client_address copy_with_headers
  resolved_headers request trust name =
      find-stamped (filled (resolve_client_address request trust).ip_address) request.headers name
