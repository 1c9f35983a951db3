-- ===== src/Gateway/Tokens/Keys.antt =====
-- Which credentials and gateways share a cached token.
use semantius_idp.Prelude.{
  Text, Lacks, All-append, Option, none, some, ◌∷◌, ◌≡◌, ◌≢◌, refl, ap, arith, cut_unique,
}
use semantius_idp.Gateway.Tokens.{
  Credential, key, session, kind_of, secret_of, namespace_of, hashed_text,
}

-- A gateway's name as the name pattern allows it: free of `:`.
abbrev pub IsScope : Option Text → Type 0
IsScope none = Unit
IsScope (some name) = Lacks b':' name

kind-Lacks : (c : Credential) → Lacks b':' (kind_of c)
kind-Lacks (key secret) = ground arith
kind-Lacks (session secret) = ground arith

namespace-Lacks : (c : Credential) (s : Option Text) → IsScope s → Lacks b':' (namespace_of c s)
namespace-Lacks c none h = kind-Lacks c
namespace-Lacks c (some name) h =
    All-append (λ d. d ≢ b':') (kind_of c) (b'@' ∷ name) (kind-Lacks c) (ground (arith, h))

namespace-injective :
    (c d : Credential) (s t : Option Text)
    → namespace_of c s ≡ namespace_of d t
    → (kind_of c ≡ kind_of d) × (s ≡ t)
namespace-injective (key x) (key y) none none e = (refl, refl)
namespace-injective (key x) (key y) (some a) (some b) e = (refl, cc)
namespace-injective (session x) (session y) none none e = (refl, refl)
namespace-injective (session x) (session y) (some a) (some b) e = (refl, cc)
namespace-injective _ _ _ _ e = absurd (ground (arith, e))

credential_of : (c d : Credential) → kind_of c ≡ kind_of d → secret_of c ≡ secret_of d → c ≡ d
credential_of (key x) (key y) k e = ap key e
credential_of (session x) (session y) k e = ap session e
credential_of (key x) (session y) k e = absurd (ground (arith, k))
credential_of (session x) (key y) k e = absurd (ground (arith, k))

-- For gateways whose names have no `:`, the text that is hashed for the cache key determines the
-- credential, its kind and the scope: no entry is shared by a key and a session, nor by a gateway
-- with an audience of its own and any other gateway.
pub hashed_text-injective :
    (c d : Credential) (s t : Option Text)
    → IsScope s
    → IsScope t
    → hashed_text c s ≡ hashed_text d t
    → (c ≡ d) × (s ≡ t)
unfolding hashed_text
hashed_text-injective c d s t hs ht e =
    let (spaces, secrets) =
      cut_unique b':' (namespace_of c s) (namespace_of d t) (secret_of c) (secret_of d)
        (namespace-Lacks c s hs) (namespace-Lacks d t ht) e in
    let (kinds, scopes) = namespace-injective c d s t spaces in
    (credential_of c d kinds secrets, scopes)
