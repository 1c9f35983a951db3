-- ===== src/Tests/CacheCases.antt =====
-- The tokens that the proxy keeps in memory.
use semantius_idp.Prelude.{
  In, Text, [], codes, find, none, put, refl, remove, some, text_eq, ◌*◌, ◌+◌, ◌<◌, ◌≡◌,
}
use semantius_idp.Gateway.Tokens.{
  bearer, answered, begin_exchange, MintResult, finish_exchange, empty_caches, after_miss,
  allow_mint_attempt, store_token,
}
use semantius_idp.Gateway.Tokens.Laws.{
  World, Step, Reach, IsSound, Mint, minted_token, note, Reach-IsSound, empty-IsSound,
  answered_bearer,
}

abbrev hash : Text
hash = codes "h"

abbrev granted : MintResult
granted = record { status = 200; token = some (codes "jwt") }

abbrev at_start : World
at_start = record { caches = empty_caches; log = [] }

-- A look-up that misses, and the mint's answer a second later
abbrev after_lookup : World
after_lookup = record { caches = (begin_exchange empty_caches hash none 1000).caches; log = [] }

abbrev after_mint : World
after_mint = record {
  caches = (finish_exchange 3600 after_lookup.caches hash granted 2000).caches;
  log = note hash 2000 (minted_token granted) [];
}

mint-Reach : Reach 3600 at_start after_mint
mint-Reach =
    Reach.next (Reach.next Reach.here (Step.begin at_start hash none 1000))
      (Step.finish after_lookup hash granted 2000)

Reach-IsSound_example : IsSound 3600 after_mint
Reach-IsSound_example = Reach-IsSound 3600 (empty-IsSound 3600) mint-Reach

served_again :
    (begin_exchange after_mint.caches hash none 9000).begun ≡ answered (some (bearer (codes "jwt")))
unfolding begin_exchange finish_exchange store_token after_miss allow_mint_attempt find put remove
    text_eq
served_again = refl

answered_bearer_example :
    (m : Mint) × In m after_mint.log
    × (m.hash ≡ hash)
    × (m.token ≡ codes "jwt")
    × (9000 < m.at + 600 * 1000)
    × (9000 + 60 * 1000 < m.at + 3600 * 1000)
answered_bearer_example = answered_bearer 3600 hash none 9000 (codes "jwt") mint-Reach served_again
