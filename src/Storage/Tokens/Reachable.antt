-- ===== src/Storage/Tokens/Reachable.antt =====
-- The tables that the refresh-token methods of crates/geonosis-storage/src/memory.rs can lead to.
use geonosis.Base.{ℕ, String}
use geonosis.Core.Token.{RefreshToken}
use geonosis.Storage.Tokens.{
  Tables, empty, save_refresh_token, mark_refresh_used, revoke_token_family,
}
use geonosis.Storage.Tokens.Families.{
  IsIndexed, empty-IsIndexed, save_refresh_token-IsIndexed, mark_refresh_used-IsIndexed,
  revoke_token_family-IsIndexed,
}
use geonosis.Storage.Tokens.Owners.{
  IsOwned, IsFresh, empty-IsOwned, save_refresh_token-IsOwned, mark_refresh_used-IsOwned,
  revoke_token_family-IsOwned,
}

-- From the empty tables by saving a token under a fresh id, marking one used, or revoking a family.
pub data Reachable : Tables → Type 0 where
  started : Reachable empty
  saved :
      (token : RefreshToken) (t : Tables)
      → IsFresh token.id t
      → Reachable t
      → Reachable (save_refresh_token token t)
  marked : (id : String) (t : Tables) → Reachable t → Reachable (mark_refresh_used id t).0
  revoked : (family : ℕ) (t : Tables) → Reachable t → Reachable (revoke_token_family family t)

-- In every reachable state each stored token is under its id and listed by its family, and a stored
-- token that a family lists is of that family.
pub Reachable-IsIndexed : (t : Tables) → Reachable t → IsIndexed t × IsOwned t
Reachable-IsIndexed _ started = (empty-IsIndexed, empty-IsOwned)
Reachable-IsIndexed _ (saved token t fresh r) =
    let (x, v) = Reachable-IsIndexed t r in
    (save_refresh_token-IsIndexed token t x, save_refresh_token-IsOwned token t fresh v)
Reachable-IsIndexed _ (marked id t r) =
    let (x, v) = Reachable-IsIndexed t r in
    (mark_refresh_used-IsIndexed id t x, mark_refresh_used-IsOwned id t v)
Reachable-IsIndexed _ (revoked family t r) =
    let (x, v) = Reachable-IsIndexed t r in
    (revoke_token_family-IsIndexed family t x, revoke_token_family-IsOwned family t x v)
