-- ===== src/Server/Router/Access.antt =====
-- Who is let in: what requireAuth promises on every protected route.
use audit_logging.Common.{◌≡◌, ◌≢◌, ◌⊎◌, refl, true, arith}
use audit_logging.Text.{Text, is_empty}
use audit_logging.Text.Fold.{Unicode}
use audit_logging.Server.Model.{unauthorized, Result, err}
use audit_logging.Server.Codec.{Codec}
use audit_logging.Server.Auth.{Principal, bearer_token}
use audit_logging.Server.Config.{Config}
use audit_logging.Server.Router.{
  Store, Request, write_unauthorized, Route, health, logs, search, verify, admit, require_auth,
  serve,
}

module _ {S : Type 0} (u : Unicode) (c : Codec) (cfg : Config) (store : Store S) where
  -- Without a token, or with one that the registry does not accept, every protected route gives one
  -- and the same answer, and leaves the store alone.
  pub serve-unauthorized :
      (authenticate : Text → Result Principal) (route : Route) (r : Request) (s : S)
      → route ≢ health
      → (is_empty (bearer_token u r.authorization) ≡ true)
        ⊎ (authenticate (bearer_token u r.authorization) ≡ err unauthorized)
      → serve u c cfg store authenticate route r s ≡ (write_unauthorized, s)
  unfolding serve require_auth admit
  serve-unauthorized authenticate health r s n h = absurd (n refl)
  serve-unauthorized authenticate logs r s n h = ground arith
  serve-unauthorized authenticate search r s n h = ground arith
  serve-unauthorized authenticate verify r s n h = ground arith
