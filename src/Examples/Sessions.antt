-- ===== src/Examples/Sessions.antt =====
-- Tokens, sessions and quotations.
use basuyudb.Base.{◌≡◌, refl, [], ◌∷◌, Bytes, codes, none, eqb}
use basuyudb.Auth.Identity.{
  SessionClaims, IsValid, session_from_claims, session_from_claims-IsValid,
}
use basuyudb.Session.{Session, new_session, get_setting}
use basuyudb.Session.Settings.{set, reset, run_calls, left_by, get_setting-run_calls}
use basuyudb.Examples.{session}

abbrev claims : SessionClaims
claims = record {
  sub = codes "u1";
  jti = codes "j";
  azp = codes "p";
  role = codes "user";
  namespace_id = codes "acme";
}

session_from_claims-IsValid_example :
    IsValid session.namespace
    × (codes "acme" ≡ codes "acme")
    × (codes "u1" ≡ codes "u1")
    × (codes "user" ≡ codes "user")
unfolding session_from_claims
session_from_claims-IsValid_example = session_from_claims-IsValid claims session refl

abbrev plain : Session
plain = new_session session 1 none

abbrev same : Bytes → Bytes
same t = t

get_setting-run_calls_example :
    get_setting same eqb
      (run_calls same eqb plain (set (codes "app.t") (codes "1") ∷ reset (codes "x") ∷ []))
      (codes "app.t")
    ≡ left_by same eqb
        (codes "app.t")
        (get_setting same eqb plain (codes "app.t"))
        (set (codes "app.t") (codes "1") ∷ reset (codes "x") ∷ [])
get_setting-run_calls_example =
    get_setting-run_calls same eqb plain (set (codes "app.t") (codes "1") ∷ reset (codes "x") ∷ [])
      (codes "app.t")
