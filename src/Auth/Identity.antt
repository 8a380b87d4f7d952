-- ===== src/Auth/Identity.antt =====
-- engine/internal/auth/identity.go: the namespace identity and the capability token.
use mathlib.Core.List.{[], ◌∷◌}
use basuyudb.Base.{
  ℕ, ◌≤◌, ◌≡◌, refl, Bool, true, ◌&&◌, ◌||◌, arith, leb, ◌==◌, if◌then◌else◌, Option, none, some,
}
use basuyudb.Base.{Bytes, NoSlash, length, eqb, Result, ok, err}
use basuyudb.Base.{◌>>=◌, no_claims, no_single_namespace, invalid_namespace, inl, inr, Bool-cases}

pub record NamespaceId : Type 0 where
  pub raw : Bytes

unfoldable pub is_zero : NamespaceId → Bool
unfolding eqb
is_zero n = eqb n.raw []

-- The class [a-zA-Z0-9_-] of `namespaceRe`.
unfoldable pub namespace_char : ℕ → Bool
namespace_char c =
    (leb b'a' c && leb c b'z')
    || (leb b'A' c && leb c b'Z')
    || (leb b'0' c && leb c b'9')
    || c == b'_'
    || c == b'-'

all_namespace_chars : Bytes → Bool
all_namespace_chars [] = true
all_namespace_chars (c ∷ s) = namespace_char c && all_namespace_chars s

-- `namespaceRe`: ^[a-zA-Z0-9_-]{1,128}$
unfoldable pub namespace_re : Bytes → Bool
unfolding all_namespace_chars namespace_char
namespace_re s = leb 1 (length s) && leb (length s) 128 && all_namespace_chars s

unfoldable pub new_namespace_id : Bytes → Result NamespaceId
unfolding namespace_re
new_namespace_id raw = if namespace_re raw then ok (record { raw = raw }) else err invalid_namespace

-- The fields of `SessionClaims` that the token takes over.
pub record SessionClaims : Type 0 where
  pub sub : Bytes
  pub jti : Bytes
  pub azp : Bytes
  pub role : Bytes
  pub namespace_id : Bytes

pub record AuthSession : Type 0 where
  pub namespace : NamespaceId
  pub branch : Bytes
  pub sub : Bytes
  pub jti : Bytes
  pub azp : Bytes
  pub role : Bytes

session_of : SessionClaims → NamespaceId → AuthSession
session_of c n = record {
  namespace = n;
  branch = [];
  sub = c.sub;
  jti = c.jti;
  azp = c.azp;
  role = c.role;
}

-- `none` is a nil pointer.
unfoldable pub session_from_claims : Option SessionClaims → Result AuthSession
unfolding new_namespace_id session_of eqb
session_from_claims none = err no_claims
session_from_claims (some c) =
    if eqb c.namespace_id []
    then err no_single_namespace
    else (new_namespace_id c.namespace_id >>= λ n. ok (session_of c n))

-- A namespace that passed the whitelist, as every capability token has one.
pub record IsValid (n : NamespaceId) : Type 0 where
  pub nonempty : 1 ≤ length n.raw
  pub short : length n.raw ≤ 128
  pub no_slash : NoSlash n.raw

all_namespace_chars-NoSlash : (s : Bytes) → all_namespace_chars s ≡ true → NoSlash s
unfolding all_namespace_chars namespace_char
all_namespace_chars-NoSlash [] h = tt
all_namespace_chars-NoSlash (c ∷ s) h = (ground arith, all_namespace_chars-NoSlash s (ground arith))

namespace_re-IsValid : (s : Bytes) → namespace_re s ≡ true → IsValid (record { raw = s })
namespace_re-IsValid s h = record {
  nonempty = unfold namespace_re in ground arith;
  short = unfold namespace_re in ground arith;
  no_slash = all_namespace_chars-NoSlash s (unfold namespace_re in ground arith);
}

-- A session that is issued from claims has a namespace of 1 to 128 bytes with no '/' in it,
-- which is the claims' namespace, and the subject and the role of the claims.
pub session_from_claims-IsValid :
    (c : SessionClaims) (s : AuthSession)
    → session_from_claims (some c) ≡ ok s
    → IsValid s.namespace × (s.namespace.raw ≡ c.namespace_id) × (s.sub ≡ c.sub) × (s.role ≡ c.role)
session_from_claims-IsValid c s h = elim (Bool-cases (namespace_re c.namespace_id)) [
  | inl valid ↦
      let v = namespace_re-IsValid c.namespace_id valid in
      let e : s ≡ session_of c (record { raw = c.namespace_id }) =
        unfold session_from_claims in ground arith in
      rw e (unfold session_of in (v, refl, refl, refl))
  | inr invalid ↦ absurd (unfold session_from_claims in ground arith)
]
