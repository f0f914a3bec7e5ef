-- ===== src/Guard/Token.antt =====
-- The tokens that are accepted.
use dtndht.Base.{
  ℕ, ◌%◌, ◌/◌, [], ◌∷◌, Bytes, same_self, Bool, true, false, length, length-take, ◌++◌, Option,
  none, some, ◌≡◌, refl, arith, if◌then◌else◌,
}
use dtndht.Net.{Family, SockAddr}
use dtndht.Guard.{dht_hash, Secrets, make_token, token_match, rotate_secrets}

length-make_token :
    (sha1 : Bytes → Bytes) (sa : SockAddr) (old : Bool) (s : Secrets) (t : Bytes)
    → ((b : Bytes) → length (sha1 b) ≡ 20)
    → make_token sha1 sa old s ≡ some t
    → length t ≡ 8
unfolding make_token dht_hash
length-make_token sha1 sa old s t h e = by_family sa.family e
  where
    len :
        (a : Bytes) → length (dht_hash sha1 8 (if old then s.oldsecret else s.secret) sa.addr a) ≡ 8
    len a =
        let v = (if old then s.oldsecret else s.secret) ++ sa.addr ++ a in
        omega (arith, length-take 8 (sha1 v), h v)

    by_family :
        (af : Family) → make_token sha1 (record sa { family = af }) old s ≡ some t → length t ≡ 8
    by_family Family.inet k = ground (arith, len (sa.port % 256 ∷ sa.port / 256 ∷ []))
    by_family Family.inet6 k = ground (arith, len (sa.port % 256 ∷ sa.port / 256 ∷ []))
    by_family Family.unspec k = absurd (cc)

-- Whether a token can be made depends on the family alone.
makes :
    (sha1 : Bytes → Bytes) (sa : SockAddr) (s : Secrets) (t : Bytes) (new : Secrets)
    → make_token sha1 sa false s ≡ some t
    → (u : Bytes) × (make_token sha1 sa false new ≡ some u)
unfolding make_token
makes sha1 sa s t new e = by_family sa.family e
  where
    by_family :
        (af : Family)
        → make_token sha1 (record sa { family = af }) false s ≡ some t
        → (u : Bytes) × (make_token sha1 (record sa { family = af }) false new ≡ some u)
    by_family Family.inet k = (_, refl)
    by_family Family.inet6 k = (_, refl)
    by_family Family.unspec k = absurd (cc)

matches_new :
    (sha1 : Bytes → Bytes) (sa : SockAddr) (s : Secrets) (t : Bytes)
    → length t ≡ 8
    → make_token sha1 sa false s ≡ some t
    → token_match sha1 t sa s ≡ some true
unfolding token_match
matches_new sha1 sa s t l e = ground (arith, l, e, same_self t)

matches_old :
    (sha1 : Bytes → Bytes) (sa : SockAddr) (s : Secrets) (t u : Bytes)
    → length t ≡ 8
    → make_token sha1 sa false s ≡ some u
    → make_token sha1 sa true s ≡ some t
    → token_match sha1 t sa s ≡ some true
unfolding token_match
matches_old sha1 sa s t u l e f = ground (arith, l, e, f, same_self t)

-- With a hash of 20 bytes, a token that was made for an address is accepted from that address
-- with the same secrets, and still after the secrets have been rotated once, whether or not
-- new random bytes were available.
pub token_match-rotate_secrets :
    (sha1 : Bytes → Bytes) (sa : SockAddr) (s : Secrets) (t : Bytes) (now dice : ℕ)
    (bytes : Option Bytes)
    → ((b : Bytes) → length (sha1 b) ≡ 20)
    → make_token sha1 sa false s ≡ some t
    → (token_match sha1 t sa s ≡ some true)
      × (token_match sha1 t sa (rotate_secrets now dice bytes s).0 ≡ some true)
unfolding make_token rotate_secrets
token_match-rotate_secrets sha1 sa s t now dice bytes h e =
    (matches_new sha1 sa s t len e, by_bytes bytes)
  where
    len : length t ≡ 8
    len = length-make_token sha1 sa false s t h e

    by_bytes :
        (b : Option Bytes) → token_match sha1 t sa (rotate_secrets now dice b s).0 ≡ some true
    by_bytes none = matches_new sha1 sa _ t len e
    by_bytes (some b) =
        let (u, k) = makes sha1 sa s t (rotate_secrets now dice (some b) s).0 e in
        matches_old sha1 sa _ t u len k e
