-- ===== src/Guard.antt =====
-- dtndht/dht.c and utils.c: what guards the node against its peers, the tokens of announcements
-- and the limit on the rate of requests. SHA-1 is a parameter. A port is laid out in memory with its low
-- byte first.
pub mod Token
pub mod Rate
use dtndht.Base.{
  ℕ, zero, suc, ◌+◌, ◌-◌, ◌*◌, ◌/◌, ◌%◌, min, Bytes, same, Bool, true, false, not, ◌&&◌, ◌||◌, List,
  [], ◌∷◌, ◌++◌, length, take, replicate, Option, none, some, if◌then◌else◌, ltb, leb, ◌==◌, ℤ, pos,
  negsuc, is_neg, decrement,
}
use dtndht.Net.{Family, SockAddr}

unfoldable pub dht_hash : (Bytes → Bytes) → ℕ → Bytes → Bytes → Bytes → Bytes
dht_hash sha1 hash_size v1 v2 v3 =
    let md = sha1 (v1 ++ v2 ++ v3) in
    if ltb 20 hash_size then md ++ replicate (hash_size - 20) 0 else take hash_size md

pub record Secrets : Type 0 where
  pub secret : Bytes
  pub oldsecret : Bytes
  pub rotate_secrets_time : ℕ

-- `none` where the source aborts.
unfoldable pub make_token : (Bytes → Bytes) → SockAddr → Bool → Secrets → Option Bytes
unfolding dht_hash
make_token sha1 sa old s =
    let port = sa.port % 256 ∷ sa.port / 256 ∷ [] in
    let token = dht_hash sha1 8 (if old then s.oldsecret else s.secret) sa.addr port in
    elim sa.family [ Family.inet ↦ some token | Family.inet6 ↦ some token | Family.unspec ↦ none ]

-- `none` where `make_token` aborts.
unfoldable pub token_match : (Bytes → Bytes) → Bytes → SockAddr → Secrets → Option Bool
unfolding make_token
token_match sha1 token sa s =
    if not (length token == 8) then some false else elim (make_token sha1 sa false s) [
      | none ↦ none
      | some t ↦
          if same t token
          then some true
          else elim (make_token sha1 sa true s) [ none ↦ none | some u ↦ some (same u token) ]
    ]

-- What is written to the buffer and the result: `bytes` are the random bytes of the system, which may
-- have none; the buffer is then left as it is, and the result is 0.
unfoldable pub dht_random_bytes : Option Bytes → Bytes → Bytes × ℤ
dht_random_bytes bytes buf = elim bytes [ none ↦ (buf, pos 0) | some b ↦ (b, pos 1) ]

-- `dice` is what `random()` gives.
unfoldable pub rotate_secrets : ℕ → ℕ → Option Bytes → Secrets → Secrets × ℤ
unfolding dht_random_bytes
rotate_secrets now dice bytes s =
    let (secret, rc) = dht_random_bytes bytes s.secret in
    (
      record {
        secret = secret;
        oldsecret = s.secret;
        rotate_secrets_time = now + 900 + dice % 1800;
      },
      if is_neg rc then negsuc 0 else pos 1,
    )

-- The number of tokens is signed: it is negative after a refill by a clock that has gone back, where
-- the product is taken to fit in an `int`.
pub record TokenBucket : Type 0 where
  pub token_bucket_tokens : ℤ
  pub token_bucket_time : ℕ

abbrev pub is_zero : ℤ → Bool
is_zero (pos n) = n == 0
is_zero (negsuc n) = false

-- `MIN(400, 100 * (now - time))`
abbrev pub tokens_since : ℕ → ℕ → ℤ
tokens_since now time =
    if leb time now then pos (min 400 (100 * (now - time))) else negsuc (100 * (time - now) - 1)

abbrev pub refill : ℕ → TokenBucket → TokenBucket
refill now b =
    if is_zero b.token_bucket_tokens
    then record {
      token_bucket_tokens = tokens_since now b.token_bucket_time;
      token_bucket_time = now;
    }
    else b

unfoldable pub token_bucket : ℕ → TokenBucket → TokenBucket × Bool
token_bucket now b =
    let filled = refill now b in
    if is_zero filled.token_bucket_tokens
    then (filled, false)
    else (record filled { token_bucket_tokens = decrement filled.token_bucket_tokens }, true)
