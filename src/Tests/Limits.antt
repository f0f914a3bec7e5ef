-- ===== src/Tests/Limits.antt =====
-- Concrete states of the tokens and the rate limit, and the theorems applied to them.
use dtndht.Base.{
  ◌-◌, ◌*◌, ◌≤◌, ◌+◌, Bytes, true, false, [], ◌∷◌, some, ◌≡◌, refl, arith, replicate, pos,
}
use dtndht.Guard.{Secrets, TokenBucket, make_token, token_match, rotate_secrets, dht_hash}
use dtndht.Guard.Token.{token_match-rotate_secrets}
use dtndht.Guard.Rate.{served, served_bound, served_clock_back}
use dtndht.Tests.{v4}

abbrev pub constant_hash : Bytes → Bytes
constant_hash _ = replicate 20 7

abbrev secrets : Secrets
secrets = record { secret = replicate 8 1; oldsecret = replicate 8 2; rotate_secrets_time = 0 }

token_made : make_token constant_hash (v4 3) false secrets ≡ some (replicate 8 7)
unfolding make_token dht_hash
token_made = refl

token_match-rotate_secrets_example :
    (token_match constant_hash (replicate 8 7) (v4 3) secrets ≡ some true)
    × (token_match constant_hash
          (replicate 8 7)
          (v4 3)
          (rotate_secrets 100 5 (some (replicate 8 3)) secrets).0
        ≡ some true)
token_match-rotate_secrets_example =
    token_match-rotate_secrets constant_hash (v4 3) secrets (replicate 8 7) 100 5
      (some (replicate 8 3)) (λ _. refl) token_made

abbrev tokens : TokenBucket
tokens = record { token_bucket_tokens = pos 1; token_bucket_time = 7 }

served_bound_example : served (7 ∷ 7 ∷ 8 ∷ []) tokens ≤ 1 + 100 * (8 - 7)
served_bound_example =
    served_bound (7 ∷ 7 ∷ 8 ∷ []) 8 1 tokens refl
      (omega arith, (omega arith, (omega arith, omega arith)))

abbrev empty_bucket : TokenBucket
empty_bucket = record { token_bucket_tokens = pos 0; token_bucket_time = 7 }

served_clock_back_example : served (6 ∷ 6 ∷ 6 ∷ []) empty_bucket ≡ 3
served_clock_back_example =
    served_clock_back 6 (6 ∷ 6 ∷ []) empty_bucket refl (omega arith) (omega arith)
