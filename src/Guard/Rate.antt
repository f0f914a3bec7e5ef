-- ===== src/Guard/Rate.antt =====
-- The limit on the rate of requests.
use dtndht.Base.{
  zero, suc, ap, refl, length, negsuc, ◌<◌, ◌^◌, ◌≡◌, true, false, min, pos, decrement, ℕ, ◌+◌, ◌-◌,
  ◌*◌, ◌≤◌, List, [], ◌∷◌, arith, if◌then◌else◌, ◌==◌, Bool-cases, inl, inr,
}
use dtndht.Guard.{TokenBucket, is_zero, tokens_since, refill, token_bucket}

-- How many of the requests at the times are served.
unfoldable pub served : List ℕ → TokenBucket → ℕ
served [] b = 0
served (now ∷ later) b =
    let rest = served later (token_bucket now b).0 in
    if (token_bucket now b).1 then rest + 1 else rest

-- The times do not decrease, from the first bound to the last.
abbrev pub Ordered : ℕ → ℕ → List ℕ → Type 0
Ordered first last [] = first ≤ last
Ordered first last (now ∷ later) = (first ≤ now) × Ordered now last later

Ordered-bounds : (first last : ℕ) (times : List ℕ) → Ordered first last times → first ≤ last
Ordered-bounds first last [] h = h
Ordered-bounds first last (now ∷ later) h = omega (arith, h.0, Ordered-bounds now last later h.1)

Ordered-from :
    (first now last : ℕ) (times : List ℕ)
    → first ≤ now
    → Ordered now last times
    → Ordered first last times
Ordered-from first now last [] h k = omega arith
Ordered-from first now last (x ∷ times) h k = (omega (arith, h, k.0), k.1)

decrement_pos : (n : ℕ) → 1 ≤ n → decrement (pos n) ≡ pos (n - 1)
decrement_pos zero h = absurd (omega arith)
decrement_pos (suc n) h = ap pos (omega arith)

-- To refill an empty bucket gives no more than the seconds since the last time account for.
refill_bound :
    (now last n : ℕ) (b : TokenBucket)
    → b.token_bucket_tokens ≡ pos n
    → b.token_bucket_time ≤ now
    → now ≤ last
    → (m : ℕ) × ((refill now b).token_bucket_tokens ≡ pos m)
      × (m + 100 * (last - (refill now b).token_bucket_time)
          ≤ n + 100 * (last - b.token_bucket_time))
      × ((refill now b).token_bucket_time ≤ now)
refill_bound now last n b t h k = elim (Bool-cases (n == 0)) [
  | inl e ↦
      let z : is_zero b.token_bucket_tokens ≡ true = rw t e in
      let since : tokens_since now b.token_bucket_time
          ≡ pos (min 400 (100 * (now - b.token_bucket_time))) =
        ground arith in
      rw (z, refill) (min 400 (100 * (now - b.token_bucket_time)), since, omega arith, omega arith)
  | inr e ↦
      let z : is_zero b.token_bucket_tokens ≡ false = rw t e in
      rw (z, refill) (n, t, omega arith, h)
]

-- Of requests at times that do not decrease, at most as many are served as the bucket has tokens,
-- and 100 more for each second from its last refill up to any time that no request exceeds, if the
-- bucket is not overdrawn.
pub served_bound :
    (times : List ℕ) (last n : ℕ) (b : TokenBucket)
    → b.token_bucket_tokens ≡ pos n
    → Ordered b.token_bucket_time last times
    → served times b ≤ n + 100 * (last - b.token_bucket_time)
unfolding served token_bucket
served_bound [] last n b t h = omega arith
served_bound (now ∷ later) last n b t h =
    let (m, count, bound, early) =
      refill_bound now last n b t h.0 (Ordered-bounds now last later h.1) in
    let filled = refill now b in
    let on : Ordered filled.token_bucket_time last later =
      Ordered-from filled.token_bucket_time now last later early h.1 in
    elim (Bool-cases (m == 0)) [
      | inl e ↦
          let z : is_zero filled.token_bucket_tokens ≡ true = rw count e in
          rw (z, served, token_bucket)
            (omega (arith, bound, served_bound later last m filled count on))
      | inr e ↦
          let z : is_zero filled.token_bucket_tokens ≡ false = rw count e in
          let one : 1 ≤ m = ground arith in
          let less = record filled { token_bucket_tokens = decrement filled.token_bucket_tokens } in
          let left : decrement filled.token_bucket_tokens ≡ pos (m - 1) =
            rw count (decrement_pos m one) in
          rw (z, served, token_bucket)
            (omega (arith, bound, one, served_bound later last (m - 1) less left on))
    ]

-- An overdrawn bucket serves every request.
served_overdrawn :
    (times : List ℕ) (n : ℕ) (b : TokenBucket)
    → b.token_bucket_tokens ≡ negsuc n
    → served times b ≡ length times
unfolding served token_bucket
served_overdrawn [] n b t = refl
served_overdrawn (now ∷ later) n b t =
    let z : is_zero b.token_bucket_tokens ≡ false = rw t refl in
    let less = record b { token_bucket_tokens = decrement b.token_bucket_tokens } in
    rw (z, served, token_bucket, z)
      (omega (arith, served_overdrawn later (suc n) less (ap decrement t)))

-- When the clock has gone back since the last refill and the bucket is empty, the limit is lost:
-- this request and all later ones are served, whatever their times and however many they are, as
-- long as the number of tokens fits in an `int`.
pub served_clock_back :
    (now : ℕ) (later : List ℕ) (b : TokenBucket)
    → b.token_bucket_tokens ≡ pos 0
    → now < b.token_bucket_time
    → 100 * (b.token_bucket_time - now) + length later < 2 ^ 31
    → served (now ∷ later) b ≡ length later + 1
unfolding served token_bucket
served_clock_back now later b t h fits =
    let filled = record b {
      token_bucket_tokens = negsuc (100 * (b.token_bucket_time - now) - 1);
      token_bucket_time = now;
    } in
    let less = record filled { token_bucket_tokens = decrement filled.token_bucket_tokens } in
    let z : is_zero b.token_bucket_tokens ≡ true = rw t refl in
    let e : refill now b ≡ filled = ground arith in
    rw (e, served, token_bucket) (omega (arith, served_overdrawn later _ less refl))
