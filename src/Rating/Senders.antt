-- ===== src/Rating/Senders.antt =====
-- Every point of a rating stands for a sender of its own.
use dtndht.Base.{
  ℕ, ◌+◌, ◌≤◌, Bytes, same, same_self, true, false, List, [], ◌∷◌, length, All, All-map, ltb, ◌≡◌,
  ◌≢◌, refl, sym, ap, ◌∙◌, ◌⊎◌, inl, inr, arith, Bool-cases,
}
use dtndht.Net.{SockAddr}
use dtndht.Rating.{
  Bloom, Rated, RatingEntry, sockaddr_storage_equals, rating_create, count_sender, rate_target,
  rate_entry, rating_create_entry, get_rating,
}

true≢false : true ≢ false
true≢false e = cc

-- A call of `get_rating`.
pub record Report : Type 0 where
  pub now : ℕ
  pub info_hash : Bytes
  pub target : SockAddr
  pub from : SockAddr

-- No digest is there twice.
abbrev pub Distinct : List Bytes → Type 0
Distinct [] = Unit
Distinct (d ∷ ds) = All (λ e. d ≢ e) ds × Distinct ds

module _ {ℓ} {B : Type ℓ} (bloom : Bloom B) (digest : SockAddr → Bytes) where
  -- Some report of this address for this hash came from a sender with this digest.
  abbrev pub Reported : List Report → Bytes → SockAddr → Bytes → Type 0
  Reported [] key ss d = ⊥
  Reported (r ∷ reports) key ss d =
      ((same key r.info_hash ≡ true)
        × ((ss ≡ r.target) ⊎ (sockaddr_storage_equals ss r.target ≡ true))
        × (digest r.from ≡ d))
      ⊎ Reported reports key ss d

  -- A rating of n is at most 10, and n + 1 different senders reported the address.
  pub record IsRated (reports : List Report) (key : Bytes) (p : Rated B) : Type ℓ where
    pub senders : List Bytes
    pub senders_distinct : Distinct senders
    pub senders_found : All (λ d. bloom.bloom_check d p.frombloom ≡ true) senders
    pub senders_reported : All (Reported reports key p.ss) senders
    pub senders_count : length senders ≡ p.rating + 1
    pub at_most_10 : p.rating ≤ 10

  abbrev pub IsRatings : List Report → List (RatingEntry B) → Type ℓ
  IsRatings reports = All (λ e. All (IsRated reports e.key) e.ratings)

  rating_create-IsRated :
      (reports : List Report) (r : Report)
      → (key : Bytes) → same key r.info_hash ≡ true
      → IsRated (r ∷ reports) key (rating_create bloom digest r.target r.from)
  unfolding rating_create
  rating_create-IsRated reports r key h = record {
    senders = digest r.from ∷ [];
    senders_distinct = (tt, tt);
    senders_found = (bloom.check-add (digest r.from) bloom.bloom_create, tt);
    senders_reported = (inl (h, inl refl, refl), tt);
    senders_count = refl;
    at_most_10 = omega arith;
  }

  IsRated-more :
      (reports : List Report) (r : Report) (key : Bytes) (p : Rated B)
      → IsRated reports key p
      → IsRated (r ∷ reports) key p
  IsRated-more reports r key p w = record {
    senders = w.senders;
    senders_distinct = w.senders_distinct;
    senders_found = w.senders_found;
    senders_reported = All-map (λ d h. inr h) w.senders w.senders_reported;
    senders_count = w.senders_count;
    at_most_10 = w.at_most_10;
  }

  new_sender :
      (d : Bytes) (b : B) (ds : List Bytes)
      → bloom.bloom_check d b ≡ false
      → All (λ e. bloom.bloom_check e b ≡ true) ds
      → All (λ e. d ≢ e) ds
  new_sender d b ds h =
      All-map (λ e k q. true≢false (sym k ∙ (ap (λ x. bloom.bloom_check x b) (sym q) ∙ h))) ds

  count_sender-IsRated :
      (reports : List Report) (r : Report) (key : Bytes) (p : Rated B)
      → same key r.info_hash ≡ true
      → sockaddr_storage_equals p.ss r.target ≡ true
      → IsRated reports key p
      → IsRated (r ∷ reports) key (count_sender bloom digest r.from p)
  unfolding count_sender
  count_sender-IsRated reports r key p h t w =
      let more = IsRated-more reports r key p w in
      elim (Bool-cases (ltb p.rating 10)) [
        | inr k ↦ rw (k, count_sender) more
        | inl k ↦ elim (Bool-cases (bloom.bloom_check (digest r.from) p.frombloom)) [
          | inl c ↦ rw (k, c, count_sender) more
          | inr c ↦
              rw (k, c, count_sender)
                (record {
                  senders = digest r.from ∷ w.senders;
                  senders_distinct = (
                    new_sender (digest r.from) p.frombloom w.senders c w.senders_found,
                    w.senders_distinct,
                  );
                  senders_found = (
                    bloom.check-add (digest r.from) p.frombloom,
                    All-map (λ d. bloom.check-add_other d (digest r.from) p.frombloom) w.senders
                        w.senders_found,
                  );
                  senders_reported =
                      (inl (h, inr t, refl), All-map (λ d q. inr q) w.senders w.senders_reported);
                  senders_count = omega (arith, w.senders_count);
                  at_most_10 = ground arith;
                })
        ]
      ]

  rate_target-IsRated :
      (reports : List Report) (r : Report) (key : Bytes) (ps : List (Rated B))
      → same key r.info_hash ≡ true
      → All (IsRated reports key) ps
      → All (IsRated (r ∷ reports) key) (rate_target bloom digest r.target r.from ps).2
  unfolding rate_target
  rate_target-IsRated reports r key [] h w = (rating_create-IsRated reports r key h, tt)
  rate_target-IsRated reports r key (p ∷ ps) h (v, w) =
      elim (Bool-cases (sockaddr_storage_equals p.ss r.target)) [
        | inl t ↦
            rw (t, rate_target)
              (
                count_sender-IsRated reports r key p h t v,
                All-map (IsRated-more reports r key) ps w,
              )
        | inr t ↦
            rw (t, rate_target)
              (IsRated-more reports r key p v, rate_target-IsRated reports r key ps h w)
      ]

  IsRatings-more :
      (reports : List Report) (r : Report) (list : List (RatingEntry B))
      → IsRatings reports list
      → IsRatings (r ∷ reports) list
  IsRatings-more reports r = All-map (λ e. All-map (IsRated-more reports r e.key) e.ratings)

  rate_entry-IsRatings :
      (reports : List Report) (r : Report) (list : List (RatingEntry B))
      → IsRatings reports list
      → IsRatings (r ∷ reports) (rate_entry bloom digest r.now r.info_hash r.target r.from list).2
  unfolding rate_entry
  rate_entry-IsRatings reports r [] w = tt
  rate_entry-IsRatings reports r (e ∷ list) (v, w) = elim (Bool-cases (same e.key r.info_hash)) [
    | inl h ↦
        rw (h, rate_entry)
          (rate_target-IsRated reports r e.key e.ratings h v, IsRatings-more reports r list w)
    | inr h ↦
        rw (h, rate_entry)
          (
            All-map (IsRated-more reports r e.key) e.ratings v,
            rate_entry-IsRatings reports r list w,
          )
  ]

  get_rating-IsRatings :
      (reports : List Report) (r : Report) (list : List (RatingEntry B))
      → IsRatings reports list
      → IsRatings (r ∷ reports) (get_rating bloom digest r.now r.info_hash r.target r.from list).1
  unfolding get_rating rating_create_entry
  get_rating-IsRatings reports r list w =
      elim (Bool-cases (rate_entry bloom digest r.now r.info_hash r.target r.from list).1) [
        | inl k ↦ rw (k, get_rating) (rate_entry-IsRatings reports r list w)
        | inr k ↦
            rw (k, get_rating)
              (
                (rating_create-IsRated reports r r.info_hash (same_self r.info_hash), tt),
                IsRatings-more reports r list w,
              )
      ]

  -- The list after calls, the latest first.
  unfoldable pub after : List Report → List (RatingEntry B)
  after [] = []
  after (r ∷ reports) =
      (get_rating bloom digest r.now r.info_hash r.target r.from (after reports)).1

  -- After any calls of `get_rating`, no rating is above 10, and one of n has n + 1 senders of different
  -- digests behind it, each of which reported an equal address for the same hash in one of the calls.
  pub get_rating-senders : (reports : List Report) → IsRatings reports (after reports)
  unfolding after
  get_rating-senders [] = tt
  get_rating-senders (r ∷ reports) =
      get_rating-IsRatings reports r (after reports) (get_rating-senders reports)
