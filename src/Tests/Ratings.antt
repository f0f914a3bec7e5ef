-- ===== src/Tests/Ratings.antt =====
-- A Bloom filter that is a list, and the theorem on ratings applied to it.
use dtndht.Base.{
  Bytes, same, same_self, Bool, true, false, ◌||◌, List, [], ◌∷◌, replicate, ◌≡◌, refl, Bool-cases,
  inl, inr,
}
use dtndht.Rating.{Bloom}
use dtndht.Rating.Senders.{Report, IsRatings, after, get_rating-senders}
use dtndht.Tests.{v4}

abbrev member : Bytes → List Bytes → Bool
member s [] = false
member s (t ∷ b) = same s t || member s b

pub member_other : (s t : Bytes) (b : List Bytes) → member s b ≡ true → member s (t ∷ b) ≡ true
member_other s t b h = elim (Bool-cases (same s t)) [ inl k ↦ rw k refl | inr k ↦ rw k h ]

abbrev pub list_bloom : Bloom (List Bytes)
list_bloom = record {
  bloom_create = [];
  bloom_add = λ s b. s ∷ b;
  bloom_check = member;
  check-add = λ s b. rw (same_self s) refl;
  check-add_other = member_other;
}

abbrev reports : List Report
reports =
    record { now = 9; info_hash = replicate 20 1; target = v4 7; from = v4 2 }
    ∷ record { now = 8; info_hash = replicate 20 1; target = v4 7; from = v4 1 }
    ∷ record { now = 7; info_hash = replicate 20 1; target = v4 7; from = v4 1 }
    ∷ []

get_rating-senders_example :
    IsRatings list_bloom (λ sa. sa.addr) reports (after list_bloom (λ sa. sa.addr) reports)
get_rating-senders_example = get_rating-senders list_bloom (λ sa. sa.addr) reports
