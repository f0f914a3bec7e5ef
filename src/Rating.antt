-- ===== src/Rating.antt =====
-- dtndht/rating.c: how many senders reported an address for a hash. The Bloom filter is a parameter, and so
-- is the SHA-1 digest of a sender's `struct sockaddr`. An entry always has a rating, so that `prev` is
-- set where it is read.
pub mod Senders
use dtndht.Base.{
  ℕ, ◌+◌, Bytes, same, Bool, true, false, not, ◌&&◌, List, [], ◌∷◌, take, if◌then◌else◌, ltb, ◌==◌,
  ◌≡◌,
}
use dtndht.Net.{Family, SockAddr, same_family}

-- The operations of bloom.c that are used, and what is documented of them: what was added is found.
pub record Bloom {ℓ} (B : Type ℓ) : Type ℓ where
  pub bloom_create : B
  pub bloom_add : Bytes → B → B
  pub bloom_check : Bytes → B → Bool
  pub check-add : (s : Bytes) (b : B) → bloom_check s (bloom_add s b) ≡ true
  pub check-add_other :
      (s t : Bytes) (b : B) → bloom_check s b ≡ true → bloom_check s (bloom_add t b) ≡ true

pub record Rated {ℓ} (B : Type ℓ) : Type ℓ where
  pub ss : SockAddr
  pub frombloom : B
  pub rating : ℕ

pub record RatingEntry {ℓ} (B : Type ℓ) : Type ℓ where
  pub key : Bytes
  pub updated : ℕ
  pub ratings : List (Rated B)

unfoldable pub sockaddr_storage_equals : SockAddr → SockAddr → Bool
sockaddr_storage_equals p1 p2 =
    if not (same_family p1.family p2.family) then false else elim p1.family [
      | Family.inet ↦ p1.port == p2.port && same (take 4 p1.addr) (take 4 p2.addr)
      | Family.inet6 ↦ p1.port == p2.port && same (take 16 p1.addr) (take 16 p2.addr)
      | Family.unspec ↦ false
    ]

module _ {ℓ} {B : Type ℓ} (bloom : Bloom B) (digest : SockAddr → Bytes) where
  unfoldable pub rating_create : SockAddr → SockAddr → Rated B
  rating_create ss from = record {
    ss = ss;
    frombloom = bloom.bloom_add (digest from) bloom.bloom_create;
    rating = 0;
  }

  -- `if (pos->rating < 10)` and what follows it.
  unfoldable pub count_sender : SockAddr → Rated B → Rated B
  count_sender from pos =
      if ltb pos.rating 10
      then if not (bloom.bloom_check (digest from) pos.frombloom)
        then record pos {
          frombloom = bloom.bloom_add (digest from) pos.frombloom;
          rating = pos.rating + 1;
        }
        else pos
      else pos

  -- The loop over the ratings: the number returned, whether the target was found, and the ratings.
  unfoldable pub rate_target : SockAddr → SockAddr → List (Rated B) → ℕ × Bool × List (Rated B)
  unfolding count_sender rating_create sockaddr_storage_equals
  rate_target target from [] = (0, false, rating_create target from ∷ [])
  rate_target target from (pos ∷ next) =
      let pos' = count_sender from pos in
      let (n, found, rest) = rate_target target from next in
      if sockaddr_storage_equals pos.ss target
      then (pos'.rating, true, pos' ∷ next)
      else (n, found, pos ∷ rest)

  -- The loop over the entries; none is left where there is none of the hash.
  unfoldable pub rate_entry :
      ℕ → Bytes → SockAddr → SockAddr → List (RatingEntry B) → ℕ × Bool × List (RatingEntry B)
  unfolding rate_target
  rate_entry now info_hash target from [] = (0, false, [])
  rate_entry now info_hash target from (e ∷ next) =
      let (r, found, ratings) = rate_target target from e.ratings in
      let (n, known, rest) = rate_entry now info_hash target from next in
      if same e.key info_hash
      then (
        r,
        true,
        record { key = e.key; updated = if found then now else e.updated; ratings = ratings }
            ∷ next,
      )
      else (n, known, e ∷ rest)

  unfoldable pub rating_create_entry :
      ℕ → Bytes → SockAddr → SockAddr → List (RatingEntry B) → List (RatingEntry B)
  unfolding rating_create
  rating_create_entry now info_hash target from list =
      record { key = info_hash; updated = now; ratings = rating_create target from ∷ [] } ∷ list

  -- The number returned, and the list.
  unfoldable pub get_rating :
      ℕ → Bytes → SockAddr → SockAddr → List (RatingEntry B) → ℕ × List (RatingEntry B)
  unfolding rate_entry rating_create_entry
  get_rating now info_hash target from list =
      let (n, known, list') = rate_entry now info_hash target from list in
      if known then (n, list') else (0, rating_create_entry now info_hash target from list)
