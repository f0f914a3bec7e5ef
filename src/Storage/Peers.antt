-- ===== src/Storage/Peers.antt =====
-- Which peers the expiry and the storing of a peer keep, by how many pass a test.
use dtndht.Base.{
  ℕ, zero, suc, ◌+◌, ◌≤◌, Bool, true, not, ◌&&◌, List, [], ◌∷◌, ◌++◌, length, ◌≡◌, refl, arith,
  if◌then◌else◌,
}
use dtndht.Storage.{Peer, is_old, last_first, expire_from, expire_peers}

-- How many peers pass the test.
abbrev pub amount : (Peer → Bool) → List Peer → ℕ
amount t [] = 0
amount t (p ∷ next) = (if t p then 1 else 0) + amount t next

pub amount-append :
    (t : Peer → Bool) (a b : List Peer) → amount t (a ++ b) ≡ amount t a + amount t b
amount-append t [] b = omega arith
amount-append t (p ∷ a) b = ground (arith, amount-append t a b)

pub amount-all : (a : List Peer) → amount (λ _. true) a ≡ length a
amount-all [] = refl
amount-all (p ∷ a) = omega (arith, amount-all a)

amount-last_first : (t : Peer → Bool) (a : List Peer) → amount t (last_first a) ≡ amount t a
unfolding last_first
amount-last_first t [] = refl
amount-last_first t (p ∷ []) = refl
amount-last_first t (p ∷ q ∷ next) =
    by_rest (last_first (q ∷ next)) refl (amount-last_first t (q ∷ next))
  where
    by_rest :
        (l : List Peer)
        → last_first (q ∷ next) ≡ l
        → amount t (last_first (q ∷ next)) ≡ amount t (q ∷ next)
        → amount t (last_first (p ∷ q ∷ next)) ≡ amount t (p ∷ q ∷ next)
    by_rest [] e ih = ground arith
    by_rest (x ∷ l) e ih = ground arith

length-last_first : (a : List Peer) → length (last_first a) ≡ length a
length-last_first a =
    omega (arith, amount-all a, amount-all (last_first a), amount-last_first (λ _. true) a)

amount-expire_from :
    (now rounds : ℕ) (t : Peer → Bool) (a : List Peer)
    → length a ≤ rounds
    → amount t (expire_from now rounds a) ≡ amount (λ p. t p && not (is_old now p)) a
unfolding expire_from
amount-expire_from now zero t [] h = refl
amount-expire_from now zero t (p ∷ a) h = absurd (omega arith)
amount-expire_from now (suc rounds) t [] h = refl
amount-expire_from now (suc rounds) t (p ∷ a) h = ground (
  arith,
  amount-expire_from now rounds t a,
  amount-expire_from now rounds t (last_first a),
  length-last_first a,
  amount-last_first (λ p. t p && not (is_old now p)) a,
)

-- Of the peers of a key, exactly those that announced themselves in the last 32 minutes outlast
-- the expiry, as often as they were stored: for every test, as many peers that pass it are left as
-- there were peers that pass it and are not old.
pub amount-expire_peers :
    (now : ℕ) (t : Peer → Bool) (a : List Peer)
    → amount t (expire_peers now a) ≡ amount (λ p. t p && not (is_old now p)) a
unfolding expire_peers
amount-expire_peers now t a = amount-expire_from now (length a) t a (omega arith)
