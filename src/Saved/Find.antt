-- ===== src/Saved/Find.antt =====
-- Where the separator is found in a file of nodes.
use dtndht.Base.{
  ℕ, zero, suc, ◌+◌, ◌*◌, ◌/◌, ◌%◌, ◌≤◌, ◌<◌, Bytes, same, same_eq, memcmp, Bool, true, false, List,
  [], ◌∷◌, ◌++◌, append_assoc, All, length, take, drop, replicate, get_or, some, ◌≡◌, ◌≢◌, refl,
  sym, ap, ◌∙◌, subst, arith, ◌==◌, ==_iff, Bool-cases, inl, inr,
}
use dtndht.Net.{Family, SockAddr}
use dtndht.Saved.{port_bytes, node_bytes, separator, find_separator}

zeros_in : (n : ℕ) (s : Bytes) (i : ℕ) → take n s ≡ replicate n 0 → i < n → get_or s i 0 ≡ 0
zeros_in zero s i e h = absurd (omega arith)
zeros_in (suc n) [] i e h = refl
zeros_in (suc n) (c ∷ s) zero e h = ap (λ z. get_or z 0 0) e
zeros_in (suc n) (c ∷ s) (suc i) e h = zeros_in n s i (ap (drop 1) e) (omega arith)

-- Where one of the next bytes is not 0, the separator does not stand.
find_separator-skip :
    (c : ℕ) (s : Bytes) (i psep : ℕ)
    → i < 20
    → get_or (c ∷ s) i 0 ≢ 0
    → find_separator separator s ≡ some psep
    → find_separator separator (c ∷ s) ≡ some (suc psep)
unfolding find_separator
find_separator-skip c s i psep h d e = elim (Bool-cases (same (take 20 (c ∷ s)) separator)) [
  | inl k ↦ absurd (d (zeros_in 20 (c ∷ s) i (same_eq (take 20 (c ∷ s)) separator k) h))
  | inr k ↦ rw (k, e, find_separator) refl
]

pub find_separator-here : (s : Bytes) → find_separator separator (separator ++ s) ≡ some 0
unfolding find_separator same memcmp
find_separator-here s = refl

get_or-append : (a s : Bytes) (i : ℕ) → get_or (a ++ s) (length a + i) 0 ≡ get_or s i 0
get_or-append [] s i = let k : 0 + i ≡ i = omega arith in ap (λ n. get_or s n 0) k
get_or-append (c ∷ a) s i =
    let k : suc (length a) + i ≡ suc (length a + i) = omega arith in
    ap (λ n. get_or (c ∷ (a ++ s)) n 0) k ∙ get_or-append a s i

-- One of the next 19 bytes is not 0.
record Marked (s : Bytes) : Type 0 where
  place : ℕ
  near : place < 19
  marked : get_or s place 0 ≢ 0

find_separator-Marked :
    (c : ℕ) (s : Bytes) (psep : ℕ)
    → Marked s
    → find_separator separator s ≡ some psep
    → find_separator separator (c ∷ s) ≡ some (suc psep)
find_separator-Marked c s psep m e =
    find_separator-skip c s (suc m.place) psep (omega (arith, m.near)) m.marked e

-- An address that is saved: its bytes, and a port.
pub record IsSaved (family : Family) (len : ℕ) (sa : SockAddr) : Type 0 where
  pub of_family : sa.family ≡ family
  pub addr_bytes : length sa.addr ≡ len
  pub has_port : 0 < sa.port
  pub is_port : sa.port < 65536

port-Marked :
    (a t : Bytes) (port : ℕ) → length a ≤ 4 → 0 < port → Marked (a ++ (port_bytes port ++ t))
port-Marked a t port h p = elim (Bool-cases (port / 256 == 0)) [
  | inr k ↦ record {
    place = length a + 0;
    near = omega arith;
    marked = λ z.
        let q : port / 256 ≡ 0 = sym (get_or-append a (port_bytes port ++ t) 0) ∙ z in ground arith;
  }
  | inl k ↦ record {
    place = length a + 1;
    near = omega arith;
    marked = λ z.
        let q : port % 256 ≡ 0 = sym (get_or-append a (port_bytes port ++ t) 1) ∙ z in ground arith;
  }
]

find_separator-addr :
    (a t : Bytes) (port psep : ℕ)
    → length a ≤ 4
    → 0 < port
    → find_separator separator (port % 256 ∷ t) ≡ some psep
    → find_separator separator (a ++ (port_bytes port ++ t)) ≡ some (length a + 1 + psep)
find_separator-addr [] t port psep h p e =
    let m = port-Marked [] t port (omega arith) p in
    let n : suc psep ≡ 0 + 1 + psep = omega arith in
    find_separator-skip (port / 256) (port % 256 ∷ t) m.place psep (omega (arith, m.near)) m.marked
      e
    ∙ ap some n
find_separator-addr (c ∷ a) t port psep h p e =
    let n : suc (length a + 1 + psep) ≡ suc (length a) + 1 + psep = omega arith in
    find_separator-Marked c (a ++ (port_bytes port ++ t)) (length a + 1 + psep)
      (port-Marked a t port (omega arith) p) (find_separator-addr a t port psep (omega arith) p e)
    ∙ ap some n

-- The last port ends with a zero byte.
abbrev pub ends_zero : List SockAddr → Bool
ends_zero [] = false
ends_zero (sa ∷ []) = sa.port % 256 == 0
ends_zero (sa ∷ sb ∷ nodes) = ends_zero (sb ∷ nodes)

pub node_bytes-append :
    (sa : SockAddr) (nodes : List SockAddr) (rest : Bytes)
    → node_bytes (sa ∷ nodes) ++ rest
      ≡ sa.addr ++ (port_bytes sa.port ++ (node_bytes nodes ++ rest))
node_bytes-append sa nodes rest = append_assoc sa.addr (port_bytes sa.port ++ node_bytes nodes) rest

find_separator-last :
    (sa : SockAddr) (rest : Bytes) (psep : ℕ)
    → IsSaved Family.inet 4 sa
    → find_separator separator (sa.port % 256 ∷ (separator ++ rest)) ≡ some psep
    → find_separator separator (node_bytes (sa ∷ []) ++ (separator ++ rest)) ≡ some (5 + psep)
find_separator-last sa rest psep w last =
    let n : length sa.addr + 1 + psep ≡ 5 + psep = omega (arith, w.addr_bytes) in
    ap (find_separator separator) (node_bytes-append sa [] (separator ++ rest))
    ∙ (find_separator-addr sa.addr (separator ++ rest) sa.port psep (omega (arith, w.addr_bytes))
          w.has_port last
        ∙ ap some n)

find_separator-cons :
    (sa sb : SockAddr) (nodes : List SockAddr) (rest : Bytes) (psep : ℕ)
    → IsSaved Family.inet 4 sa
    → IsSaved Family.inet 4 sb
    → find_separator separator (node_bytes (sb ∷ nodes) ++ rest) ≡ some psep
    → find_separator separator (node_bytes (sa ∷ sb ∷ nodes) ++ rest) ≡ some (6 + psep)
find_separator-cons sa sb nodes rest psep w v next =
    let marked = subst Marked (sym (node_bytes-append sb nodes rest)) (
      port-Marked sb.addr (node_bytes nodes ++ rest) sb.port (omega (arith, v.addr_bytes))
        v.has_port) in
    let last = find_separator-Marked (sa.port % 256) _ _ marked next in
    let n : length sa.addr + 1 + suc psep ≡ 6 + psep = omega (arith, w.addr_bytes) in
    ap (find_separator separator) (node_bytes-append sa (sb ∷ nodes) rest)
    ∙ (find_separator-addr sa.addr _ sa.port _ (omega (arith, w.addr_bytes)) w.has_port last
        ∙ ap some n)

-- The separator is found behind the IPv4 nodes.
pub find_separator-node_bytes :
    (nodes : List SockAddr) (rest : Bytes)
    → All (IsSaved Family.inet 4) nodes
    → ends_zero nodes ≡ false
    → find_separator separator (node_bytes nodes ++ (separator ++ rest)) ≡ some (6 * length nodes)
find_separator-node_bytes [] rest w m = find_separator-here rest
find_separator-node_bytes (sa ∷ []) rest (w, _) m = find_separator-last sa rest 1 w (
    find_separator-skip (sa.port % 256) (separator ++ rest) 0 0 (omega arith) (λ z. ground arith)
      (find_separator-here rest))
find_separator-node_bytes (sa ∷ sb ∷ nodes) rest (w, (v, u)) m =
    let n : 6 + 6 * length (sb ∷ nodes) ≡ 6 * length (sa ∷ sb ∷ nodes) = omega arith in
    find_separator-cons sa sb nodes (separator ++ rest) (6 * length (sb ∷ nodes)) w v
      (find_separator-node_bytes (sb ∷ nodes) rest (v, u) m)
    ∙ ap some n

find_separator-zero :
    (c : ℕ) (s : Bytes) → c ≡ 0 → find_separator separator (c ∷ (separator ++ s)) ≡ some 0
unfolding find_separator same memcmp
find_separator-zero c s h =
    subst (λ c. find_separator separator (c ∷ (separator ++ s)) ≡ some 0) (sym h) refl

-- It is found one byte too early if the last port ends with a zero byte.
pub find_separator-early :
    (sa : SockAddr) (nodes : List SockAddr) (rest : Bytes)
    → All (IsSaved Family.inet 4) (sa ∷ nodes)
    → ends_zero (sa ∷ nodes) ≡ true
    → find_separator separator (node_bytes (sa ∷ nodes) ++ (separator ++ rest))
      ≡ some (5 + 6 * length nodes)
find_separator-early sa [] rest (w, _) m =
    find_separator-last sa rest 0 w
      (find_separator-zero (sa.port % 256) rest ((==_iff (sa.port % 256) 0).0 m))
find_separator-early sa (sb ∷ nodes) rest (w, (v, u)) m =
    let n : 6 + (5 + 6 * length nodes) ≡ 5 + 6 * length (sb ∷ nodes) = omega arith in
    find_separator-cons sa sb nodes (separator ++ rest) (5 + 6 * length nodes) w v
      (find_separator-early sb nodes rest (v, u) m)
    ∙ ap some n
