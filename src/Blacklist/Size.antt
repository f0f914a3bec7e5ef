-- ===== src/Blacklist/Size.antt =====
-- The counts of the blacklist, against the sets of the addresses that it was given.
use dtndht.Base.{
  ℕ, ◌+◌, ◌<◌, ◌≤◌, ◌%◌, ◌^◌, Bytes, Bool, true, false, ◌||◌, List, [], ◌∷◌, ◌≡◌, refl, sym, ◌∙◌,
  arith, length, All, if◌then◌else◌, same, same_eq,
}
use dtndht.Net.{Family, SockAddr, addr_len, same_family}
use dtndht.Blacklist.{
  Trie, Blacklist, init, find_path, insert_path, ensure_entry, count_new, blacklist_node,
  blacklist_size, blacklisted, id_blacklisted, free,
}
use dtndht.Blacklist.Nodes.{find_path-insert_path, IsSized}

-- A set of addresses, as a list with no address twice.
pub member : Bytes → List Bytes → Bool
member a [] = false
member a (x ∷ s) = same a x || member a s

pub note : Bytes → List Bytes → List Bytes
note a s = if member a s then s else a ∷ s

-- The trie and its count stand for the set of the addresses of one family, where the count began
-- at `base`.
record Stands (len base : ℕ) (t : Trie) (n : ℕ) (s : List Bytes) : Type 0 where
  found : (a : Bytes) → length a ≡ len → find_path a t ≡ member a s
  counted : n ≡ base + length s

same_trans : (a x : Bytes) (s : List Bytes) → same x a ≡ true → member a s ≡ member x s
same_trans a x s h = rw (same_eq x a h)

Stands-insert :
    (len base : ℕ) (t : Trie) (n : ℕ) (s : List Bytes) (port : ℕ) (md a : Bytes)
    → length a ≡ len
    → base + length s + 1 < 2 ^ 32
    → Stands len base t n s
    → Stands len base
        (insert_path port md a (ensure_entry t))
        (count_new (find_path a t) n)
        (note a s)
unfolding note member count_new
Stands-insert len base t n s port md a h small st = record {
  found =
      λ b k. ground (arith, find_path-insert_path port md b a t, st.found b k, same_trans a b s);
  counted = ground (arith, st.found a h, st.counted);
}

-- The calls of `blacklist_blacklist_node`, the first one first.
unfoldable pub run : List (SockAddr × Bytes) → Blacklist → Blacklist
run [] b = b
run ((sa, md) ∷ calls) b = run calls (blacklist_node sa md b)

-- The addresses of one family among the calls, each once.
unfoldable pub distinct : Family → List (SockAddr × Bytes) → List Bytes → List Bytes
distinct f [] s = s
distinct f ((sa, md) ∷ calls) s =
    distinct f calls (if same_family sa.family f then note sa.addr s else s)

length-note-le : (a : Bytes) (s : List Bytes) → length (note a s) ≤ length s + 1
unfolding note
length-note-le a s = ground arith

-- The counts began at `n4` and `n6`.
module _ (n4 n6 : ℕ) where
  record Agrees (b : Blacklist) (s4 s6 : List Bytes) : Type 0 where
    on : b.enabled ≡ true
    stands4 : Stands 4 n4 b.ipv4 b.number_of_entries_ipv4 s4
    stands6 : Stands 16 n6 b.ipv6 b.number_of_entries_ipv6 s6

  Agrees-blacklist_node :
      (f : Family) (addr md : Bytes) (port : ℕ) (b : Blacklist) (s4 s6 : List Bytes)
      → length addr ≡ addr_len f
      → n4 + length s4 + 1 < 2 ^ 32
      → n6 + length s6 + 1 < 2 ^ 32
      → Agrees b s4 s6
      → Agrees
          (blacklist_node (record { family = f; addr = addr; port = port }) md b)
          (if same_family f Family.inet then note addr s4 else s4)
          (if same_family f Family.inet6 then note addr s6 else s6)
  unfolding blacklist_node
  Agrees-blacklist_node Family.inet addr md port b s4 s6 h k4 k6 a = simp a.on (record {
    on = refl;
    stands4 = Stands-insert 4 n4 b.ipv4 _ s4 port md addr h k4 a.stands4;
    stands6 = a.stands6;
  })
  Agrees-blacklist_node Family.inet6 addr md port b s4 s6 h k4 k6 a = simp a.on (record {
    on = refl;
    stands4 = a.stands4;
    stands6 = Stands-insert 16 n6 b.ipv6 _ s6 port md addr h k6 a.stands6;
  })
  Agrees-blacklist_node Family.unspec addr md port b s4 s6 h k4 k6 a = simp a.on a

  Agrees-run :
      (calls : List (SockAddr × Bytes)) (b : Blacklist) (s4 s6 : List Bytes)
      → All (λ c. IsSized c.0) calls
      → n4 + length s4 + length calls < 2 ^ 32
      → n6 + length s6 + length calls < 2 ^ 32
      → Agrees b s4 s6
      → Agrees (run calls b) (distinct Family.inet calls s4) (distinct Family.inet6 calls s6)
  unfolding run distinct
  Agrees-run [] b s4 s6 h k4 k6 a = a
  Agrees-run ((sa, md) ∷ calls) b s4 s6 h k4 k6 a =
      Agrees-run calls (blacklist_node sa md b) _ _ h.1 (omega (arith, le4)) (omega (arith, le6)) (
        Agrees-blacklist_node sa.family sa.addr md sa.port b s4 s6 h.0 (omega arith) (omega arith)
          a)
    where
      le4 :
          length (if same_family sa.family Family.inet then note sa.addr s4 else s4) ≤ length s4 + 1
      le4 = ground (arith, length-note-le sa.addr s4)

      le6 :
          length (if same_family sa.family Family.inet6 then note sa.addr s6 else s6)
          ≤ length s6 + 1
      le6 = ground (arith, length-note-le sa.addr s6)

found_none : (n : ℕ) → 0 < n → (a : Bytes) → length a ≡ n → find_path a Trie.null ≡ member a []
unfolding find_path member
found_none n p [] e = absurd (omega arith)
found_none n p (x ∷ a) e = refl

null-Stands : (len n : ℕ) → 0 < len → Stands len n Trie.null n []
null-Stands len n h = record { found = found_none len h; counted = omega arith }

init-Agrees : Agrees 0 0 init [] []
init-Agrees = record {
  on = refl;
  stands4 = null-Stands 4 0 (omega arith);
  stands6 = null-Stands 16 0 (omega arith);
}

-- A freed blacklist has no addresses, but its counts go on from where they were.
free-Agrees :
    (b : Blacklist)
    → b.enabled ≡ true
    → Agrees b.number_of_entries_ipv4 b.number_of_entries_ipv6 (free b) [] []
unfolding free
free-Agrees b on = record {
  on = on;
  stands4 = null-Stands 4 _ (omega arith);
  stands6 = null-Stands 16 _ (omega arith);
}

-- Blacklists that stand for the same addresses answer alike, whatever they have counted.
blacklisted-Agrees :
    (n4 n6 m4 m6 : ℕ) (b c : Blacklist) (s4 s6 : List Bytes) (sa : SockAddr)
    → IsSized sa
    → Agrees n4 n6 b s4 s6
    → Agrees m4 m6 c s4 s6
    → blacklisted sa b ≡ blacklisted sa c
unfolding blacklisted
blacklisted-Agrees n4 n6 m4 m6 b c s4 s6 sa h p q = by_family sa.family h
  where
    by_family :
        (f : Family)
        → length sa.addr ≡ addr_len f
        → blacklisted (record sa { family = f }) b ≡ blacklisted (record sa { family = f }) c
    by_family Family.inet k =
        simp (p.on, q.on) (p.stands4.found sa.addr k ∙ sym (q.stands4.found sa.addr k))
    by_family Family.inet6 k = simp (p.on, q.on) refl
    by_family Family.unspec k = simp (p.on, q.on) refl

blacklist_node_ids :
    (sa : SockAddr) (md : Bytes) (b : Blacklist) → (blacklist_node sa md b).ids ≡ b.ids
unfolding blacklist_node
blacklist_node_ids sa md b = ground arith

run_ids : (calls : List (SockAddr × Bytes)) (b : Blacklist) → (run calls b).ids ≡ b.ids
unfolding run
run_ids [] b = refl
run_ids ((sa, md) ∷ calls) b = run_ids calls (blacklist_node sa md b) ∙ blacklist_node_ids sa md b

-- After fewer than 2^32 calls on a fresh blacklist, for addresses as long as their family has
-- them, the reported sizes are the numbers of distinct IPv4 and IPv6 addresses among the calls,
-- and their sum as an `unsigned int`.
pub blacklist_size-run :
    (calls : List (SockAddr × Bytes))
    → All (λ c. IsSized c.0) calls
    → length calls < 2 ^ 32
    → blacklist_size (run calls init) ≡ (
      length (distinct Family.inet calls []),
      length (distinct Family.inet6 calls []),
      (length (distinct Family.inet calls []) + length (distinct Family.inet6 calls [])) % 2 ^ 32,
    )
unfolding blacklist_size
blacklist_size-run calls h k =
    let a = Agrees-run 0 0 calls init [] [] h (omega arith) (omega arith) init-Agrees in
    ground (arith, a.stands4.counted, a.stands6.counted)

-- The shutdown of an enabled blacklist forgets all it had: after any further calls, too few for a
-- count to reach 2^32, it gives the answers for addresses that a fresh blacklist gives after the
-- same calls, and no identifier is blacklisted. Yet the counts are not reset: each reported size is
-- the one from before the shutdown and the number of distinct addresses among the further calls,
-- where an IPv4 or IPv6 address that had been counted before is counted once more.
pub run-free :
    (b : Blacklist) (calls : List (SockAddr × Bytes)) (sa : SockAddr) (id : Bytes)
    → b.enabled ≡ true
    → IsSized sa
    → All (λ c. IsSized c.0) calls
    → b.number_of_entries_ipv4 + length calls < 2 ^ 32
    → b.number_of_entries_ipv6 + length calls < 2 ^ 32
    → (blacklisted sa (run calls (free b)) ≡ blacklisted sa (run calls init))
      × (id_blacklisted id (run calls (free b)) ≡ false)
      × ((blacklist_size (run calls (free b))).0
          ≡ (blacklist_size b).0 + length (distinct Family.inet calls []))
      × ((blacklist_size (run calls (free b))).1
          ≡ (blacklist_size b).1 + length (distinct Family.inet6 calls []))
unfolding free id_blacklisted blacklist_size
run-free b calls sa id on h hs k4 k6 =
    let p =
      Agrees-run b.number_of_entries_ipv4 b.number_of_entries_ipv6 calls (free b) [] [] hs
        (omega arith) (omega arith) (free-Agrees b on) in
    let q = Agrees-run 0 0 calls init [] [] hs (omega arith) (omega arith) init-Agrees in
    (
      blacklisted-Agrees _ _ 0 0 _ _ _ _ sa h p q,
      rw (run_ids calls (free b)) refl,
      p.stands4.counted,
      p.stands6.counted,
    )
