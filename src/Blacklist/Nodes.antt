-- ===== src/Blacklist/Nodes.antt =====
-- The trie of addresses as a set of addresses.
use dtndht.Base.{ℕ, Bytes, Bool, true, false, ◌||◌, ◌&&◌, [], ◌∷◌, ◌≡◌, refl, arith, length, same}
use dtndht.Net.{Family, SockAddr, addr_len}
use dtndht.Blacklist.{
  Trie, Blacklist, create_new_entry, ensure_entry, set_child, insert_path, find_path,
  blacklist_node, blacklisted,
}

-- A path of the trie is found after an insertion if it is the inserted one or was found before.
pub find_path-insert_path :
    (port : ℕ) (md a b : Bytes) (t : Trie)
    → length a ≡ length b
    → find_path a (insert_path port md b (ensure_entry t)) ≡ (same a b || find_path a t)
unfolding find_path insert_path ensure_entry set_child create_new_entry same
find_path-insert_path port md [] [] t h = refl
find_path-insert_path port md [] (y ∷ b) t h = absurd (omega arith)
find_path-insert_path port md (x ∷ a) [] t h = absurd (omega arith)
find_path-insert_path port md (x ∷ []) (y ∷ []) Trie.null h = ground arith
find_path-insert_path port md (x ∷ []) (y ∷ []) (Trie.entry c) h = ground arith
find_path-insert_path port md (x ∷ []) (y ∷ []) (Trie.leaf p m) h = ground arith
find_path-insert_path port md (x ∷ []) (y ∷ z ∷ b) t h = absurd (omega arith)
find_path-insert_path port md (x ∷ w ∷ a) (y ∷ []) t h = absurd (omega arith)
find_path-insert_path port md (x ∷ w ∷ a) (y ∷ z ∷ b) Trie.null h =
    ground (arith, find_path-insert_path port md (w ∷ a) (z ∷ b) Trie.null)
find_path-insert_path port md (x ∷ w ∷ a) (y ∷ z ∷ b) (Trie.entry c) h =
    ground (arith, find_path-insert_path port md (w ∷ a) (z ∷ b) (c y))
find_path-insert_path port md (x ∷ w ∷ a) (y ∷ z ∷ b) (Trie.leaf p m) h =
    ground (arith, find_path-insert_path port md (w ∷ a) (z ∷ b) Trie.null)

abbrev pub is_inet : Family → Bool
is_inet Family.inet = true
is_inet _ = false

-- The bytes of an address are as many as its family has.
abbrev pub IsSized : SockAddr → Type 0
IsSized sa = length sa.addr ≡ addr_len sa.family

-- After a node has been blacklisted, an address is blacklisted if it was so before, or if it is
-- the IPv4 address of that node and the blacklist is enabled; the port does not matter, and a node
-- with an IPv6 address changes the answer for no address.
pub blacklisted-blacklist_node :
    (sa sb : SockAddr) (md : Bytes) (b : Blacklist)
    → IsSized sa
    → IsSized sb
    → blacklisted sa (blacklist_node sb md b) ≡ (
        (b.enabled && is_inet sa.family && is_inet sb.family && same sa.addr sb.addr)
        || blacklisted sa b)
unfolding blacklisted blacklist_node
blacklisted-blacklist_node sa sb md b h k =
    ground (arith, find_path-insert_path sb.port md sa.addr sb.addr b.ipv4)
