-- ===== src/Blacklist.antt =====
-- dtndht/blacklist.c: the blacklisted node addresses, as two tries of address bytes, and the list
-- of the identifiers that serve as traps.
pub mod Nodes
pub mod Size
use dtndht.Base.{
  ℕ, zero, suc, ◌+◌, ◌%◌, ◌^◌, Bytes, same, Bool, true, false, ◌||◌, List, [], ◌∷◌, if◌then◌else◌,
  ◌==◌,
}
use dtndht.Net.{Family, SockAddr}

-- A child pointer: NULL, a `struct blacklist_entry` or a `struct blacklist_leaf`.
pub data Trie : Type 0 where
  null : Trie
  entry : (ℕ → Trie) → Trie
  leaf : ℕ → Bytes → Trie

-- The file's static variables.
pub record Blacklist : Type 0 where
  pub ipv4 : Trie
  pub ipv6 : Trie
  pub enabled : Bool
  pub number_of_entries_ipv4 : ℕ
  pub number_of_entries_ipv6 : ℕ
  pub ids : List Bytes

abbrev pub init : Blacklist
init = record {
  ipv4 = Trie.null;
  ipv6 = Trie.null;
  enabled = true;
  number_of_entries_ipv4 = 0;
  number_of_entries_ipv6 = 0;
  ids = [];
}

abbrev pub is_null : Trie → Bool
is_null Trie.null = true
is_null (Trie.entry _) = false
is_null (Trie.leaf _ _) = false

-- `entry->children[pos]`. Only inner levels are asked for children, and these hold entries.
abbrev pub children : Trie → ℕ → Trie
children Trie.null pos = Trie.null
children (Trie.entry c) pos = c pos
children (Trie.leaf _ _) pos = Trie.null

unfoldable pub create_new_entry : Trie
create_new_entry = Trie.entry (λ _. Trie.null)

-- `if (p == NULL) p = create_new_entry(..)`
unfoldable pub ensure_entry : Trie → Trie
unfolding create_new_entry
ensure_entry t = if is_null t then create_new_entry else t

unfoldable pub set_child : Trie → ℕ → Trie → Trie
set_child t pos child = Trie.entry (λ i. if i == pos then child else children t i)

-- The loop of `blacklist_blacklist_node` over the bytes of the address, below an existing entry.
unfoldable pub insert_path : ℕ → Bytes → Bytes → Trie → Trie
unfolding ensure_entry set_child
insert_path port md [] prev = prev
insert_path port md (pos ∷ []) prev = set_child prev pos (Trie.leaf port md)
insert_path port md (pos ∷ next ∷ addr) prev =
    set_child prev pos (insert_path port md (next ∷ addr) (ensure_entry (children prev pos)))

-- The loop of `blacklist_blacklisted`; it also tells whether the last level of an insertion is new.
unfoldable pub find_path : Bytes → Trie → Bool
find_path [] t = true
find_path (pos ∷ addr) Trie.null = false
find_path (pos ∷ []) (Trie.entry c) = elim (is_null (c pos)) [ true ↦ false | false ↦ true ]
find_path (pos ∷ next ∷ addr) (Trie.entry c) = find_path (next ∷ addr) (c pos)
find_path (pos ∷ addr) (Trie.leaf _ _) = false

-- `number++` on an `unsigned int`, if the leaf was not there.
unfoldable pub count_new : Bool → ℕ → ℕ
count_new known n = if known then n else (n + 1) % 2 ^ 32

unfoldable pub blacklist_node : SockAddr → Bytes → Blacklist → Blacklist
unfolding insert_path count_new ensure_entry find_path
blacklist_node sa md b =
    if b.enabled
    then elim sa.family [
      | Family.inet ↦ record b {
        ipv4 = insert_path sa.port md sa.addr (ensure_entry b.ipv4);
        number_of_entries_ipv4 = count_new (find_path sa.addr b.ipv4) b.number_of_entries_ipv4;
      }
      | Family.inet6 ↦ record b {
        ipv6 = insert_path sa.port md sa.addr (ensure_entry b.ipv6);
        number_of_entries_ipv6 = count_new (find_path sa.addr b.ipv6) b.number_of_entries_ipv6;
      }
      | Family.unspec ↦ b
    ]
    else b

-- The case of IPv6 is commented out in the source.
unfoldable pub blacklisted : SockAddr → Blacklist → Bool
unfolding find_path
blacklisted sa b =
    if b.enabled
    then elim sa.family [ Family.inet ↦ find_path sa.addr b.ipv4 | _ ↦ false ]
    else false

-- The two counts by reference, and their sum as an `unsigned int`.
unfoldable pub blacklist_size : Blacklist → ℕ × ℕ × ℕ
blacklist_size b = (
  b.number_of_entries_ipv4,
  b.number_of_entries_ipv6,
  (b.number_of_entries_ipv4 + b.number_of_entries_ipv6) % 2 ^ 32,
)

unfoldable pub enable : Bool → Blacklist → Blacklist
enable on b = record b { enabled = on }

unfoldable pub id_blacklisted_in : Bytes → List Bytes → Bool
id_blacklisted_in id [] = false
id_blacklisted_in id (md ∷ next) = same md id || id_blacklisted_in id next

unfoldable pub id_blacklisted : Bytes → Blacklist → Bool
unfolding id_blacklisted_in
id_blacklisted id b = id_blacklisted_in id b.ids

unfoldable pub blacklist_id : Bytes → Blacklist → Blacklist
blacklist_id id b = record b { ids = id ∷ b.ids }

-- `blacklist_free`: both trees and the identifiers; the counts stay.
unfoldable pub free : Blacklist → Blacklist
free b = record b { ipv4 = Trie.null; ipv6 = Trie.null; ids = [] }
