-- ===== src/Table.antt =====
-- dtndht/list.c and list.h: the tables of announced and looked-up keys.
-- A table is the list that its `head` points to. `time(NULL)` is an argument, read once for a call.
pub mod Cleanup
pub mod Keys
use dtndht.Base.{
  ℕ, zero, suc, ◌+◌, Bytes, same, Bool, true, false, not, ◌&&◌, List, [], ◌∷◌, ◌++◌, take, Option,
  none, some, if◌then◌else◌, ltb, ℤ, pos, negsuc,
}

pub data Status : Type 0 where
  searching done repeat_search done_and_ready_for_repeat : Status

pub record Entry : Type 0 where
  pub md : Bytes
  pub announce : Bool
  pub status : Status
  pub updatetime : ℕ

-- The test of `cleanUpList`: `time(NULL) > updatetime + threshold && (!announce || threshold < 0)`.
unfoldable pub is_expired : ℕ → ℤ → Entry → Bool
is_expired now (pos t) e = ltb (e.updatetime + t) now && not e.announce
is_expired now (negsuc t) e = ltb e.updatetime (now + t + 1)

-- `prev->next = next` if `prev` is set and `table->head = next` if not, for the entries before
-- `pos` that are reachable from the head.
unfoldable pub unlink : Option ℕ → List Entry → List Entry
unlink none before = []
unlink (some p) before = take (suc p) before

-- `if (prev) prev = prev->next`
abbrev pub advance : Option ℕ → Option ℕ
advance none = none
advance (some p) = some (suc p)

-- One round for each entry from `pos` on. `before` are the entries from the head up to `pos`, and
-- `prev` points into them by position.
unfoldable pub clean_loop : ℕ → ℤ → List Entry → Option ℕ → Bool → List Entry → List Entry
unfolding unlink is_expired
clean_loop now threshold before prev isempty [] = if isempty then [] else before
clean_loop now threshold before prev isempty (e ∷ next) =
    let delete = clean_loop now threshold (unlink prev before) (advance prev) isempty next in
    let keep = clean_loop now threshold (before ++ e ∷ []) (advance prev) false next in
    if is_expired now threshold e then delete else keep

unfoldable pub clean_up_list : ℕ → ℤ → List Entry → List Entry
unfolding clean_loop
clean_up_list now threshold table = clean_loop now threshold [] none true table

unfoldable pub add_to_list : ℕ → Bytes → List Entry → List Entry
add_to_list now key table =
    record { md = key; announce = false; status = Status.searching; updatetime = now } ∷ table

unfoldable pub get_from_list : Bytes → List Entry → Option Entry
get_from_list key [] = none
get_from_list key (e ∷ next) = if same key e.md then some e else get_from_list key next

-- A write through the pointer that `getFromList` returns: to the first entry with the key.
unfoldable pub update_entry : Bytes → (Entry → Entry) → List Entry → List Entry
update_entry key f [] = []
update_entry key f (e ∷ next) = if same key e.md then f e ∷ next else e ∷ update_entry key f next

unfoldable pub deactivate_from_list : Bytes → List Entry → List Entry
unfolding update_entry
deactivate_from_list key table = update_entry key (λ e. record e { announce = false }) table
