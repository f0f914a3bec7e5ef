-- ===== src/Table/Keys.antt =====
-- The entry that stands for a key in a table, after a write to the table.
use dtndht.Base.{
  ℕ, Bytes, same, same_self, same_eq, same_ne, Bool, true, false, List, [], ◌∷◌, Option, none, some,
  ◌≡◌, ◌≢◌, refl, sym, ◌∙◌, Bool-cases, inl, inr,
}
use dtndht.Table.{Status, Entry, get_from_list, update_entry, add_to_list, deactivate_from_list}

-- A change of an entry that leaves its key.
abbrev pub KeepsKey : (Entry → Entry) → Type 0
KeepsKey f = (e : Entry) → (f e).md ≡ e.md

abbrev pub on_entry : (Entry → Entry) → Option Entry → Option Entry
on_entry f none = none
on_entry f (some e) = some (f e)

pub get_from_list-update_entry :
    (key : Bytes) (f : Entry → Entry) (table : List Entry)
    → KeepsKey f
    → get_from_list key (update_entry key f table) ≡ on_entry f (get_from_list key table)
unfolding get_from_list update_entry
get_from_list-update_entry key f [] h = refl
get_from_list-update_entry key f (e ∷ table) h = elim (Bool-cases (same key e.md)) [
  | inl k ↦ rw (k, update_entry, h e, k, get_from_list) refl
  | inr k ↦ rw (k, update_entry, k, get_from_list) (get_from_list-update_entry key f table h)
]

pub get_from_list-update_other :
    (k key : Bytes) (f : Entry → Entry) (table : List Entry)
    → KeepsKey f
    → k ≢ key
    → get_from_list k (update_entry key f table) ≡ get_from_list k table
unfolding get_from_list update_entry
get_from_list-update_other k key f [] h d = refl
get_from_list-update_other k key f (e ∷ table) h d = elim (Bool-cases (same key e.md)) [
  | inl q ↦
      let n : same k e.md ≡ false = same_ne k e.md (λ z. d (z ∙ sym (same_eq key e.md q))) in
      rw (q, update_entry, h e, n, get_from_list) refl
  | inr q ↦ elim (Bool-cases (same k e.md)) [
    | inl n ↦ rw (q, update_entry, n, get_from_list) refl
    | inr n ↦ rw (q, update_entry, n, get_from_list) (get_from_list-update_other k key f table h d)
  ]
]

pub get_from_list-add_to_list :
    (k : Bytes) (now : ℕ) (key : Bytes) (table : List Entry)
    → k ≢ key
    → get_from_list k (add_to_list now key table) ≡ get_from_list k table
unfolding get_from_list add_to_list
get_from_list-add_to_list k now key table d = rw (same_ne k key d, get_from_list) refl

pub get_from_list-added :
    (now : ℕ) (key : Bytes) (table : List Entry)
    → get_from_list key (add_to_list now key table)
      ≡ some (record { md = key; announce = false; status = Status.searching; updatetime = now })
unfolding get_from_list add_to_list
get_from_list-added now key table = rw (same_self key, get_from_list) refl

-- The entry that stands for a key is announced.
unfoldable pub is_announced : Bytes → List Entry → Bool
is_announced key table = elim (get_from_list key table) [ none ↦ false | some e ↦ e.announce ]

abbrev pub announce : Entry → Entry
announce e = record e { announce = true }

abbrev pub forget : Entry → Entry
forget e = record e { updatetime = 0 }

abbrev pub new_table : ℕ → Bytes → List Entry → List Entry
new_table now key table = update_entry key announce (add_to_list now key table)

pub is_announced-update_entry :
    (key : Bytes) (f : Entry → Entry) (table : List Entry) (e : Entry) (b : Bool)
    → KeepsKey f
    → get_from_list key table ≡ some e
    → (f e).announce ≡ b
    → is_announced key (update_entry key f table) ≡ b
unfolding is_announced
is_announced-update_entry key f table e b h g a =
    rw (get_from_list-update_entry key f table h, g, is_announced) a

pub is_announced-new_table :
    (now : ℕ) (key : Bytes) (table : List Entry) → is_announced key (new_table now key table) ≡ true
is_announced-new_table now key table =
    is_announced-update_entry key announce (add_to_list now key table) _ true (λ _. refl)
      (get_from_list-added now key table) refl

pub is_announced-forget :
    (key : Bytes) (table : List Entry)
    → is_announced key (update_entry key forget table) ≡ is_announced key table
unfolding is_announced
is_announced-forget key table =
    rw (get_from_list-update_entry key forget table (λ _. refl), is_announced)
      (by_entry (get_from_list key table))
  where
    by_entry :
        (o : Option Entry)
        → elim (on_entry forget o) [ none ↦ false | some e ↦ e.announce ]
          ≡ elim o [ none ↦ false | some e ↦ e.announce ]
    by_entry none = refl
    by_entry (some e) = refl

pub get_from_list-new_table :
    (k : Bytes) (now : ℕ) (key : Bytes) (table : List Entry)
    → k ≢ key
    → get_from_list k (new_table now key table) ≡ get_from_list k table
get_from_list-new_table k now key table d =
    get_from_list-update_other k key announce (add_to_list now key table) (λ _. refl) d
    ∙ get_from_list-add_to_list k now key table d

pub is_announced-deactivate_from_list :
    (key : Bytes) (table : List Entry) → is_announced key (deactivate_from_list key table) ≡ false
unfolding is_announced deactivate_from_list
is_announced-deactivate_from_list key table =
    rw
      (
        get_from_list-update_entry key (λ e. record e { announce = false }) table (λ _. refl),
        is_announced,
      )
      (by_entry (get_from_list key table))
  where
    by_entry :
        (o : Option Entry)
        → elim (on_entry (λ e. record e { announce = false }) o) [
          | none ↦ false
          | some e ↦ e.announce
        ]
          ≡ false
    by_entry none = refl
    by_entry (some e) = refl
