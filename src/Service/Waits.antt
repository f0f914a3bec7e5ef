-- ===== src/Service/Waits.antt =====
-- What the call-backs and the searches leave of an entry that waits for its lookup to be made again.
use dtndht.Base.{
  ℕ, zero, suc, ◌+◌, ◌/◌, ◌≤◌, ◌<◌, Bytes, same, same_self, List, [], ◌∷◌, length, get_elem?, none,
  some, some_eq, ◌≡◌, ◌≢◌, refl, sym, ap, ◌∙◌, subst, inl, inr, arith, if◌then◌else◌, is_neg,
  Bool-cases,
}
use dtndht.Net.{Family, SockAddr}
use dtndht.Table.{Status, Entry, update_entry}
use dtndht.Rating.{Bloom}
use dtndht.Service.{
  Context, BindType, Engine, Event, State, addresses, addresses6, finish, found_values, callback,
  deliver, dht_search_in, dtn_dht_search,
}
use dtndht.Service.Calls.{update_at}

-- How often a key has been searched for.
unfoldable pub calls_of : Bytes → List (Bytes × ℕ × Family) → ℕ
calls_of key [] = 0
calls_of key ((k, _, _) ∷ calls) = (if same key k then 1 else 0) + calls_of key calls

-- The entry at a place of a table has this key and waits for its lookup to be made again.
pub record Waits (key : Bytes) (i : ℕ) (table : List Entry) : Type 0 where
  pub entry : Entry
  pub stands : get_elem? table i ≡ some entry
  pub has_key : entry.md ≡ key
  pub waiting : entry.status ≡ Status.done_and_ready_for_repeat

Waits-cons :
    (key : Bytes) (i : ℕ) (e : Entry) (table : List Entry)
    → Waits key i table
    → Waits key (suc i) (e ∷ table)
Waits-cons key i e table w = record {
  entry = w.entry;
  stands = w.stands;
  has_key = w.has_key;
  waiting = w.waiting;
}

Waits-tail :
    (key : Bytes) (i : ℕ) (e : Entry) (table : List Entry)
    → Waits key (suc i) (e ∷ table)
    → Waits key i table
Waits-tail key i e table w = record {
  entry = w.entry;
  stands = w.stands;
  has_key = w.has_key;
  waiting = w.waiting;
}

-- The end of a search leaves a waiting entry waiting.
update_entry-Waits :
    (k key : Bytes) (i : ℕ) (table : List Entry)
    → Waits key i table
    → Waits key i (update_entry k (λ e. record e { status = finish e.status }) table)
unfolding update_entry finish
update_entry-Waits k key i [] w = w
update_entry-Waits k key zero (e ∷ table) w =
    let q : e ≡ w.entry = some_eq w.stands in
    elim (Bool-cases (same k e.md)) [
      | inl h ↦
          rw (h, update_entry)
            (record {
              entry = record e { status = finish e.status };
              stands = refl;
              has_key = ap (λ (x : Entry). x.md) q ∙ w.has_key;
              waiting = ap finish (ap (λ (x : Entry). x.status) q ∙ w.waiting);
            })
      | inr h ↦
          rw (h, update_entry)
            (record {
              entry = w.entry;
              stands = w.stands;
              has_key = w.has_key;
              waiting = w.waiting;
            })
    ]
update_entry-Waits k key (suc i) (e ∷ table) w = elim (Bool-cases (same k e.md)) [
  | inl h ↦ rw (h, update_entry) (Waits-cons key i _ table (Waits-tail key i e table w))
  | inr h ↦
      rw (h, update_entry)
        (Waits-cons key i e _ (update_entry-Waits k key i table (Waits-tail key i e table w)))
]

-- A write to another entry leaves it waiting as well.
pub update_at-Waits :
    (f : Entry → Entry) (j : ℕ) (key : Bytes) (i : ℕ) (table : List Entry)
    → j < i
    → Waits key i table
    → Waits key i (update_at f j table)
update_at-Waits f j key i [] h w = w
update_at-Waits f j key zero (e ∷ table) h w = absurd (omega arith)
update_at-Waits f zero key (suc i) (e ∷ table) h w =
    Waits-cons key i (f e) table (Waits-tail key i e table w)
update_at-Waits f (suc j) key (suc i) (e ∷ table) h w =
    Waits-cons key i e (update_at f j table)
      (update_at-Waits f j key i table (omega arith) (Waits-tail key i e table w))

pub get_elem?-none {ℓ} :
    {A : Type ℓ} (l : List A) (i j : ℕ) → i ≤ j → get_elem? l i ≡ none → get_elem? l j ≡ none
get_elem?-none [] i j h k = refl
get_elem?-none (x ∷ l) zero j h k = absurd (cc)
get_elem?-none (x ∷ l) (suc i) zero h k = absurd (omega arith)
get_elem?-none (x ∷ l) (suc i) (suc j) h k = get_elem?-none l i j (omega arith) k

pub get_elem?-length {ℓ} :
    {A : Type ℓ} (l : List A) (i : ℕ) (x : A) → get_elem? l i ≡ some x → i < length l
get_elem?-length [] i x k = absurd (cc)
get_elem?-length (y ∷ l) zero x k = omega arith
get_elem?-length (y ∷ l) (suc i) x k = omega (arith, get_elem?-length l i x k)

module _ {ℓ} {E B : Type ℓ} (dht : Engine E) (bloom : Bloom B) (digest : SockAddr → Bytes)
    (junk : ℕ → Bytes) where
  found_values-same :
      (now : ℕ) (info_hash : Bytes) (from : SockAddr) (fromlen : ℕ) (ss : List SockAddr)
      (s : State E B)
      → ((found_values dht bloom digest junk now info_hash from fromlen ss s).lookuptable
          ≡ s.lookuptable)
        × ((found_values dht bloom digest junk now info_hash from fromlen ss s).searches
            ≡ s.searches)
  unfolding found_values
  found_values-same now info_hash from fromlen ss s = ground arith

  pub callback-searches :
      (now : ℕ) (ev : Event) (s : State E B)
      → (callback dht bloom digest junk now ev s).searches ≡ s.searches
  unfolding callback
  callback-searches now (Event.search_done info_hash) s = refl
  callback-searches now (Event.values info_hash data' from fromlen) s =
      (found_values-same now info_hash from fromlen (addresses (length data' / 6) data') s).1
  callback-searches now (Event.values6 info_hash data' from fromlen) s =
      (found_values-same now info_hash from fromlen (addresses6 junk (length data' / 18) data') s).1

  callback-Waits :
      (now : ℕ) (ev : Event) (key : Bytes) (i : ℕ) (s : State E B)
      → Waits key i s.lookuptable
      → Waits key i (callback dht bloom digest junk now ev s).lookuptable
  unfolding callback
  callback-Waits now (Event.search_done info_hash) key i s w =
      update_entry-Waits info_hash key i s.lookuptable w
  callback-Waits now (Event.values info_hash data' from fromlen) key i s w =
      subst (Waits key i)
        (sym
          (found_values-same now info_hash from fromlen (addresses (length data' / 6) data') s).0)
        w
  callback-Waits now (Event.values6 info_hash data' from fromlen) key i s w =
      subst (Waits key i)
        (sym
          (found_values-same now info_hash from fromlen (addresses6 junk (length data' / 18) data')
            s).0)
        w

  pub deliver-Waits :
      (now : ℕ) (evs : List Event) (key : Bytes) (i : ℕ) (s : State E B)
      → Waits key i s.lookuptable
      → Waits key i (deliver dht bloom digest junk now evs s).lookuptable
  unfolding deliver
  deliver-Waits now [] key i s w = w
  deliver-Waits now (ev ∷ evs) key i s w =
      deliver-Waits now evs key i (callback dht bloom digest junk now ev s)
        (callback-Waits now ev key i s w)

  pub deliver-searches :
      (now : ℕ) (evs : List Event) (s : State E B)
      → (deliver dht bloom digest junk now evs s).searches ≡ s.searches
  unfolding deliver
  deliver-searches now [] s = refl
  deliver-searches now (ev ∷ evs) s =
      deliver-searches now evs (callback dht bloom digest junk now ev s)
      ∙ callback-searches now ev s

  dht_search_in-Waits :
      (now : ℕ) (id : Bytes) (port : ℕ) (af : Family) (key : Bytes) (i : ℕ) (s : State E B)
      → Waits key i s.lookuptable
      → Waits key i (dht_search_in dht bloom digest junk now id port af s).1.lookuptable
  unfolding dht_search_in
  dht_search_in-Waits now id port af key i s w =
      deliver-Waits now (dht.dht_search id port af s.engine).1 key i _ w

  dht_search_in-searches :
      (now : ℕ) (id : Bytes) (port : ℕ) (af : Family) (s : State E B)
      → (dht_search_in dht bloom digest junk now id port af s).1.searches
        ≡ (id, port, af) ∷ s.searches
  unfolding dht_search_in
  dht_search_in-searches now id port af s =
      deliver-searches now (dht.dht_search id port af s.engine).1 _

  module _ (now : ℕ) (ctx : Context) (id : Bytes) (port : ℕ) where
    -- What holds after a first call of `dht_search`, and stays so after others.
    pub dtn_dht_search_by {κ} :
        (P : State E B → Type κ) (s : State E B)
        → ((af : Family) → P (dht_search_in dht bloom digest junk now id port af s).1)
        → ((af : Family) (t : State E B)
            → P t
            → P (dht_search_in dht bloom digest junk now id port af t).1)
        → (ctx.type ≡ BindType.bindnone → P s)
        → P (dtn_dht_search dht bloom digest junk now ctx id port s).1
    unfolding dtn_dht_search
    dtn_dht_search_by P s start step none_at_all = by_type ctx.type refl
      where
        by_type :
            (t : BindType)
            → ctx.type ≡ t
            → P (dtn_dht_search dht bloom digest junk now ctx id port s).1
        by_type BindType.bindnone k = rw (k, dtn_dht_search) (none_at_all k)
        by_type BindType.ipv4only k = rw (k, dtn_dht_search) (start Family.inet)
        by_type BindType.ipv6only k = rw (k, dtn_dht_search) (start Family.inet6)
        by_type BindType.bindboth k =
            elim (Bool-cases
              (is_neg (dht_search_in dht bloom digest junk now id port Family.inet s).0)) [
                | inl n ↦ rw (k, n, dtn_dht_search) (start Family.inet)
                | inr n ↦ rw (k, n, dtn_dht_search) (step Family.inet6 _ (start Family.inet))
              ]

    pub dtn_dht_search-Waits :
        (key : Bytes) (i : ℕ) (s : State E B)
        → Waits key i s.lookuptable
        → Waits key i (dtn_dht_search dht bloom digest junk now ctx id port s).1.lookuptable
    dtn_dht_search-Waits key i s w =
        dtn_dht_search_by (λ t. Waits key i t.lookuptable) s
          (λ af. dht_search_in-Waits now id port af key i s w)
          (λ af t. dht_search_in-Waits now id port af key i t) (λ _. w)

    dht_search_in-calls_of :
        (af : Family) (key : Bytes) (s : State E B)
        → calls_of key (dht_search_in dht bloom digest junk now id port af s).1.searches
          ≡ (if same key id then 1 else 0) + calls_of key s.searches
    unfolding calls_of
    dht_search_in-calls_of af key s = ap (calls_of key) (dht_search_in-searches now id port af s)

    pub dtn_dht_search-calls_of :
        (key : Bytes) (s : State E B)
        → calls_of key s.searches
          ≤ calls_of key (dtn_dht_search dht bloom digest junk now ctx id port s).1.searches
    dtn_dht_search-calls_of key s =
        dtn_dht_search_by (λ t. calls_of key s.searches ≤ calls_of key t.searches) s
          (λ af. omega (arith, dht_search_in-calls_of af key s))
          (λ af t h. omega (arith, dht_search_in-calls_of af key t)) (λ _. omega arith)

    pub dtn_dht_search-called :
        (s : State E B)
        → ctx.type ≢ BindType.bindnone
        → calls_of id s.searches
          < calls_of id (dtn_dht_search dht bloom digest junk now ctx id port s).1.searches
    dtn_dht_search-called s h =
        let one : if◌then◌else◌ {A = ℕ} (same id id) 1 0 ≡ 1 = rw (same_self id) refl in
        dtn_dht_search_by (λ t. calls_of id s.searches < calls_of id t.searches) s
          (λ af. omega (arith, one, dht_search_in-calls_of af id s))
          (λ af t k. omega (arith, dht_search_in-calls_of af id t)) (λ k. absurd (h k))
