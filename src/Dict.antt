-- ===== src/Dict.antt =====
-- Go maps. The representation is private: clients have the laws below.
-- The order of the entries is the order in which a `range` loop meets them; a statement about a loop
-- holds for each map, so for each order.
mod Entries
mod Counts
pub use Entries.{unless}
use Entries.{
  find_entry, absent, Unique, put_entry, drop_entries, keep_entries, put_entry-Unique,
  drop_entries-Unique, find_entry-put_entry, find_entry-drop_entries, In-keep_entries,
  find_entry_of_In, keep_entries-In, length-drop_entries,
}
use Counts.{length-keep-drop, keep_entries-Pairwise}
use go_idento.Prelude.{
  suc, ◌≢◌, Pairwise, ℕ, ◌+◌, ◌≡◌, refl, ◌⊎◌, inl, inr, Bool, true, false, Option, none, some, List,
  [], ◌∷◌, arith, Eq, ◌==◌, if◌then◌else◌, length, In, Option-cases,
}

pub record Dict (K V : Type 0) ⦃e : Eq K⦄ : Type 0 where
  entries : List (K × V)
  unique : Unique entries

module _ {K V : Type 0} ⦃e : Eq K⦄ where
  unfoldable pub empty : Dict K V
  empty = record { entries = []; unique = tt }

  -- v, ok := m[k]
  unfoldable pub get : Dict K V → K → Option V
  unfolding find_entry
  get d k = find_entry k d.entries

  -- m[k] = v
  unfoldable pub put : Dict K V → K → V → Dict K V
  unfolding put_entry
  put d k v = record {
    entries = put_entry k v d.entries;
    unique = put_entry-Unique k v d.entries d.unique;
  }

  -- for k, v := range m { if p(k, v) { delete(m, k) } }
  unfoldable pub drop_where : Dict K V → (K → V → Bool) → Dict K V
  unfolding drop_entries
  drop_where d p = record {
    entries = drop_entries p d.entries;
    unique = drop_entries-Unique p d.entries d.unique;
  }

  -- The entries that a `range` loop with the test selects, in the order in which it meets them.
  unfoldable pub select : Dict K V → (K → V → Bool) → List (K × V)
  unfolding keep_entries
  select d p = keep_entries p d.entries

  -- delete(m, k)
  unfoldable pub remove : Dict K V → K → Dict K V
  unfolding drop_where
  remove d k = drop_where d (λ j _. j == k)

  -- len(m)
  unfoldable pub size : Dict K V → ℕ
  size d = length d.entries

  pub get-put :
      (d : Dict K V) (k j : K) (v : V) → get (put d k v) j ≡ (if k == j then some v else get d j)
  unfolding get put
  get-put d k j v = find_entry-put_entry k j v d.entries

  pub get-drop_where :
      (d : Dict K V) (p : K → V → Bool) (k : K) → get (drop_where d p) k ≡ unless p k (get d k)
  unfolding get drop_where
  get-drop_where d p k = find_entry-drop_entries p k d.entries d.unique

  -- A sweep leaves only what was there and fails the test.
  pub left_by_drop_where :
      (d : Dict K V) (p : K → V → Bool) (k : K) (x : V)
      → get (drop_where d p) k ≡ some x
      → (get d k ≡ some x) × (p k x ≡ false)
  left_by_drop_where d p k x h = ground (arith, get-drop_where d p k, Option-cases (get d k))

  pub none_after_drop_where :
      (d : Dict K V) (p : K → V → Bool) (k : K) → get d k ≡ none → get (drop_where d p) k ≡ none
  none_after_drop_where d p k h = ground (arith, get-drop_where d p k)

  pub get-remove :
      (d : Dict K V) (k j : K) → get (remove d k) j ≡ (if k == j then none else get d j)
  unfolding remove
  get-remove d k j =
      ground (arith, get-drop_where d (λ i _. i == k) j, e.beq_iff k j, e.beq_iff j k)

  pub In-select :
      (d : Dict K V) (p : K → V → Bool) (k : K) (v : V)
      → get d k ≡ some v
      → p k v ≡ true
      → In (k, v) (select d p)
  unfolding get select
  In-select d p k v h t = In-keep_entries p k v d.entries h t

  pub select-In :
      (d : Dict K V) (p : K → V → Bool) (k : K) (v : V)
      → In (k, v) (select d p)
      → (get d k ≡ some v) × (p k v ≡ true)
  unfolding get select
  select-In d p k v i =
      let (m, t) = keep_entries-In p k v d.entries i in
      (find_entry_of_In k v d.entries d.unique m, t)

  -- Deleting a selected key leaves one selected entry less.
  pub length-select-remove :
      (d : Dict K V) (p : K → V → Bool) (k : K) (v : V)
      → get d k ≡ some v
      → p k v ≡ true
      → suc (length (select (remove d k) p)) ≡ length (select d p)
  unfolding get select remove drop_where
  length-select-remove d p k v h t = length-keep-drop p k v d.entries d.unique h t

  -- Two selected entries have two keys.
  pub select-Pairwise : (d : Dict K V) (p : K → V → Bool) → Pairwise (λ a b. a.0 ≢ b.0) (select d p)
  unfolding select
  select-Pairwise d p = keep_entries-Pairwise p d.entries d.unique

  pub size-drop_where :
      (d : Dict K V) (p : K → V → Bool) → size (drop_where d p) + length (select d p) ≡ size d
  unfolding size drop_where select
  size-drop_where d p = length-drop_entries p d.entries

pub get-empty : {K V : Type 0} ⦃e : Eq K⦄ (k : K) → get (empty {K = K} {V = V}) k ≡ none
unfolding get empty
get-empty k = refl

pub ruleset dict_laws = (get-empty, get-put, get-remove, get-drop_where)
