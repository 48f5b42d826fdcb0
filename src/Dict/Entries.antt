-- ===== src/Dict/Entries.antt =====
-- The list behind a map: at most one entry for a key.
use go_idento.Prelude.{
  ◌+◌, ◌≡◌, refl, Bool, true, false, Option, none, some, List, [], ◌∷◌, arith, Eq, ◌==◌,
  if◌then◌else◌, length, In,
}

module _ {K V : Type 0} ⦃e : Eq K⦄ where
  -- The value of the first entry with the key.
  unfoldable pub find_entry : K → List (K × V) → Option V
  find_entry k [] = none
  find_entry k ((j, v) ∷ m) = if j == k then some v else find_entry k m

  unfoldable pub absent : K → List (K × V) → Bool
  absent k [] = true
  absent k ((j, v) ∷ m) = if j == k then false else absent k m

  abbrev pub Unique : List (K × V) → Type 0
  Unique [] = Unit
  Unique ((k, v) ∷ m) = (absent k m ≡ true) × Unique m

  unfoldable pub put_entry : K → V → List (K × V) → List (K × V)
  put_entry k v [] = (k, v) ∷ []
  put_entry k v ((j, w) ∷ m) = if j == k then (k, v) ∷ m else (j, w) ∷ put_entry k v m

  unfoldable pub drop_entries : (K → V → Bool) → List (K × V) → List (K × V)
  drop_entries p [] = []
  drop_entries p ((j, w) ∷ m) = if p j w then drop_entries p m else (j, w) ∷ drop_entries p m

  absent-put_entry :
      (k j : K) (v : V) (m : List (K × V))
      → absent j (put_entry k v m) ≡ (if k == j then false else absent j m)
  unfolding absent put_entry
  absent-put_entry k j v [] = refl
  absent-put_entry k j v ((i, w) ∷ m) =
      ground (arith, e.beq_iff k j, e.beq_iff i k, e.beq_iff i j, absent-put_entry k j v m)

  pub put_entry-Unique : (k : K) (v : V) (m : List (K × V)) → Unique m → Unique (put_entry k v m)
  unfolding put_entry absent
  put_entry-Unique k v [] u = (refl, tt)
  put_entry-Unique k v ((j, w) ∷ m) u =
      ground
        (arith, e.beq_iff j k, e.beq_iff k j, absent-put_entry k j v m, put_entry-Unique k v m u.1)

  absent-drop_entries :
      (p : K → V → Bool) (k : K) (m : List (K × V))
      → absent k m ≡ true
      → absent k (drop_entries p m) ≡ true
  unfolding absent drop_entries
  absent-drop_entries p k [] h = refl
  absent-drop_entries p k ((j, w) ∷ m) h = ground (arith, absent-drop_entries p k m)

  pub drop_entries-Unique :
      (p : K → V → Bool) (m : List (K × V)) → Unique m → Unique (drop_entries p m)
  unfolding drop_entries
  drop_entries-Unique p [] u = tt
  drop_entries-Unique p ((j, w) ∷ m) u =
      ground (arith, absent-drop_entries p j m u.0, drop_entries-Unique p m u.1)

  unfoldable pub keep_entries : (K → V → Bool) → List (K × V) → List (K × V)
  keep_entries p [] = []
  keep_entries p ((j, w) ∷ m) = if p j w then (j, w) ∷ keep_entries p m else keep_entries p m

  pub find_entry-put_entry :
      (k j : K) (v : V) (m : List (K × V))
      → find_entry j (put_entry k v m) ≡ (if k == j then some v else find_entry j m)
  unfolding find_entry put_entry
  find_entry-put_entry k j v [] = refl
  find_entry-put_entry k j v ((i, w) ∷ m) =
      ground (arith, e.beq_iff k j, e.beq_iff i k, e.beq_iff i j, find_entry-put_entry k j v m)

  pub find_entry-absent : (k : K) (m : List (K × V)) → absent k m ≡ true → find_entry k m ≡ none
  unfolding find_entry absent
  find_entry-absent k [] h = refl
  find_entry-absent k ((j, w) ∷ m) h = ground (arith, find_entry-absent k m)

  -- What is left of an entry when those that pass the test are removed.
  abbrev pub unless : (K → V → Bool) → K → Option V → Option V
  unless p k none = none
  unless p k (some v) = if p k v then none else some v

  pub find_entry-drop_entries :
      (p : K → V → Bool) (k : K) (m : List (K × V))
      → Unique m
      → find_entry k (drop_entries p m) ≡ unless p k (find_entry k m)
  unfolding find_entry drop_entries
  find_entry-drop_entries p k [] u = refl
  find_entry-drop_entries p k ((j, w) ∷ m) u =
      ground (arith, e.beq_iff j k, find_entry-drop_entries p k m u.1, find_entry-absent j m u.0)

  pub In-keep_entries :
      (p : K → V → Bool) (k : K) (v : V) (m : List (K × V))
      → find_entry k m ≡ some v
      → p k v ≡ true
      → In (k, v) (keep_entries p m)
  unfolding find_entry keep_entries
  In-keep_entries p k v [] h t = cc
  In-keep_entries p k v ((j, w) ∷ m) h t = ground (arith, e.beq_iff j k, In-keep_entries p k v m)

  pub find_entry_of_In :
      (k : K) (v : V) (m : List (K × V)) → Unique m → In (k, v) m → find_entry k m ≡ some v
  unfolding find_entry
  find_entry_of_In k v [] u i = absurd i
  find_entry_of_In k v ((j, w) ∷ m) u i =
      ground (arith, e.beq_iff j k, find_entry-absent j m u.0, find_entry_of_In k v m u.1)

  pub keep_entries-In :
      (p : K → V → Bool) (k : K) (v : V) (m : List (K × V))
      → In (k, v) (keep_entries p m)
      → In (k, v) m × (p k v ≡ true)
  unfolding keep_entries
  keep_entries-In p k v [] i = absurd i
  keep_entries-In p k v ((j, w) ∷ m) i = ground (arith, keep_entries-In p k v m)

  pub length-drop_entries :
      (p : K → V → Bool) (m : List (K × V))
      → length (drop_entries p m) + length (keep_entries p m) ≡ length m
  unfolding drop_entries keep_entries
  length-drop_entries p [] = omega arith
  length-drop_entries p ((j, w) ∷ m) = ground (arith, length-drop_entries p m)
