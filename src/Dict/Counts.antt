-- ===== src/Dict/Counts.antt =====
-- How many entries a selection of a map has.
use go_idento.Prelude.{
  suc, ◌≡◌, refl, ◌≢◌, Bool, true, some, List, [], ◌∷◌, arith, Eq, ◌==◌, length, Pairwise, inl, inr,
  Bool-cases,
}
use go_idento.Dict.Entries.{
  find_entry, absent, Unique, drop_entries, keep_entries, find_entry-absent, find_entry_of_In,
  keep_entries-In,
}

module _ {K V : Type 0} ⦃e : Eq K⦄ where
  drop_absent : (k : K) (m : List (K × V)) → absent k m ≡ true → drop_entries (λ j _. j == k) m ≡ m
  unfolding absent drop_entries
  drop_absent k [] h = refl
  drop_absent k ((j, w) ∷ m) h = ground (arith, drop_absent k m)

  -- Removing one entry that is selected leaves one entry less.
  pub length-keep-drop :
      (p : K → V → Bool) (k : K) (v : V) (m : List (K × V))
      → Unique m
      → find_entry k m ≡ some v
      → p k v ≡ true
      → suc (length (keep_entries p (drop_entries (λ j _. j == k) m))) ≡ length (keep_entries p m)
  unfolding find_entry drop_entries keep_entries
  length-keep-drop p k v [] u h t = cc
  length-keep-drop p k v ((j, w) ∷ m) u h t =
      ground (arith, e.beq_iff j k, drop_absent j m u.0, length-keep-drop p k v m u.1)

  -- Two selected entries have two keys.
  pub keep_entries-Pairwise :
      (p : K → V → Bool) (m : List (K × V))
      → Unique m
      → Pairwise (λ a b. a.0 ≢ b.0) (keep_entries p m)
  unfolding keep_entries
  keep_entries-Pairwise p [] u = tt
  keep_entries-Pairwise p ((j, w) ∷ m) u = elim (Bool-cases (p j w)) [
    | inr out ↦ rw out (keep_entries-Pairwise p m u.1)
    | inl kept ↦ rw kept (
      λ (k, x) i same. ground (
        arith,
        find_entry-absent j m u.0,
        find_entry_of_In k x m u.1 (keep_entries-In p k x m i).0,
      ),
      keep_entries-Pairwise p m u.1,
    )
  ]
