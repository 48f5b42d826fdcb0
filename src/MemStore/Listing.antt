-- ===== src/MemStore/Listing.antt =====
-- stores/memstore/memstore.go: `ListUsers`, and `ListFilter` of identity/store.go. The upper-casing
-- of package strings works on Unicode and is a parameter.
use go_idento.Prelude.{
  ℤ, pos, negsuc, ℕ, zero, suc, ◌+◌, ◌-◌, Bool, ◌||◌, Option, none, some, List, [], ◌∷◌, map, ◌==◌,
  if◌then◌else◌, length, Text, text_eq, ltb, nat_beq, sort_by, text_ltb, has_prefix,
}
use go_idento.Dict
use go_idento.Identity.Entities.{User}
use go_idento.MemStore.State.{Store}

pub record ListFilter : Type 0 where
  pub search : Text
  pub limit : ℤ
  pub offset : ℤ

abbrev pub clamp_limit : ℤ → ℤ
clamp_limit (pos n) = if nat_beq n 0 then pos 50 else if ltb 500 n then pos 500 else pos n
clamp_limit (negsuc n) = pos 50

abbrev pub clamp_offset : ℤ → ℤ
clamp_offset (pos n) = pos n
clamp_offset (negsuc n) = pos 0

-- ListFilter.Clamp
unfoldable pub clamp : ListFilter → ListFilter
clamp f = record f { limit = clamp_limit f.limit; offset = clamp_offset f.offset }

-- strings.Contains
unfoldable pub contains : Text → Text → Bool
contains [] q = has_prefix [] q
contains (c ∷ s) q = has_prefix (c ∷ s) q || contains s q

unfoldable pub take : ℕ → List User → List User
take zero us = []
take (suc n) [] = []
take (suc n) (u ∷ us) = u ∷ take n us

unfoldable pub drop : ℕ → List User → List User
drop zero us = us
drop (suc n) [] = []
drop (suc n) (u ∷ us) = drop n us

-- `hi` of the source: a limit that is not positive asks for the rest.
abbrev page_end : ℕ → ℤ → ℕ → ℕ
page_end lo (negsuc n) len = len
page_end lo (pos n) len = if nat_beq n 0 || ltb len (lo + n) then len else lo + n

abbrev page : ℤ → ℤ → List User → Option (List User × ℕ)
page (negsuc n) limit matched = none
page (pos o) limit matched =
    let len = length matched in
    let lo : ℕ = if ltb len o then len else o in
    some (take (page_end lo limit len - lo) (drop lo matched), len)

abbrev matches : Text → User → Bool
matches q u = q == [] || (contains u.normalized_user_name q || contains u.normalized_email q)

-- The users of a page, and how many match. `none` is the panic of a slice with a negative bound.
unfoldable pub list_users : (Text → Text) → Store → ListFilter → Option (List User × ℕ)
unfolding contains take drop
list_users to_upper s f =
    let q = to_upper f.search in
    page f.offset f.limit (
      sort_by (λ a b. text_ltb a.id b.id)
        (map (λ e. e.1) (Dict.select s.users (λ _ u. matches q u))))
