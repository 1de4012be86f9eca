-- ===== src/Names/Distinct.antt =====
-- The names tell the types and the states apart.
use Prim.Native.String.{String}
use mathlib.Core.Logic.{◌↔◌}
use text.Mathlib.Text.{◌==◌}
use jio.Base.{ℕ, zero, suc, ◌<◌, ◌≡◌, refl, sym, ap, ◌∙◌, List, [], ◌∷◌, arith, if◌then◌else◌}
use jio.Format.ObjectType
use jio.Format.JournalState
use jio.Names.{type_names, state_names, journal_object_type_str, journal_state_str}

-- The place of a name in a table, which is its length where the table does not have the name.
place_of : List String → String → ℕ
place_of [] name = 0
place_of (x ∷ xs) name = let rest = place_of xs name in if x == name then 0 else suc rest

-- A number, or `max` where it is not below it.
capped : ℕ → ℕ → ℕ
capped zero n = zero
capped (suc max) zero = zero
capped (suc max) (suc n) = suc (capped max n)

capped-below : (max n : ℕ) → capped max n < max → capped max n ≡ n
unfolding capped
capped-below zero n h = absurd (omega arith)
capped-below (suc max) zero h = refl
capped-below (suc max) (suc n) h = ap suc (capped-below max n (omega arith))

capped_id : (max n : ℕ) → n < max → capped max n ≡ n
unfolding capped
capped_id zero n h = absurd (omega arith)
capped_id (suc max) zero h = refl
capped_id (suc max) (suc n) h = ap suc (capped_id max n (omega arith))

place_of-type : (t : ℕ) → place_of type_names (journal_object_type_str t) ≡ capped ObjectType.max t
unfolding place_of capped journal_object_type_str
place_of-type zero = refl
place_of-type (suc zero) = refl
place_of-type (suc (suc zero)) = refl
place_of-type (suc (suc (suc zero))) = refl
place_of-type (suc (suc (suc (suc zero)))) = refl
place_of-type (suc (suc (suc (suc (suc zero))))) = refl
place_of-type (suc (suc (suc (suc (suc (suc zero)))))) = refl
place_of-type (suc (suc (suc (suc (suc (suc (suc zero))))))) = refl
place_of-type (suc (suc (suc (suc (suc (suc (suc (suc t)))))))) = refl

place_of-state : (s : ℕ) → place_of state_names (journal_state_str s) ≡ capped JournalState.max s
unfolding place_of capped journal_state_str
place_of-state zero = refl
place_of-state (suc zero) = refl
place_of-state (suc (suc zero)) = refl
place_of-state (suc (suc (suc s))) = refl

-- Two numbers of the same capped value, one of which is below the cap, are the same.
same_below : (max m n : ℕ) → m < max → capped max m ≡ capped max n → m ≡ n
same_below max m n h e =
    let id = capped_id max m h in sym id ∙ e ∙ capped-below max n (omega (arith, capped_id max m h))

-- A type below `_OBJECT_TYPE_MAX` shares its name with no other value, be that a type or not.
pub journal_object_type_str-distinct :
    (s t : ℕ)
    → s < ObjectType.max
    → (journal_object_type_str s ≡ journal_object_type_str t) ↔ (s ≡ t)
journal_object_type_str-distinct s t h = (
  λ e.
      same_below ObjectType.max s t h
        (sym (place_of-type s) ∙ ap (place_of type_names) e ∙ place_of-type t),
  ap journal_object_type_str,
)

-- A state below `_STATE_MAX` shares its name with no other value, be that a state or not.
pub journal_state_str-distinct :
    (s t : ℕ) → s < JournalState.max → (journal_state_str s ≡ journal_state_str t) ↔ (s ≡ t)
journal_state_str-distinct s t h = (
  λ e.
      same_below JournalState.max s t h
        (sym (place_of-state s) ∙ ap (place_of state_names) e ∙ place_of-state t),
  ap journal_state_str,
)
