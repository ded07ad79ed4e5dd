-- ===== src/Service/Tags.antt =====
-- `equalStringSlices` and `isUpdateRequired`.
use opsgenie_operator.Prelude.{
  String, Bool, true, false, not, ◌&&◌, ◌||◌, List, [], ◌∷◌, Option, none, some, length, ◌!=◌,
  nat_eq, string_eq, if◌then◌else◌,
}
use opsgenie_operator.Prelude.Dict.{Dict, lookup, insert}
use opsgenie_operator.Api.Service.{OpsgenieService}
use opsgenie_operator.Opsgenie.Service.{Service}

-- `m[k]` at a map of Booleans: false for a missing key
abbrev pub is_set : Option Bool → Bool
is_set none = false
is_set (some b) = b

-- The loop that fills `aMap`.
unfoldable pub string_set : Dict Bool → List String → Dict Bool
string_set m [] = m
string_set m (val ∷ a) = string_set (insert val true m) a

-- The loop that looks every element of `b` up.
unfoldable pub are_all_set : Dict Bool → List String → Bool
are_all_set m [] = true
are_all_set m (val ∷ b) = is_set (lookup val m) && are_all_set m b

unfoldable pub equal_string_slices : List String → List String → Bool
unfolding string_set are_all_set
equal_string_slices a b = if length a != length b then false else are_all_set (string_set [] a) b

unfoldable pub is_update_required : OpsgenieService → Service → Bool
is_update_required cr existing =
    cr.spec.name != existing.name
    || (cr.spec.description != existing.description
        || not (equal_string_slices cr.spec.tags existing.tags))
