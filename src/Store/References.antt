-- ===== src/Store/References.antt =====
-- src/store.rs: the files that an opaque item names.
use Prim.Native.String.{compare}
use text.Mathlib.Text.{is_le}
use threadmark.Common.Order.{sort_by}
use threadmark.Files.Uri.{parse_uri}
use threadmark.Model.Json.{
  Value, Values, Fields, null, bool, number, string, array, object, nil, cons, end, field,
}
use threadmark.Common.{
  String, Bool, false, ◌||◌, none, some, List, [], ◌∷◌, ◌++◌, ◌==◌, if◌then◌else◌, is_some,
}

abbrev pub str_le : String → String → Bool
str_le s t = is_le (compare s t)

-- `Vec::dedup`: of equal neighbours the first stays.
unfoldable pub dedup : List String → List String
dedup [] = []
dedup (x ∷ []) = x ∷ []
dedup (x ∷ y ∷ ys) = let rest = dedup (y ∷ ys) in if x == y then rest else x ∷ rest

-- `ids.sort(); ids.dedup()`, and a SELECT DISTINCT.
unfoldable pub sort_dedup : List String → List String
unfolding dedup sort_by
sort_dedup ids = dedup (sort_by str_le ids)

abbrev pub push_uri : String → List String → List String
push_uri s ids = elim (parse_uri s) [ none ↦ ids | some id ↦ ids ++ id ∷ [] ]

unfoldable mutual
  pub visit : Value → List String → List String
  visit (string s) ids = push_uri s ids
  visit (array vs) ids = visit_values vs ids
  visit (object fs) ids = visit_fields fs ids
  visit null ids = ids
  visit (bool b) ids = ids
  visit (number n) ids = ids

  pub visit_values : Values → List String → List String
  visit_values nil ids = ids
  visit_values (cons v vs) ids = visit_values vs (visit v ids)

  pub visit_fields : Fields → List String → List String
  visit_fields end ids = ids
  visit_fields (field k v fs) ids = visit_fields fs (visit v ids)

unfoldable pub referenced_file_ids : Value → List String
unfolding sort_dedup visit parse_uri
referenced_file_ids value = sort_dedup (visit value [])

-- `items.iter().flat_map(referenced_file_ids)`, sorted and without repetitions.
all_references : List Value → List String
all_references [] = []
all_references (v ∷ vs) = referenced_file_ids v ++ all_references vs

unfoldable pub batch_file_ids : List Value → List String
unfolding all_references sort_dedup referenced_file_ids
batch_file_ids items = sort_dedup (all_references items)

unfoldable mutual
  pub contains_threadmark_uri : Value → Bool
  contains_threadmark_uri (string s) = is_some (parse_uri s)
  contains_threadmark_uri (array vs) = any_value vs
  contains_threadmark_uri (object fs) = any_field fs
  contains_threadmark_uri null = false
  contains_threadmark_uri (bool b) = false
  contains_threadmark_uri (number n) = false

  pub any_value : Values → Bool
  any_value nil = false
  any_value (cons v vs) = contains_threadmark_uri v || any_value vs

  pub any_field : Fields → Bool
  any_field end = false
  any_field (field k v fs) = contains_threadmark_uri v || any_field fs
