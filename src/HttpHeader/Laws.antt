-- ===== src/HttpHeader/Laws.antt =====
-- The header fields as a map from keys, up to case, to the list of their values.
use websocketclient_cpp.Prelude.{
  ◌≡◌, refl, ◌∙◌, inl, inr, Bool, true, false, not, ◌&&◌, Option, none, some, List, [], ◌∷◌, ◌++◌,
  append-nil, arith, if◌then◌else◌, Bool-cases, length,
}
use websocketclient_cpp.Text.{Text, equals_ci}
use websocketclient_cpp.HttpHeader.{
  HttpHeaderFields, add, add_if_missing, set, get, get_first, remove_key, contains_key, count_key,
  values, first_value, without_key, any_key, count,
}
use websocketclient_cpp.HttpHeader.Keys.{equals_ci_trans, equals_ci_trans_right}

values-append :
    (j : Text) (xs ys : List (Text × Text)) → values j (xs ++ ys) ≡ values j xs ++ values j ys
values-append j [] ys = refl
values-append j ((k, v) ∷ xs) ys = ground (arith, values-append j xs ys)

values-without_key :
    (j key : Text) (xs : List (Text × Text))
    → values j (without_key key xs) ≡ (if equals_ci key j then [] else values j xs)
values-without_key j key [] = ground arith
values-without_key j key ((k, v) ∷ xs) = elim (Bool-cases (equals_ci k key)) [
  | inl e ↦ ground (arith, e, equals_ci_trans k key j e, values-without_key j key xs)
  | inr e ↦ elim (Bool-cases (equals_ci key j)) [
    | inl f ↦ ground (arith, e, f, equals_ci_trans_right k key j f, values-without_key j key xs)
    | inr f ↦ ground (arith, e, f, values-without_key j key xs)
  ]
]

abbrev pub first_of : List Text → Option Text
first_of [] = none
first_of (v ∷ vs) = some v

abbrev pub no_values : List Text → Bool
no_values [] = true
no_values (v ∷ vs) = false

first_value-values :
    (j : Text) (xs : List (Text × Text)) → first_value j xs ≡ first_of (values j xs)
first_value-values j [] = refl
first_value-values j ((k, v) ∷ xs) = ground (arith, first_value-values j xs)

any_key-values : (j : Text) (xs : List (Text × Text)) → any_key j xs ≡ not (no_values (values j xs))
any_key-values j [] = refl
any_key-values j ((k, v) ∷ xs) = ground (arith, any_key-values j xs)

count-values : (j : Text) (xs : List (Text × Text)) → count j xs ≡ length (values j xs)
count-values j [] = refl
count-values j ((k, v) ∷ xs) = ground (arith, count-values j xs)

-- Keys that are equal up to case have the same values.
values_same :
    (j key : Text) (xs : List (Text × Text)) → equals_ci key j ≡ true → values key xs ≡ values j xs
values_same j key [] h = refl
values_same j key ((k, v) ∷ xs) h =
    ground (arith, equals_ci_trans_right k key j h, values_same j key xs h)

-- The other ways to look a key up, in terms of the values that `get` finds: get_first returns the
-- first of them, contains_key says whether there is one, count_key how many there are.
pub lookups_lem :
    (j : Text) (h : HttpHeaderFields)
    → (get_first j h ≡ first_of (get j h))
      × (contains_key j h ≡ not (no_values (get j h)))
      × (count_key j h ≡ length (get j h))
unfolding get get_first contains_key count_key
lookups_lem j h =
    (first_value-values j h.fields, any_key-values j h.fields, count-values j h.fields)

get-add :
    (j key value : Text) (h : HttpHeaderFields)
    → get j (add key value h) ≡ get j h ++ (if equals_ci key j then value ∷ [] else [])
unfolding get add
get-add j key value h = values-append j h.fields ((key, value) ∷ [])

get-remove_key :
    (j key : Text) (h : HttpHeaderFields)
    → get j (remove_key key h) ≡ (if equals_ci key j then [] else get j h)
unfolding get remove_key
get-remove_key j key h = values-without_key j key h.fields

pub get-set :
    (j key value : Text) (h : HttpHeaderFields)
    → get j (set key value h) ≡ (if equals_ci key j then value ∷ [] else get j h)
unfolding get set
get-set j key value h =
    values-append j (without_key key h.fields) ((key, value) ∷ [])
    ∙ ground (arith, values-without_key j key h.fields, append-nil (values j h.fields))

-- A key that is there keeps its values; one that is not gets the value as its only one.
pub get-add_if_missing :
    (j key value : Text) (h : HttpHeaderFields)
    → get j (add_if_missing key value h)
      ≡ (if no_values (get key h) && equals_ci key j then value ∷ [] else get j h)
unfolding get add_if_missing add contains_key
get-add_if_missing j key value h = ground (
  arith,
  any_key-values key h.fields,
  values-append j h.fields ((key, value) ∷ []),
  values_same j key h.fields,
  append-nil (values j h.fields),
)

-- What each operation that writes does to the values of a key `j`, which match up to case: add puts
-- the value behind those of its key, set makes it the only one, remove_key leaves none,
-- add_if_missing makes it the only one where there was none; the values of other keys stay.
pub writes_lem :
    (j key value : Text) (h : HttpHeaderFields)
    → (get j (add key value h) ≡ get j h ++ (if equals_ci key j then value ∷ [] else []))
      × (get j (set key value h) ≡ (if equals_ci key j then value ∷ [] else get j h))
      × (get j (remove_key key h) ≡ (if equals_ci key j then [] else get j h))
      × (get j (add_if_missing key value h)
          ≡ (if no_values (get key h) && equals_ci key j then value ∷ [] else get j h))
writes_lem j key value h = (
  get-add j key value h,
  get-set j key value h,
  get-remove_key j key h,
  get-add_if_missing j key value h,
)
