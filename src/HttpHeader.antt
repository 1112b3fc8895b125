-- ===== src/HttpHeader.antt =====
-- include/ws_client/HttpHeader.hpp: the status line, the request line, and the header fields in
-- their order.
pub mod Keys
pub mod Laws
use mathlib.Core.List
use websocketclient_cpp.Prelude.{
  ℕ, zero, suc, ◌+◌, ◌-◌, ◌*◌, ◌/◌, ◌%◌, ◌^◌, ◌≤◌, ◌<◌, min, max, bit_and, bit_or, bit_xor, ◌≡◌,
  refl, sym, ap, ◌∙◌, subst, ◌≢◌, ◌↔◌, ◌⊎◌, inl, inr, Bool, true, false, not, ◌&&◌, ◌||◌, Option,
  none, some, List, [], ◌∷◌, ◌++◌, map, append-nil, append_assoc, arith, ltb, leb, ◌==◌,
  if◌then◌else◌, ltb→lt, leb→le, ==_iff, Bool-cases, Option-cases, all_below, all_below_sound,
  length, get_elem?, take, drop, replicate, length-append, length-take, length-drop,
  length-replicate, take-append-drop, take-append, drop-append, take_all, drop_all, AreBytes,
  AreBytes-append, AreBytes-take, AreBytes-drop, AreBytes-split, overwrite,
}
use websocketclient_cpp.Text.{Text, ℤ, codes, equals_ci}

pub record HttpStatusLine : Type 0 where
  pub protocol_version : Text
  pub status_code : ℤ
  pub reason : Text

pub record HttpRequestLine : Type 0 where
  pub method : Text
  pub request_target : Text
  pub http_version : Text

pub record HttpHeaderFields : Type 0 where
  pub fields : List (Text × Text)

-- `equals_ci(header.first, key)`
abbrev pub has_key : Text → Text × Text → Bool
has_key key (k, v) = equals_ci k key

unfoldable pub add : Text → Text → HttpHeaderFields → HttpHeaderFields
add key value h = record { fields = h.fields ++ ((key, value) ∷ []) }

-- The loop of `get`
abbrev pub values : Text → List (Text × Text) → List Text
values key [] = []
values key ((k, v) ∷ rest) = if equals_ci k key then v ∷ values key rest else values key rest

unfoldable pub get : Text → HttpHeaderFields → List Text
get key h = values key h.fields

-- `std::ranges::find_if`
abbrev pub first_value : Text → List (Text × Text) → Option Text
first_value key [] = none
first_value key ((k, v) ∷ rest) = if equals_ci k key then some v else first_value key rest

unfoldable pub get_first : Text → HttpHeaderFields → Option Text
get_first key h = first_value key h.fields

-- `erase(remove_if(…), end)`
abbrev pub without_key : Text → List (Text × Text) → List (Text × Text)
without_key key [] = []
without_key key ((k, v) ∷ rest) =
    if equals_ci k key then without_key key rest else (k, v) ∷ without_key key rest

unfoldable pub remove_key : Text → HttpHeaderFields → HttpHeaderFields
remove_key key h = record { fields = without_key key h.fields }

unfoldable pub set : Text → Text → HttpHeaderFields → HttpHeaderFields
set key value h = record { fields = without_key key h.fields ++ ((key, value) ∷ []) }

abbrev pub any_key : Text → List (Text × Text) → Bool
any_key key [] = false
any_key key ((k, v) ∷ rest) = equals_ci k key || any_key key rest

unfoldable pub contains_key : Text → HttpHeaderFields → Bool
contains_key key h = any_key key h.fields

abbrev pub count : Text → List (Text × Text) → ℕ
count key [] = 0
count key ((k, v) ∷ rest) = if equals_ci k key then suc (count key rest) else count key rest

unfoldable pub count_key : Text → HttpHeaderFields → ℕ
count_key key h = count key h.fields

unfoldable pub add_if_missing : Text → Text → HttpHeaderFields → HttpHeaderFields
unfolding contains_key add
add_if_missing key value h = if contains_key key h then h else add key value h

pub record HttpRequestHeader : Type 0 where
  pub request_line : HttpRequestLine
  pub fields : HttpHeaderFields

pub record HttpResponseHeader : Type 0 where
  pub status_line : HttpStatusLine
  pub fields : HttpHeaderFields

-- `operator<<`
abbrev pub crlf : Text
crlf = 13 ∷ 10 ∷ []

abbrev pub print_field : Text × Text → Text
print_field (key, value) = key ++ (b':' ∷ b' ' ∷ value ++ crlf)

abbrev pub print_fields : List (Text × Text) → Text
print_fields [] = []
print_fields (f ∷ rest) = print_field f ++ print_fields rest

abbrev pub print_request_line : HttpRequestLine → Text
print_request_line l = l.method ++ (b' ' ∷ l.request_target ++ (b' ' ∷ l.http_version ++ crlf))

unfoldable pub print_request : HttpRequestHeader → Text
print_request r = print_request_line r.request_line ++ (print_fields r.fields.fields ++ crlf)
