-- ===== src/Handshake.antt =====
-- include/ws_client/Handshake.hpp: the request that asks for the upgrade, and the checks of the
-- answer. SHA-1 is a parameter: the library holds a copy of another project's code.
pub mod Tokens
pub mod Request
pub mod Accepting
pub mod Response
use mathlib.Core.List
use websocketclient_cpp.Prelude.{
  ℕ, zero, suc, ◌+◌, ◌-◌, ◌*◌, ◌/◌, ◌%◌, ◌^◌, ◌≤◌, ◌<◌, min, max, bit_and, bit_or, bit_xor, ◌≡◌,
  refl, sym, ap, ◌∙◌, subst, ◌≢◌, ◌↔◌, ◌⊎◌, inl, inr, Bool, true, false, not, ◌&&◌, ◌||◌, Option,
  none, some, List, [], ◌∷◌, ◌++◌, map, append-nil, append_assoc, arith, ltb, leb, ◌==◌,
  if◌then◌else◌, ltb→lt, leb→le, ==_iff, Bool-cases, Option-cases, all_below, all_below_sound,
  length, get_elem?, take, drop, replicate, length-append, length-take, length-drop,
  length-replicate, take-append-drop, take-append, drop-append, take_all, drop_all, AreBytes,
  AreBytes-append, AreBytes-take, AreBytes-drop, AreBytes-split, overwrite,
}
use websocketclient_cpp.Text.{Text, ℤ, pos, codes, equals, equals_ci, trim, onto_first}
use websocketclient_cpp.Networking.{store}
use websocketclient_cpp.Base64.{base64_encode}
use websocketclient_cpp.Random.{Xoshiro128p, next}
use websocketclient_cpp.Errors.{Expected, ok, err, out_of_fuel, WsError}
use websocketclient_cpp.Errors.Steps.{M, ◌>>=◌, ◌>>◌, pure, fail_if, get, put, of_result}
use websocketclient_cpp.HttpHeader.{
  HttpHeaderFields, HttpStatusLine, HttpRequestLine, HttpRequestHeader, HttpResponseHeader,
  add_if_missing, set, contains_key, get_first, print_request,
}
use websocketclient_cpp.HttpParser.{header_error, parse_request_status_line, parse_header_fields}
use websocketclient_cpp.Url.{Url, authority}
use websocketclient_cpp.PermessageDeflate.{
  PermessageDeflate, negotiate, get_sec_web_socket_extensions_value,
}

pub record Handshake : Type 0 where
  pub url : Url
  pub rnd : Xoshiro128p
  pub request_key : Text
  pub request_header : HttpRequestHeader
  pub response_header : HttpResponseHeader
  pub permessage_deflate : Option PermessageDeflate
  pub permessage_deflate_negotiated : Bool
  pub success : Bool

-- `Handshake(logger, url)`, with the generator as it is seeded
abbrev pub new_handshake : Url → Xoshiro128p → Handshake
new_handshake url rnd = record {
  url = url;
  rnd = rnd;
  request_key = [];
  request_header = record {
    request_line = record { method = []; request_target = []; http_version = [] };
    fields = record { fields = [] };
  };
  response_header = record {
    status_line = record { protocol_version = []; status_code = pos 0; reason = [] };
    fields = record { fields = [] };
  };
  permessage_deflate = none;
  permessage_deflate_negotiated = false;
  success = false;
}

-- The two results of the generator are widened to `uint64_t` and copied as they lie in memory.
unfoldable pub generate_key : Xoshiro128p → Text × Xoshiro128p
unfolding next base64_encode
generate_key rnd =
    let (part, rnd1) = next rnd in
    let (part', rnd2) = next rnd1 in (base64_encode (store 8 part ++ store 8 part'), rnd2)

-- The header with compression, where it is wanted and the user has not set it
abbrev pub set_extensions : Option PermessageDeflate → HttpHeaderFields → HttpHeaderFields
set_extensions none fields = fields
set_extensions (some p) fields =
    if contains_key (codes "Sec-WebSocket-Extensions") fields
    then fields
    else set (codes "Sec-WebSocket-Extensions") (get_sec_web_socket_extensions_value p) fields

unfoldable pub request_fields : Handshake → Text → HttpHeaderFields
unfolding add_if_missing set contains_key authority get_sec_web_socket_extensions_value
request_fields h key =
    let f0 = add_if_missing (codes "Host") (authority h.url) h.request_header.fields in
    let f1 = add_if_missing (codes "Upgrade") (codes "websocket") f0 in
    let f2 = add_if_missing (codes "Connection") (codes "Upgrade") f1 in
    let f3 = add_if_missing (codes "Sec-WebSocket-Version") (codes "13") f2 in
    let f4 = set (codes "Sec-WebSocket-Key") key f3 in
    let f5 = set_extensions h.permessage_deflate f4 in
    add_if_missing (codes "User-Agent") (codes "websocketclient-cpp") f5

abbrev pub request_line_of : Url → HttpRequestLine
request_line_of url = record {
  method = codes "GET";
  request_target = url.resource;
  http_version = codes "HTTP/1.1";
}

unfoldable pub get_request_message : Handshake → Text × Handshake
unfolding generate_key request_fields print_request
get_request_message h =
    let (key, rnd) = generate_key h.rnd in
    let header : HttpRequestHeader = record {
      request_line = request_line_of h.url;
      fields = request_fields h key;
    } in
    (print_request header, record h { rnd = rnd; request_key = key; request_header = header })

-- The parts between the commas: one more than there are commas
unfoldable pub tokens : Text → List Text
tokens [] = [] ∷ []
tokens (c ∷ s) = if c == b',' then [] ∷ tokens s else onto_first c (tokens s)

abbrev pub any_token : Text → List Text → Bool
unfolding trim
any_token expected [] = false
any_token expected (token ∷ rest) = equals_ci (trim token) expected || any_token expected rest

-- The loop over the fields
unfoldable pub any_field : Text → Text → List (Text × Text) → Bool
unfolding tokens trim
any_field name expected [] = false
any_field name expected ((key, value) ∷ rest) =
    (equals_ci key name && any_token expected (tokens value)) || any_field name expected rest

unfoldable pub header_contains_token : HttpHeaderFields → Text → Text → Bool
unfolding any_field
header_contains_token fields name expected = any_field name expected fields.fields

abbrev pub check : Bool → Expected (Unit {0})
check true = ok tt
check false = err header_error

unfoldable pub validate_upgrade_websocket : HttpHeaderFields → Expected (Unit {0})
unfolding contains_key header_contains_token
validate_upgrade_websocket fields =
    if not (contains_key (codes "Upgrade") fields)
    then err header_error
    else check (header_contains_token fields (codes "Upgrade") (codes "websocket"))

unfoldable pub validate_connection_upgrade : HttpHeaderFields → Expected (Unit {0})
unfolding contains_key header_contains_token
validate_connection_upgrade fields =
    if not (contains_key (codes "Connection") fields)
    then err header_error
    else check (header_contains_token fields (codes "Connection") (codes "Upgrade"))

abbrev pub version_of : Option Text → Expected (Unit {0})
version_of none = ok tt
version_of (some v) = check (equals v (codes "13"))

unfoldable pub validate_sec_web_socket_version : HttpHeaderFields → Expected (Unit {0})
unfolding get_first
validate_sec_web_socket_version fields =
    version_of (get_first (codes "Sec-WebSocket-Version") fields)

abbrev pub is_switching : ℤ → Bool
is_switching (pos n) = n == 101
is_switching other = false

-- The parameters change in place, also where the negotiation fails; the flag does not.
abbrev pub negotiated : Expected Bool × PermessageDeflate → M Handshake (Unit {0})
negotiated (ok b, p) h =
    (ok tt, record h { permessage_deflate = some p; permessage_deflate_negotiated = b })
negotiated (err e, p) h = (err e, record h { permessage_deflate = some p })
negotiated (out_of_fuel, p) h = (out_of_fuel, record h { permessage_deflate = some p })

abbrev pub negotiate_if_wanted :
    Option PermessageDeflate → HttpResponseHeader → M Handshake (Unit {0})
negotiate_if_wanted none response = pure tt
negotiate_if_wanted (some p) response = negotiated (negotiate response p)

abbrev pub set_response_header : HttpResponseHeader → M Handshake (Unit {0})
set_response_header response h = (ok tt, record h { response_header = response })

abbrev pub set_success : M Handshake (Unit {0})
set_success h = (ok tt, record h { success = true })

abbrev pub accept_is : Text → Option Text → Expected (Unit {0})
accept_is expected none = err header_error
accept_is expected (some v) = check (equals v expected)

-- `SHA1::update` and `final_bytes`
module _ (sha1 : Text → List ℕ) where
  unfoldable pub accept_of : Text → Text
  unfolding base64_encode
  accept_of key = base64_encode (sha1 (key ++ codes "258EAFA5-E914-47DA-95CA-C5AB0DC85B11"))

  unfoldable pub validate_sec_web_socket_accept : Text → HttpHeaderFields → Expected (Unit {0})
  unfolding accept_of get_first
  validate_sec_web_socket_accept key fields =
      accept_is (accept_of key) (get_first (codes "Sec-WebSocket-Accept") fields)

  -- The checks of the header, in their order
  unfoldable pub validate : Text → HttpHeaderFields → M Handshake (Unit {0})
  unfolding validate_upgrade_websocket validate_connection_upgrade validate_sec_web_socket_accept
      validate_sec_web_socket_version
  validate key fields = do
    of_result (validate_upgrade_websocket fields)
    of_result (validate_connection_upgrade fields)
    of_result (validate_sec_web_socket_accept key fields)
    of_result (validate_sec_web_socket_version fields)

  unfoldable pub process_fields : HttpStatusLine → HttpHeaderFields → M Handshake (Unit {0})
  unfolding validate negotiate
  process_fields status_line fields h =
      let response : HttpResponseHeader = record { status_line = status_line; fields = fields } in
      (do
        set_response_header response
        validate h.request_key fields
        negotiate_if_wanted h.permessage_deflate response
        set_success)
        h

  unfoldable pub process_response : Text → M Handshake (Unit {0})
  unfolding parse_request_status_line parse_header_fields process_fields
  process_response header_str = do
    parsed ← of_result (parse_request_status_line header_str)
    fail_if (not (is_switching parsed.0.status_code)) header_error
    fields ← of_result (parse_header_fields parsed.1)
    process_fields parsed.0 fields
