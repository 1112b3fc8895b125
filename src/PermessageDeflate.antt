-- ===== src/PermessageDeflate.antt =====
-- include/ws_client/PermessageDeflate.hpp: the parameters of RFC 7692, how they are written into the
-- request and what is made of the answer. The lines that only log are left out.
pub mod Negotiated
pub mod Echo
pub mod Context
use mathlib.Core.List
use websocketclient_cpp.Prelude.{
  ℕ, zero, suc, ◌+◌, ◌-◌, ◌*◌, ◌/◌, ◌%◌, ◌^◌, ◌≤◌, ◌<◌, min, max, bit_and, bit_or, bit_xor, ◌≡◌,
  refl, sym, ap, ◌∙◌, subst, ◌≢◌, ◌↔◌, ◌⊎◌, inl, inr, Bool, true, false, not, ◌&&◌, ◌||◌, Option,
  none, some, List, [], ◌∷◌, ◌++◌, map, append-nil, append_assoc, arith, ltb, leb, ◌==◌,
  if◌then◌else◌, ltb→lt, leb→le, ==_iff, Bool-cases, Option-cases, all_below, all_below_sound,
  length, get_elem?, take, drop, replicate, length-append, length-take, length-drop,
  length-replicate, take-append-drop, take-append, drop-append, take_all, drop_all, AreBytes,
  AreBytes-append, AreBytes-take, AreBytes-drop, AreBytes-split, overwrite,
}
use websocketclient_cpp.Text.{
  Text, ℤ, pos, negsuc, codes, equals, isspace, getline, lines, from_chars, whole, decimal,
}
use websocketclient_cpp.Errors.{
  Expected, ok, err, out_of_fuel, WsError, ws_error, protocol_error, and_then,
}
use websocketclient_cpp.Errors.Steps.{M, ◌>>=◌, ◌>>◌, pure, fail, get, put}
use websocketclient_cpp.Errors.CloseCode
use websocketclient_cpp.HttpHeader.{HttpResponseHeader, get_first}

-- A number of window bits that is 0 is not set. `Z_DEFAULT_COMPRESSION` is -1.
pub record PermessageDeflate : Type 0 where
  pub server_max_window_bits : ℕ
  pub client_max_window_bits : ℕ
  pub server_no_context_takeover : Bool
  pub client_no_context_takeover : Bool
  pub decompress_buffer_size : ℕ
  pub compress_buffer_size : ℕ
  pub deflate_memory_level : ℕ
  pub deflate_compression_level : ℤ

abbrev pub default_server_max_window_bits : ℕ
default_server_max_window_bits = 15

abbrev pub default_client_max_window_bits : ℕ
default_client_max_window_bits = 15

abbrev pub default_permessage_deflate : PermessageDeflate
default_permessage_deflate = record {
  server_max_window_bits = default_server_max_window_bits;
  client_max_window_bits = default_client_max_window_bits;
  server_no_context_takeover = false;
  client_no_context_takeover = false;
  decompress_buffer_size = 100 * 1024;
  compress_buffer_size = 100 * 1024;
  deflate_memory_level = 8;
  deflate_compression_level = negsuc 0;
}

-- `std::map<std::string, std::string>`: the newest entry of a key is its value.
abbrev pub Extensions : Type 0
Extensions = List (Text × Text)

abbrev pub find : Text → Extensions → Option Text
find key [] = none
find key ((k, v) ∷ rest) = if equals k key then some v else find key rest

-- `erase(remove_if(…, ::isspace), end)`
abbrev pub keep : Bool → ℕ → Text → Text
keep true c s = s
keep false c s = c ∷ s

unfoldable pub without_spaces : Text → Text
without_spaces [] = []
without_spaces (c ∷ s) = keep (isspace c) c (without_spaces s)

-- `getline(getline(extStream, key, '='), value)` and what is stored, where both succeed and where
-- one does not
abbrev pub stored_value : Text → Text → Option (Text × Text) → Text × Text
stored_value extension key none = (extension, [])
stored_value extension key (some (value, rest)) = (without_spaces key, without_spaces value)

abbrev pub stored : Text → Option (Text × Text) → Text × Text
stored extension none = (extension, [])
stored extension (some (key, rest)) = stored_value extension key (getline 10 rest)

unfoldable pub entry : Text → Text × Text
unfolding getline without_spaces
entry extension = let e = without_spaces extension in stored e (getline b'=' e)

-- The loop of `parse_WebSocketExtensions`
unfoldable pub store_all : Extensions → List Text → Extensions
unfolding entry
store_all extensions [] = extensions
store_all extensions (e ∷ rest) = store_all (entry e ∷ extensions) rest

unfoldable pub parse_web_socket_extensions : Text → Extensions
unfolding store_all lines
parse_web_socket_extensions header = store_all [] (lines b';' header)

abbrev pub bits_error : WsError
bits_error = ws_error protocol_error CloseCode.not_set

abbrev pub checked_bits : Option ℤ → Expected ℕ
checked_bits none = err bits_error
checked_bits (some (negsuc n)) = err bits_error
checked_bits (some (pos n)) = if ltb n 8 || ltb 15 n then err bits_error else ok (n % 256)

unfoldable pub parse_window_bits : Text → Expected ℕ
unfolding from_chars
parse_window_bits bits_string = checked_bits (whole (from_chars bits_string))

abbrev pub is_there : Option Text → Bool
is_there none = false
is_there (some v) = true

unfoldable pub negotiate_server_no_context_takeover :
    Extensions → PermessageDeflate → PermessageDeflate
negotiate_server_no_context_takeover extensions p =
    let found = is_there (find (codes "server_no_context_takeover") extensions) in
    if p.server_no_context_takeover
    then if not found then record p { server_no_context_takeover = false } else p
    else if found
    then record p { server_no_context_takeover = true }
    else p

unfoldable pub negotiate_client_no_context_takeover :
    Extensions → PermessageDeflate → PermessageDeflate
negotiate_client_no_context_takeover extensions p =
    if p.client_no_context_takeover
    then p
    else if is_there (find (codes "client_no_context_takeover") extensions)
    then record p { client_no_context_takeover = true }
    else p

-- A value in the answer to a request for `requested` bits
abbrev pub in_range : ℕ → Expected ℕ
in_range value = if ltb value 8 || ltb 15 value then err bits_error else ok value

abbrev pub at_most : ℕ → ℕ → Expected ℕ
at_most requested value = if ltb requested value then err bits_error else ok value

abbrev pub received_bits : Text → Expected ℕ
received_bits v = and_then (parse_window_bits v) in_range

-- The new number of bits, from the requested number and the parameter in the answer. Where the
-- client requested none, the two sides differ: only the server's is tested again.
abbrev pub requested_bits : ℕ → ℕ → Option Text → Expected ℕ
requested_bits default_bits requested none = ok default_bits
requested_bits default_bits requested (some v) = and_then (received_bits v) (at_most requested)

abbrev pub offered_server_bits : Option Text → Expected ℕ
offered_server_bits none = ok default_server_max_window_bits
offered_server_bits (some v) = received_bits v

abbrev pub offered_client_bits : Option Text → Expected ℕ
offered_client_bits none = ok default_client_max_window_bits
offered_client_bits (some v) = parse_window_bits v

unfoldable pub server_bits : ℕ → Option Text → Expected ℕ
unfolding parse_window_bits
server_bits requested found =
    if ltb 0 requested
    then requested_bits default_server_max_window_bits requested found
    else offered_server_bits found

unfoldable pub client_bits : ℕ → Option Text → Expected ℕ
unfolding parse_window_bits
client_bits requested found =
    if ltb 0 requested
    then requested_bits default_client_max_window_bits requested found
    else offered_client_bits found

abbrev pub set_server_bits : Expected ℕ → M PermessageDeflate (Unit {0})
set_server_bits (ok bits) p = (ok tt, record p { server_max_window_bits = bits })
set_server_bits (err e) p = (err e, p)
set_server_bits out_of_fuel p = (out_of_fuel, p)

abbrev pub set_client_bits : Expected ℕ → M PermessageDeflate (Unit {0})
set_client_bits (ok bits) p = (ok tt, record p { client_max_window_bits = bits })
set_client_bits (err e) p = (err e, p)
set_client_bits out_of_fuel p = (out_of_fuel, p)

unfoldable pub negotiate_server_max_window_bits : Extensions → M PermessageDeflate (Unit {0})
unfolding server_bits
negotiate_server_max_window_bits extensions p =
    set_server_bits
      (server_bits p.server_max_window_bits (find (codes "server_max_window_bits") extensions)) p

unfoldable pub negotiate_client_max_window_bits : Extensions → M PermessageDeflate (Unit {0})
unfolding client_bits
negotiate_client_max_window_bits extensions p =
    set_client_bits
      (client_bits p.client_max_window_bits (find (codes "client_max_window_bits") extensions)) p

-- The four steps, in their order
unfoldable pub negotiate_extensions : Extensions → M PermessageDeflate Bool
unfolding negotiate_server_no_context_takeover negotiate_client_no_context_takeover
    negotiate_server_max_window_bits negotiate_client_max_window_bits
negotiate_extensions extensions p =
    (do
      negotiate_server_max_window_bits extensions
      negotiate_client_max_window_bits extensions
      pure true)
      (negotiate_client_no_context_takeover extensions
        (negotiate_server_no_context_takeover extensions p))

abbrev pub if_offered : Extensions → Option Text → M PermessageDeflate Bool
if_offered extensions none = pure false
if_offered extensions (some v) = negotiate_extensions extensions

abbrev pub negotiate_value : Option Text → M PermessageDeflate Bool
negotiate_value none = pure false
negotiate_value (some h_ext) =
    let extensions = parse_web_socket_extensions h_ext in
    if_offered extensions (find (codes "permessage-deflate") extensions)

unfoldable pub negotiate : HttpResponseHeader → M PermessageDeflate Bool
unfolding parse_web_socket_extensions negotiate_extensions get_first
negotiate response = negotiate_value (get_first (codes "Sec-WebSocket-Extensions") response.fields)

abbrev pub if_set : Bool → Text → Text
if_set true s = s
if_set false s = []

unfoldable pub get_sec_web_socket_extensions_value : PermessageDeflate → Text
unfolding decimal
get_sec_web_socket_extensions_value p =
    codes "permessage-deflate"
    ++ (if_set (ltb 0 p.server_max_window_bits)
          (codes "; server_max_window_bits=" ++ decimal p.server_max_window_bits)
        ++ (if_set (ltb 0 p.client_max_window_bits)
              (codes "; client_max_window_bits=" ++ decimal p.client_max_window_bits)
            ++ (if_set p.server_no_context_takeover (codes "; server_no_context_takeover")
                ++ if_set p.client_no_context_takeover (codes "; client_no_context_takeover"))))
