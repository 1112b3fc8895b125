-- ===== src/Url.antt =====
-- include/ws_client/URL.hpp: cutting a URL into protocol, host, port and resource, and writing it.
-- Positions are those of the source; `none` stands for `npos`. The texts of errors are left out.
pub mod Parsed
pub mod Hosts
pub mod RoundTrip
pub mod Segments
use mathlib.Core.List
use websocketclient_cpp.Prelude.{
  ℕ, zero, suc, ◌+◌, ◌-◌, ◌*◌, ◌/◌, ◌%◌, ◌^◌, ◌≤◌, ◌<◌, min, max, bit_and, bit_or, bit_xor, ◌≡◌,
  refl, sym, ap, ◌∙◌, subst, ◌≢◌, ◌↔◌, ◌⊎◌, inl, inr, Bool, true, false, not, ◌&&◌, ◌||◌, Option,
  none, some, List, [], ◌∷◌, ◌++◌, map, append-nil, append_assoc, arith, ltb, leb, ◌==◌,
  if◌then◌else◌, ltb→lt, leb→le, ==_iff, Bool-cases, Option-cases, all_below, all_below_sound,
  length, get_elem?, take, drop, replicate, length-append, length-take, length-drop,
  length-replicate, take-append-drop, take-append, drop-append, take_all, drop_all, AreBytes,
  AreBytes-append, AreBytes-take, AreBytes-drop, AreBytes-split, overwrite,
}
use websocketclient_cpp.Text.{
  Text, ℤ, pos, negsuc, codes, tolower, equals, is_nil, index, find_from, find_text, or_size,
  substr, starts_with, from_chars, whole, decimal,
}
use websocketclient_cpp.Errors.{Expected, ok, err, WsError, ws_error, url_error, and_then}
use websocketclient_cpp.Errors.CloseCode

-- The constructor is private to `parse`, which sets no negative port.
pub record Url : Type 0 where
  pub protocol : Text
  pub host : Text
  pub port : ℕ
  pub resource : Text

abbrev pub invalid_url : WsError
invalid_url = ws_error url_error CloseCode.not_set

abbrev pub protocol_port_map : List (Text × ℕ)
protocol_port_map =
    (codes "https", 443)
    ∷ (codes "wss", 443)
    ∷ (codes "http", 80)
    ∷ (codes "ws", 80)
    ∷ (codes "ftp", 21)
    ∷ (codes "ssh", 22)
    ∷ []

abbrev pub lookup_port : Text → List (Text × ℕ) → Expected ℕ
lookup_port protocol [] = err invalid_url
lookup_port protocol ((name, port) ∷ rest) =
    if equals name protocol then ok port else lookup_port protocol rest

unfoldable pub get_default_port : Text → Expected ℕ
get_default_port protocol = lookup_port protocol protocol_port_map

abbrev pub checked_port : Option ℤ → Expected ℕ
checked_port none = err invalid_url
checked_port (some (negsuc n)) = err invalid_url
checked_port (some (pos n)) = if ltb n 1 || ltb 65535 n then err invalid_url else ok n

unfoldable pub parse_port : Text → Expected ℕ
unfolding from_chars
parse_port input = checked_port (whole (from_chars input))

-- `url[i]` is there and passes a test.
abbrev pub passes : (ℕ → Bool) → Option ℕ → Bool
passes p none = false
passes p (some c) = p c

abbrev pub is_at : (ℕ → Bool) → ℕ → Text → Bool
is_at p i url = passes p (get_elem? url i)

-- One of `/?#`
abbrev pub ends_host : ℕ → Bool
ends_host c = c == b'/' || c == b'?' || c == b'#'

-- The text between two positions as a port; the default where it is empty
abbrev pub port_or_default : ℕ → Text → Expected ℕ
port_or_default default_port port_str =
    if is_nil port_str then ok default_port else parse_port port_str

-- What the host part gives: the host, the port, and `host_end_pos`
abbrev pub HostPart : Type 0
HostPart = Text × (ℕ × Option ℕ)

abbrev pub with_port : Text → Option ℕ → Expected ℕ → Expected HostPart
with_port host host_end port = and_then port (λ n. ok (host, (n, host_end)))

-- The branch for an address in brackets, whose closing bracket stands at `ipv6_end`
abbrev pub ipv6_port : ℕ → ℕ → Option ℕ → Text → Expected ℕ
ipv6_port default_port port_start host_end url =
    if is_at (λ c. c == b':') port_start url
    then port_or_default default_port
        (substr (port_start + 1) (or_size url host_end - port_start - 1) url)
    else if is_at (λ c. not (ends_host c)) port_start url
    then err invalid_url
    else ok default_port

unfoldable pub ipv6_host : ℕ → ℕ → Text → Option ℕ → Expected HostPart
unfolding find_from parse_port
ipv6_host default_port offset url none = err invalid_url
ipv6_host default_port offset url (some ipv6_end) =
    let host_end = find_from ends_host (ipv6_end + 1) url in
    with_port (substr (offset + 1) (ipv6_end - offset - 1) url) host_end
      (ipv6_port default_port (ipv6_end + 1) host_end url)

-- The other branch. A colon behind the host does not count.
abbrev pub before : Option ℕ → Option ℕ → Option ℕ
before none host_end = none
before (some colon) none = some colon
before (some colon) (some host_end) = if ltb colon host_end then some colon else none

unfoldable pub named_host : ℕ → ℕ → Text → Option ℕ → Option ℕ → Expected HostPart
unfolding parse_port
named_host default_port offset url host_end none =
    ok (substr offset (or_size url host_end - offset) url, (default_port, host_end))
named_host default_port offset url host_end (some colon) =
    with_port (substr offset (colon - offset) url) host_end
      (port_or_default default_port (substr (colon + 1) (or_size url host_end - colon - 1) url))

unfoldable pub parse_host : ℕ → ℕ → Text → Expected HostPart
unfolding ipv6_host named_host find_from
parse_host default_port offset url =
    if is_at (λ c. c == b'[') offset url
    then ipv6_host default_port offset url (find_from (λ c. c == b']') offset url)
    else let host_end = find_from ends_host offset url in
      named_host default_port offset url host_end
        (before (find_from (λ c. c == b':') offset url) host_end)

-- `if (resource.starts_with('?')) resource.insert(resource.begin(), '/')`
abbrev pub rooted : Text → Text
rooted resource = if starts_with (b'?' ∷ []) resource then b'/' ∷ resource else resource

unfoldable pub resource_of : Text → Option ℕ → Text
unfolding find_from starts_with
resource_of url none = b'/' ∷ []
resource_of url (some host_end) =
    if is_at (λ c. c == b'#') host_end url
    then b'/' ∷ []
    else rooted
        (substr host_end (or_size url (find_from (λ c. c == b'#') host_end url) - host_end) url)

unfoldable pub finish : Text → Text → HostPart → Expected Url
unfolding resource_of
finish protocol url (host, (port, host_end)) =
    if is_nil host
    then err invalid_url
    else ok (record {
      protocol = protocol;
      host = host;
      port = port;
      resource = resource_of url host_end;
    })

unfoldable pub lower : Text → Text
unfolding tolower
lower [] = []
lower (c ∷ s) = tolower c ∷ lower s

unfoldable pub parse_after : Text → Option ℕ → Expected Url
unfolding get_default_port parse_host finish lower
parse_after url none = err invalid_url
parse_after url (some protocol_end) =
    let protocol = lower (substr 0 protocol_end url) in
    and_then (get_default_port protocol) (λ default_port.
      and_then (parse_host default_port (protocol_end + 3) url) (λ part. finish protocol url part))

unfoldable pub parse : Text → Expected Url
unfolding parse_after find_text
parse url = parse_after url (find_text (codes "://") url)

abbrev pub has_colon : Option ℕ → Bool
has_colon none = false
has_colon (some i) = true

unfoldable pub authority : Url → Text
unfolding index decimal
authority url =
    if has_colon (index (λ c. c == b':') url.host)
    then b'[' ∷ url.host ++ (b']' ∷ b':' ∷ decimal url.port)
    else url.host ++ (b':' ∷ decimal url.port)

unfoldable pub to_string : Url → Text
unfolding authority
to_string url = url.protocol ++ (codes "://" ++ (authority url ++ url.resource))
