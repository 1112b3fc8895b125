-- ===== src/PermessageDeflate/Negotiated.antt =====
-- What holds of the parameters after a negotiation that succeeded.
use websocketclient_cpp.Prelude.{ℕ, ◌≤◌, min, ◌≡◌, ◌||◌, Option, none, some, [], ltb, if◌then◌else◌}
use websocketclient_cpp.Text.{Text, codes}
use websocketclient_cpp.Errors.{ok}
use websocketclient_cpp.HttpHeader.{HttpResponseHeader, get_first}
use websocketclient_cpp.PermessageDeflate.{
  PermessageDeflate, Extensions, find, is_there, parse_web_socket_extensions, parse_window_bits,
}

-- The largest number of bits that the answer may set: what was requested, and 15 in any case
abbrev pub limit : ℕ → ℕ
limit requested = if ltb 0 requested then min requested 15 else 15

-- The number of bits after the negotiation: the default where the answer names none, else the number
-- that it names, which is in range
abbrev pub IsWithin : ℕ → Option Text → ℕ → Type 0
IsWithin requested none bits = bits ≡ 15
IsWithin requested (some v) bits =
    (8 ≤ bits) × (bits ≤ limit requested) × (parse_window_bits v ≡ ok bits)

-- The parameters that the answer holds, none where it has no such header
abbrev pub parameters : Option Text → Extensions
parameters none = []
parameters (some v) = parse_web_socket_extensions v

abbrev pub answer : HttpResponseHeader → Extensions
answer response = parameters (get_first (codes "Sec-WebSocket-Extensions") response.fields)

abbrev pub Negotiated : Extensions → PermessageDeflate → PermessageDeflate → Type 0
Negotiated e p q =
    IsWithin p.server_max_window_bits (find (codes "server_max_window_bits") e)
      q.server_max_window_bits
    × IsWithin p.client_max_window_bits (find (codes "client_max_window_bits") e)
        q.client_max_window_bits
    × (q.server_no_context_takeover ≡ is_there (find (codes "server_no_context_takeover") e))
    × (q.client_no_context_takeover
        ≡ (p.client_no_context_takeover || is_there (find (codes "client_no_context_takeover") e)))
