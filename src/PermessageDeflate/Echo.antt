-- ===== src/PermessageDeflate/Echo.antt =====
-- A server that answers with the parameters that were requested.
use websocketclient_cpp.Prelude.{
  ℕ, ◌+◌, ◌-◌, ◌*◌, ◌/◌, ◌%◌, ◌≤◌, ◌≡◌, refl, ap, ◌∙◌, subst, inl, inr, Bool, true, false, not,
  ◌&&◌, Option, none, some, arith, ◌==◌, Bool-cases, all_below, all_below_sound,
}
use websocketclient_cpp.Text.{
  Text, codes, equals, isspace, getline, upto, lines, scan, from_chars, decimal, decimal_onto,
}
use websocketclient_cpp.Errors.{Expected, ok, err, out_of_fuel}
use websocketclient_cpp.Errors.Steps.{M, ◌>>=◌, pure, bind_ok}
use websocketclient_cpp.HttpHeader.{HttpResponseHeader, get_first}
use websocketclient_cpp.PermessageDeflate.{
  PermessageDeflate, Extensions, default_permessage_deflate, find, is_there,
  parse_web_socket_extensions, server_bits, client_bits, get_sec_web_socket_extensions_value,
  negotiate, negotiate_value, negotiate_extensions, without_spaces, entry, store_all,
  parse_window_bits, negotiate_server_max_window_bits, negotiate_client_max_window_bits,
  negotiate_server_no_context_takeover, negotiate_client_no_context_takeover, set_server_bits,
  set_client_bits, if_offered,
}

abbrev with_parameters : ℕ → ℕ → Bool → Bool → PermessageDeflate
with_parameters s c a b = record default_permessage_deflate {
  server_max_window_bits = s;
  client_max_window_bits = c;
  server_no_context_takeover = a;
  client_no_context_takeover = b;
}

abbrev request : ℕ → ℕ → Bool → Bool → Text
unfolding get_sec_web_socket_extensions_value
request s c a b = get_sec_web_socket_extensions_value (with_parameters s c a b)

abbrev same : Bool → Bool → Bool
same true b = b
same false b = not b

abbrev gives : Expected ℕ → ℕ → Bool
gives (ok m) n = m == n
gives (err e) n = false
gives out_of_fuel n = false

-- The answer reads as the four parameters of the request.
abbrev reads_as : Extensions → ℕ → ℕ → Bool → Bool → Bool
unfolding server_bits client_bits
reads_as e s c a b =
    gives (server_bits s (find (codes "server_max_window_bits") e)) s
    && (gives (client_bits c (find (codes "client_max_window_bits") e)) c
        && (same (is_there (find (codes "server_no_context_takeover") e)) a
            && (same (is_there (find (codes "client_no_context_takeover") e)) b
                && is_there (find (codes "permessage-deflate") e))))

abbrev good : Bool → Bool → ℕ → Bool
unfolding request reads_as parse_web_socket_extensions
good a b i =
    reads_as (parse_web_socket_extensions (request (8 + i / 8) (8 + i % 8) a b)) (8 + i / 8)
      (8 + i % 8) a b

-- All values of the parameters
table : (a b : Bool) → all_below 64 (good a b) ≡ true
unfolding good request get_sec_web_socket_extensions_value decimal decimal_onto
    parse_web_socket_extensions store_all entry without_spaces isspace getline upto lines reads_as
    server_bits client_bits parse_window_bits from_chars scan equals
table true true = refl
table true false = refl
table false true = refl
table false false = refl

reads_request :
    (s c : ℕ) (a b : Bool)
    → 8 ≤ s
    → s ≤ 15
    → 8 ≤ c
    → c ≤ 15
    → reads_as (parse_web_socket_extensions (request s c a b)) s c a b ≡ true
unfolding good
reads_request s c a b h i j k =
    let n : ℕ = (s - 8) * 8 + (c - 8) in
    let e : 8 + n / 8 ≡ s = omega arith in
    let f : 8 + n % 8 ≡ c = omega arith in
    subst (λ s'. reads_as (parse_web_socket_extensions (request s' c a b)) s' c a b ≡ true) e
      (subst
        (λ c'.
          reads_as (parse_web_socket_extensions (request (8 + n / 8) c' a b)) (8 + n / 8) c' a b
          ≡ true)
        f (all_below_sound 64 (good a b) n (table a b) (omega arith)))

gives_ok : (r : Expected ℕ) (n : ℕ) → gives r n ≡ true → r ≡ ok n
gives_ok (ok m) n h = ground (arith, h)
gives_ok (err e) n h = absurd (ground (arith, h))
gives_ok out_of_fuel n h = absurd (ground (arith, h))

same_eq : (x y : Bool) → same x y ≡ true → x ≡ y
same_eq true true h = refl
same_eq true false h = absurd (ground (arith, h))
same_eq false true h = absurd (ground (arith, h))
same_eq false false h = refl

&&-true : (x y : Bool) → (x && y) ≡ true → (x ≡ true) × (y ≡ true)
&&-true true y h = (refl, h)
&&-true false y h = absurd (ground (arith, h))

parts :
    (r q : Expected ℕ) (s c : ℕ) (x y a b z : Bool)
    → (gives r s && (gives q c && (same x a && (same y b && z)))) ≡ true
    → (r ≡ ok s) × (q ≡ ok c) × (x ≡ a) × (y ≡ b) × (z ≡ true)
parts r q s c x y a b z h =
    let (h1, k1) = &&-true (gives r s) (gives q c && (same x a && (same y b && z))) h in
    let (h2, k2) = &&-true (gives q c) (same x a && (same y b && z)) k1 in
    let (h3, k3) = &&-true (same x a) (same y b && z) k2 in
    let (h4, k4) = &&-true (same y b) z k3 in
    (gives_ok r s h1, gives_ok q c h2, same_eq x a h3, same_eq y b h4, k4)

Agrees : Extensions → PermessageDeflate → Type 0
unfolding server_bits client_bits
Agrees e p =
    (server_bits p.server_max_window_bits (find (codes "server_max_window_bits") e)
      ≡ ok p.server_max_window_bits)
    × (client_bits p.client_max_window_bits (find (codes "client_max_window_bits") e)
        ≡ ok p.client_max_window_bits)
    × (is_there (find (codes "server_no_context_takeover") e) ≡ p.server_no_context_takeover)
    × (is_there (find (codes "client_no_context_takeover") e) ≡ p.client_no_context_takeover)
    × (is_there (find (codes "permessage-deflate") e) ≡ true)

server_flag_same :
    (e : Extensions) (p : PermessageDeflate)
    → is_there (find (codes "server_no_context_takeover") e) ≡ p.server_no_context_takeover
    → negotiate_server_no_context_takeover e p ≡ p
unfolding negotiate_server_no_context_takeover
server_flag_same e p h = elim (Bool-cases p.server_no_context_takeover) [
  | inl f ↦ ground (arith, f, h)
  | inr f ↦ ground (arith, f, h)
]

client_flag_same :
    (e : Extensions) (p : PermessageDeflate)
    → is_there (find (codes "client_no_context_takeover") e) ≡ p.client_no_context_takeover
    → negotiate_client_no_context_takeover e p ≡ p
unfolding negotiate_client_no_context_takeover
client_flag_same e p h = elim (Bool-cases p.client_no_context_takeover) [
  | inl f ↦ ground (arith, f, h)
  | inr f ↦ ground (arith, f, h)
]

-- The steps leave parameters alone that the answer agrees with.
negotiate_same :
    (e : Extensions) (p : PermessageDeflate) → Agrees e p → negotiate_extensions e p ≡ (ok true, p)
unfolding Agrees negotiate_extensions negotiate_server_max_window_bits
    negotiate_client_max_window_bits
negotiate_same e p (s, c, a, b, _) =
    let steps : M PermessageDeflate Bool = negotiate_server_max_window_bits e >>= λ _.
    negotiate_client_max_window_bits e >>= λ _. pure true in
    ap (λ q. steps (negotiate_client_no_context_takeover e q)) (server_flag_same e p a)
    ∙ ap steps (client_flag_same e p b)
    ∙ bind_ok (negotiate_server_max_window_bits e)
        (λ _. negotiate_client_max_window_bits e >>= λ _. pure true)
        (ap (λ r. set_server_bits r p) s)
    ∙ bind_ok (negotiate_client_max_window_bits e) (λ _. pure true)
        (ap (λ r. set_client_bits r p) c)

request-Agrees :
    (p : PermessageDeflate)
    → 8 ≤ p.server_max_window_bits
    → p.server_max_window_bits ≤ 15
    → 8 ≤ p.client_max_window_bits
    → p.client_max_window_bits ≤ 15
    → Agrees (parse_web_socket_extensions (get_sec_web_socket_extensions_value p)) p
unfolding Agrees reads_as request get_sec_web_socket_extensions_value
request-Agrees p h i j k =
    let s = p.server_max_window_bits in
    let c = p.client_max_window_bits in
    let a = p.server_no_context_takeover in
    let b = p.client_no_context_takeover in
    let e : Extensions = parse_web_socket_extensions (request s c a b) in
    parts (server_bits s (find (codes "server_max_window_bits") e))
      (client_bits c (find (codes "client_max_window_bits") e)) s c
      (is_there (find (codes "server_no_context_takeover") e))
      (is_there (find (codes "client_no_context_takeover") e)) a b
      (is_there (find (codes "permessage-deflate") e)) (reads_request s c a b h i j k)

-- A server that answers with the value that the client sent leaves all parameters as they are, if
-- both window sizes were requested with 8 to 15 bits.
pub negotiate_echo :
    (response : HttpResponseHeader) (p : PermessageDeflate)
    → 8 ≤ p.server_max_window_bits
    → p.server_max_window_bits ≤ 15
    → 8 ≤ p.client_max_window_bits
    → p.client_max_window_bits ≤ 15
    → get_first (codes "Sec-WebSocket-Extensions") response.fields
      ≡ some (get_sec_web_socket_extensions_value p)
    → negotiate response p ≡ (ok true, p)
unfolding negotiate Agrees
negotiate_echo response p h i j k e =
    let v : Text = get_sec_web_socket_extensions_value p in
    let agrees = request-Agrees p h i j k in
    ap (λ o. negotiate_value o p) e
    ∙ offered (parse_web_socket_extensions v)
        (find (codes "permessage-deflate") (parse_web_socket_extensions v)) agrees.4
    ∙ negotiate_same (parse_web_socket_extensions v) p agrees
  where
    offered :
        (x : Extensions) (o : Option Text)
        → is_there o ≡ true
        → if_offered x o p ≡ negotiate_extensions x p
    offered x none h = absurd (ground (arith, h))
    offered x (some w) h = refl
