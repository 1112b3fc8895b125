-- ===== src/Handshake/Request.antt =====
-- What the request says.
use websocketclient_cpp.Prelude.{
  ℕ, zero, suc, ◌/◌, ◌^◌, ◌<◌, ◌≡◌, refl, ap, ◌∙◌, true, false, Option, none, some, List, [], ◌∷◌,
  ◌++◌, arith, if◌then◌else◌, replicate, AreBytes, AreBytes-append,
}
use websocketclient_cpp.Text.{Text, codes, tolower, equals_ci, equals_ci_char}
use websocketclient_cpp.Networking.{store}
use websocketclient_cpp.Base64.Decoding.{base64_decode}
use websocketclient_cpp.Base64.RoundTrip.{base64_decode-encode}
use websocketclient_cpp.Random.{Xoshiro128p, next}
use websocketclient_cpp.HttpHeader.{HttpHeaderFields, get, set, add_if_missing}
use websocketclient_cpp.HttpHeader.Laws.{get-set, get-add_if_missing, no_values}
use websocketclient_cpp.PermessageDeflate.{PermessageDeflate, get_sec_web_socket_extensions_value}
use websocketclient_cpp.Url.{authority}
use websocketclient_cpp.Handshake.{
  Handshake, generate_key, set_extensions, request_fields, get_request_message,
}

-- The values that the user set, or the library's own
abbrev pub or_default : List Text → Text → List Text
or_default vs v = if no_values vs then v ∷ [] else vs

get-set_extensions :
    (j : Text) (o : Option PermessageDeflate) (f : HttpHeaderFields)
    → equals_ci (codes "Sec-WebSocket-Extensions") j ≡ false
    → get j (set_extensions o f) ≡ get j f
get-set_extensions j none f h = refl
get-set_extensions j (some p) f h = ground (
  arith,
  h,
  get-set j (codes "Sec-WebSocket-Extensions") (get_sec_web_socket_extensions_value p) f,
)

-- A default for another key does not matter, and one for this key does.
get-other :
    (j key value : Text) (f : HttpHeaderFields)
    → equals_ci key j ≡ false
    → get j (add_if_missing key value f) ≡ get j f
get-other j key value f h = ground (arith, h, get-add_if_missing j key value f)

get-own :
    (j value : Text) (f : HttpHeaderFields)
    → equals_ci j j ≡ true
    → get j (add_if_missing j value f) ≡ or_default (get j f) value
get-own j value f h = ground (arith, h, get-add_if_missing j j value f)

module _ (h : Handshake) (key : Text) where
  abbrev f0 : HttpHeaderFields
  f0 = add_if_missing (codes "Host") (authority h.url) h.request_header.fields

  abbrev f1 : HttpHeaderFields
  f1 = add_if_missing (codes "Upgrade") (codes "websocket") f0

  abbrev f2 : HttpHeaderFields
  f2 = add_if_missing (codes "Connection") (codes "Upgrade") f1

  abbrev f3 : HttpHeaderFields
  f3 = add_if_missing (codes "Sec-WebSocket-Version") (codes "13") f2

  abbrev f4 : HttpHeaderFields
  f4 = set (codes "Sec-WebSocket-Key") key f3

  -- The last two steps leave other keys alone.
  last_steps :
      (j : Text)
      → equals_ci (codes "Sec-WebSocket-Extensions") j ≡ false
      → equals_ci (codes "User-Agent") j ≡ false
      → get j (request_fields h key) ≡ get j f4
  unfolding request_fields
  last_steps j e f =
      get-other j (codes "User-Agent") (codes "websocketclient-cpp")
        (set_extensions h.permessage_deflate f4) f
      ∙ get-set_extensions j h.permessage_deflate f4 e

  last_five :
      (j : Text)
      → equals_ci (codes "Sec-WebSocket-Extensions") j ≡ false
      → equals_ci (codes "User-Agent") j ≡ false
      → equals_ci (codes "Sec-WebSocket-Key") j ≡ false
      → equals_ci (codes "Sec-WebSocket-Version") j ≡ false
      → get j (request_fields h key) ≡ get j f2
  last_five j e f g i =
      last_steps j e f
      ∙ ground (arith, g, get-set j (codes "Sec-WebSocket-Key") key f3)
      ∙ get-other j (codes "Sec-WebSocket-Version") (codes "13") f2 i

  abbrev own : Text → List Text
  own j = get j h.request_header.fields

  request_fields_lem :
      (get (codes "Sec-WebSocket-Key") (request_fields h key) ≡ key ∷ [])
      × (get (codes "Host") (request_fields h key)
          ≡ or_default (own (codes "Host")) (authority h.url))
      × (get (codes "Upgrade") (request_fields h key)
          ≡ or_default (own (codes "Upgrade")) (codes "websocket"))
      × (get (codes "Connection") (request_fields h key)
          ≡ or_default (own (codes "Connection")) (codes "Upgrade"))
      × (get (codes "Sec-WebSocket-Version") (request_fields h key)
          ≡ or_default (own (codes "Sec-WebSocket-Version")) (codes "13"))
  unfolding equals_ci equals_ci_char tolower
  request_fields_lem = (
    last_steps (codes "Sec-WebSocket-Key") refl refl
        ∙ get-set (codes "Sec-WebSocket-Key") (codes "Sec-WebSocket-Key") key f3,
    last_five (codes "Host") refl refl refl refl
        ∙ get-other (codes "Host") (codes "Connection") (codes "Upgrade") f1 refl
        ∙ get-other (codes "Host") (codes "Upgrade") (codes "websocket") f0 refl
        ∙ get-own (codes "Host") (authority h.url) h.request_header.fields refl,
    last_five (codes "Upgrade") refl refl refl refl
        ∙ get-other (codes "Upgrade") (codes "Connection") (codes "Upgrade") f1 refl
        ∙ get-own (codes "Upgrade") (codes "websocket") f0 refl
        ∙ ap (λ vs. or_default vs (codes "websocket"))
            (get-other (codes "Upgrade") (codes "Host") (authority h.url) h.request_header.fields
              refl),
    last_five (codes "Connection") refl refl refl refl
        ∙ get-own (codes "Connection") (codes "Upgrade") f1 refl
        ∙ ap (λ vs. or_default vs (codes "Upgrade"))
            (get-other (codes "Connection") (codes "Upgrade") (codes "websocket") f0 refl
              ∙ get-other (codes "Connection") (codes "Host") (authority h.url)
                  h.request_header.fields refl),
    last_steps (codes "Sec-WebSocket-Version") refl refl
        ∙ get-set (codes "Sec-WebSocket-Version") (codes "Sec-WebSocket-Key") key f3
        ∙ get-own (codes "Sec-WebSocket-Version") (codes "13") f2 refl
        ∙ ap (λ vs. or_default vs (codes "13"))
            (get-other (codes "Sec-WebSocket-Version") (codes "Connection") (codes "Upgrade") f1
                refl
              ∙ get-other (codes "Sec-WebSocket-Version") (codes "Upgrade") (codes "websocket") f0
                  refl
              ∙ get-other (codes "Sec-WebSocket-Version") (codes "Host") (authority h.url)
                  h.request_header.fields refl),
  )

-- The header of the request, whatever the user has put into it before: the key is the one drawn for
-- this handshake, as the only value; Host, Upgrade, Connection and Sec-WebSocket-Version are what the
-- user set, and else the authority of the URL, `websocket`, `Upgrade` and `13`.
pub get_request_message_lem :
    (h : Handshake)
    → let h' = (get_request_message h).1 in
      let now = λ (j : Text). get j h'.request_header.fields in
      let before = λ (j : Text). get j h.request_header.fields in
      (now (codes "Sec-WebSocket-Key") ≡ h'.request_key ∷ [])
      × (now (codes "Host") ≡ or_default (before (codes "Host")) (authority h.url))
      × (now (codes "Upgrade") ≡ or_default (before (codes "Upgrade")) (codes "websocket"))
      × (now (codes "Connection") ≡ or_default (before (codes "Connection")) (codes "Upgrade"))
      × (now (codes "Sec-WebSocket-Version")
          ≡ or_default (before (codes "Sec-WebSocket-Version")) (codes "13"))
unfolding get_request_message
get_request_message_lem h = request_fields_lem h (generate_key h.rnd).0

-- A word of 32 bits, widened
store_half : (v : ℕ) → v < 2 ^ 32 → store 8 v ≡ store 4 v ++ replicate 4 0
store_half v h =
    let e : v / 256 / 256 / 256 / 256 ≡ 0 = omega arith in ap (λ w. store 4 v ++ store 4 w) e

store-AreBytes : (n v : ℕ) → AreBytes (store n v)
store-AreBytes zero v = tt
store-AreBytes (suc n) v = (omega arith, store-AreBytes n (v / 256))

next-lt : (rnd : Xoshiro128p) → (next rnd).0 < 2 ^ 32
unfolding next
next-lt rnd = omega arith

-- Bytes 4 to 7 and 12 to 15 of the key are zero, from any state of the generator: each half of the
-- key is one result of 32 bits, widened.
pub generate_key-half_zero :
    (rnd : Xoshiro128p)
    → base64_decode (generate_key rnd).0
      ≡ some (
          (store 4 (next rnd).0 ++ replicate 4 0)
          ++ (store 4 (next (next rnd).1).0 ++ replicate 4 0))
unfolding generate_key
generate_key-half_zero rnd =
    let a : ℕ = (next rnd).0 in
    let b : ℕ = (next (next rnd).1).0 in
    base64_decode-encode (store 8 a ++ store 8 b)
      (AreBytes-append (store 8 a) (store 8 b) (store-AreBytes 8 a) (store-AreBytes 8 b))
    ∙ ap (λ x. some (x ++ store 8 b)) (store_half a (next-lt rnd))
    ∙ ap (λ y. some ((store 4 a ++ replicate 4 0) ++ y)) (store_half b (next-lt (next rnd).1))
