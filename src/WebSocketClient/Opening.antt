-- ===== src/WebSocketClient/Opening.antt =====
-- `WebSocketClient::handshake`: the request on the wire, the answer from it, and the client opened.
pub mod Opened
use websocketclient_cpp.Prelude.{
  ℕ, zero, suc, ◌+◌, ◌-◌, ◌*◌, ◌/◌, ◌%◌, ◌^◌, ◌≤◌, ◌<◌, min, max, bit_and, bit_or, bit_xor, ◌≡◌,
  refl, sym, ap, ◌∙◌, subst, ◌≢◌, ◌↔◌, ◌⊎◌, inl, inr, Bool, true, false, not, ◌&&◌, ◌||◌, Option,
  none, some, List, [], ◌∷◌, ◌++◌, map, append-nil, append_assoc, arith, ltb, leb, ◌==◌,
  if◌then◌else◌, ltb→lt, leb→le, ==_iff, Bool-cases, Option-cases, all_below, all_below_sound,
  length, get_elem?, take, drop, replicate, length-append, length-take, length-drop,
  length-replicate, take-append-drop, take-append, drop-append, take_all, drop_all, AreBytes,
  AreBytes-append, AreBytes-take, AreBytes-drop, AreBytes-split, overwrite, get_elem?-append,
  get_elem?-take, get_elem?-drop, get_elem?_ext, get_elem?-none, length-overwrite,
  get_elem?-overwrite,
}
use websocketclient_cpp.Text.{Text, codes}
use websocketclient_cpp.Errors.{Expected, ok, err, out_of_fuel, ws_error, logic_error}
use websocketclient_cpp.Errors.CloseCode
use websocketclient_cpp.Errors.Steps.{M, ◌>>=◌, ◌>>◌, pure, fail_if, get}
use websocketclient_cpp.Buffer
use websocketclient_cpp.Buffer.{Buffer, data_of}
use websocketclient_cpp.BufferedSocket.{BufferedSocket, write, read_exact}
use websocketclient_cpp.BufferedSocket.Until.{read_until}
use websocketclient_cpp.PermessageDeflate.{PermessageDeflate}
use websocketclient_cpp.Handshake.{Handshake, get_request_message, process_response}
use websocketclient_cpp.WebSocketClient.{Platform, Client, on_socket, start_timeout}

module _ (p : Platform) where
  abbrev pub Opening : Type 0
  Opening = Client p × Handshake

  abbrev pub on_client : {A : Type 0} → M (Client p) A → M Opening A
  on_client m (c, h) = let (r, c') = m c in (r, (c', h))

  abbrev pub on_handshake : {A : Type 0} → M Handshake A → M Opening A
  on_handshake m (c, h) = let (r, h') = m h in (r, (c, h'))

  -- What `read_until` left
  abbrev pub text_of : Expected (Unit {0}) → Client p → Buffer → Expected Text × Client p
  text_of (ok u) c b = (ok (data_of b), c)
  text_of (err e) c b = (err e, c)
  text_of out_of_fuel c b = (out_of_fuel, c)

  -- `Buffer::create(1024, 1024 * 1024)`, `read_until`, and the bytes read
  unfoldable pub read_header : Expected (Unit {0}) × Buffer → M (Client p) Text
  unfolding data_of read_until
  read_header (ok u, b) c =
      let (r, state) = read_until p.transport p.allocator (13 ∷ 10 ∷ 13 ∷ 10 ∷ []) (c.socket, b) in
      text_of r (record c { socket = state.0 }) state.1
  read_header (err e, b) c = (err e, c)
  read_header (out_of_fuel, b) c = (out_of_fuel, c)

  abbrev pub emplace : Expected (Unit {0}) × p.compression.Context → M (Client p) (Unit {0})
  emplace (r, ctx) c = (r, record c { permessage_deflate_ctx = some ctx })

  abbrev pub mark_open : M (Client p) (Unit {0})
  mark_open c = (ok tt, record c { closed = false })

  unfoldable pub send_request : ℕ → M Opening (Unit {0})
  unfolding get_request_message
  send_request timeout_ms (c, h) =
      let (message, h') = get_request_message h in
      (do
        on_client (start_timeout p timeout_ms)
        on_client (on_socket p (write p.transport message)))
        (c, h')

-- SHA-1, and `permessage_deflate_ctx_.emplace(…)` with the `init` of the context: the context is
-- there also where `init` fails.
module _ (p : Platform) (sha1 : Text → List ℕ)
    (init : PermessageDeflate → Expected (Unit {0}) × p.compression.Context) where
  -- A flag that is set comes with parameters: `get_permessage_deflate()` would throw else.
  abbrev pub start_compression : Bool → Option PermessageDeflate → M (Client p) (Unit {0})
  start_compression false o = pure tt
  start_compression true none = pure tt
  start_compression true (some d) = emplace p (init d)

  -- What follows the request: the answer and its checks
  unfoldable pub receive_answer : M (Opening p) (Unit {0})
  unfolding read_header process_response
  receive_answer = do
    text ← on_client p (read_header p (Buffer.create p.allocator 1024 (1024 * 1024)))
    on_client p (on_socket p (read_exact p.transport 4))
    on_handshake p (process_response sha1 text)
    state ← get
    on_client p (start_compression state.1.permessage_deflate_negotiated state.1.permessage_deflate)
    on_client p (mark_open p)

  unfoldable pub handshake : ℕ → M (Opening p) (Unit {0})
  unfolding send_request receive_answer
  handshake timeout_ms (c, h) =
      (do
        fail_if (not c.closed) (ws_error logic_error CloseCode.not_set)
        send_request p timeout_ms
        receive_answer)
        (c, h)
