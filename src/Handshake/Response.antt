-- ===== src/Handshake/Response.antt =====
-- What an accepted answer is, and that it is accepted.
use websocketclient_cpp.Prelude.{
  ℕ, ◌≡◌, refl, sym, ap, ◌∙◌, subst, ◌⊎◌, inl, inr, Bool, true, false, not, Option, none, some,
  List, arith, Bool-cases, ==_iff, ◌++◌,
}
use websocketclient_cpp.Text.{Text, ℤ, pos, negsuc, codes, equals}
use websocketclient_cpp.Base64.{base64_encode}
use websocketclient_cpp.Handshake.Tokens.{HasToken, header_contains_token-HasToken}
use websocketclient_cpp.HttpHeader.Keys.{equals_sound}
use websocketclient_cpp.Errors.{Expected, ok, err, out_of_fuel}
use websocketclient_cpp.Errors.Steps.{◌>>◌, after_inv, fail_if, of_result}
use websocketclient_cpp.HttpHeader.{
  HttpHeaderFields, HttpStatusLine, HttpResponseHeader, contains_key, get_first,
}
use websocketclient_cpp.HttpParser.{header_error, parse_request_status_line, parse_header_fields}
use websocketclient_cpp.PermessageDeflate.{PermessageDeflate, negotiate}
use websocketclient_cpp.Handshake.{
  Handshake, header_contains_token, check, validate_upgrade_websocket, validate_connection_upgrade,
  validate_sec_web_socket_version, validate_sec_web_socket_accept, version_of, accept_is, accept_of,
  is_switching, validate, negotiated, negotiate_if_wanted, process_fields, process_response,
}

check_ok : (b : Bool) → check b ≡ ok tt → b ≡ true
check_ok true h = refl
check_ok false h = absurd (ground (arith, h))

-- What the checks ask of the header fields
pub record Validates (accept : Text) (fields : HttpHeaderFields) : Type 0 where
  pub upgrade : header_contains_token fields (codes "Upgrade") (codes "websocket") ≡ true
  pub connection : header_contains_token fields (codes "Connection") (codes "Upgrade") ≡ true
  pub accepts : get_first (codes "Sec-WebSocket-Accept") fields ≡ some accept
  pub version :
      (get_first (codes "Sec-WebSocket-Version") fields ≡ none)
      ⊎ (get_first (codes "Sec-WebSocket-Version") fields ≡ some (codes "13"))

validate_upgrade_ok :
    (fields : HttpHeaderFields)
    → validate_upgrade_websocket fields ≡ ok tt
    → header_contains_token fields (codes "Upgrade") (codes "websocket") ≡ true
unfolding validate_upgrade_websocket
validate_upgrade_ok fields h = elim (Bool-cases (contains_key (codes "Upgrade") fields)) [
  | inl e ↦
      check_ok (header_contains_token fields (codes "Upgrade") (codes "websocket"))
        (ground (arith, e, h))
  | inr e ↦ absurd (ground (arith, e, h))
]

validate_connection_ok :
    (fields : HttpHeaderFields)
    → validate_connection_upgrade fields ≡ ok tt
    → header_contains_token fields (codes "Connection") (codes "Upgrade") ≡ true
unfolding validate_connection_upgrade
validate_connection_ok fields h = elim (Bool-cases (contains_key (codes "Connection") fields)) [
  | inl e ↦
      check_ok (header_contains_token fields (codes "Connection") (codes "Upgrade"))
        (ground (arith, e, h))
  | inr e ↦ absurd (ground (arith, e, h))
]

version_ok : (o : Option Text) → version_of o ≡ ok tt → (o ≡ none) ⊎ (o ≡ some (codes "13"))
version_ok none h = inl refl
version_ok (some v) h =
    inr (ap some (equals_sound v (codes "13") (check_ok (equals v (codes "13")) h)))

-- Four checks in a row that all pass
four_ok :
    (r1 r2 r3 r4 : Expected (Unit {0})) (h h' : Handshake)
    → (of_result r1 >> (of_result r2 >> (of_result r3 >> of_result r4))) h ≡ (ok tt, h')
    → (r1 ≡ ok tt) × (r2 ≡ ok tt) × (r3 ≡ ok tt) × (r4 ≡ ok tt) × (h ≡ h')
four_ok (ok a) (ok b) (ok c) (ok d) h h' e = (refl, refl, refl, refl, ap (λ p. p.1) e)
four_ok (ok a) (ok b) (ok c) (err x) h h' e = absurd (ground (arith, e))
four_ok (ok a) (ok b) (ok c) out_of_fuel h h' e = absurd (ground (arith, e))
four_ok (ok a) (ok b) (err x) r4 h h' e = absurd (ground (arith, e))
four_ok (ok a) (ok b) out_of_fuel r4 h h' e = absurd (ground (arith, e))
four_ok (ok a) (err x) r3 r4 h h' e = absurd (ground (arith, e))
four_ok (ok a) out_of_fuel r3 r4 h h' e = absurd (ground (arith, e))
four_ok (err x) r2 r3 r4 h h' e = absurd (ground (arith, e))
four_ok out_of_fuel r2 r3 r4 h h' e = absurd (ground (arith, e))

accept_ok : (expected : Text) (o : Option Text) → accept_is expected o ≡ ok tt → o ≡ some expected
accept_ok expected none h = absurd (ground (arith, h))
accept_ok expected (some v) h = ap some (equals_sound v expected (check_ok (equals v expected) h))

-- What the negotiation left, where the client wanted compression: the parameters that `negotiate`
-- returned, and its result as the flag. Where it did not, nothing changed.
abbrev pub Compresses :
    Option PermessageDeflate → HttpResponseHeader → Handshake → Handshake → Type 0
Compresses none response h h' =
    (h'.permessage_deflate ≡ none)
    × (h'.permessage_deflate_negotiated ≡ h.permessage_deflate_negotiated)
Compresses (some p) response h h' =
    (q : PermessageDeflate) × (h'.permessage_deflate ≡ some q)
    × (negotiate response p ≡ (ok h'.permessage_deflate_negotiated, q))

negotiated_ok :
    (r : Expected Bool × PermessageDeflate) (h h' : Handshake)
    → negotiated r h ≡ (ok tt, h')
    → (q : PermessageDeflate) × (r ≡ (ok h'.permessage_deflate_negotiated, q))
      × (record h {
        permessage_deflate = some q;
        permessage_deflate_negotiated = h'.permessage_deflate_negotiated;
      }
          ≡ h')
negotiated_ok (ok b, p) h h' e =
    let f : record h { permessage_deflate = some p; permessage_deflate_negotiated = b } ≡ h' =
      ap (λ p. p.1) e in
    let g : b ≡ h'.permessage_deflate_negotiated = ap (λ x. x.permessage_deflate_negotiated) f in
    (
      p,
      ap (λ x. (ok x, p)) g,
      subst (λ x. record h { permessage_deflate = some p; permessage_deflate_negotiated = x } ≡ h')
          g f,
    )
negotiated_ok (err x, p) h h' e = absurd (ground (arith, e))
negotiated_ok (out_of_fuel, p) h h' e = absurd (ground (arith, e))

wanted_ok :
    (o : Option PermessageDeflate) (response : HttpResponseHeader) (h h' : Handshake)
    → o ≡ h.permessage_deflate
    → negotiate_if_wanted o response h ≡ (ok tt, h')
    → Compresses o response h h' × (h'.response_header ≡ h.response_header)
wanted_ok none response h h' f e =
    let g : h ≡ h' = ap (λ p. p.1) e in
    (
      (
        sym (ap (λ x. x.permessage_deflate) g) ∙ sym f,
        sym (ap (λ x. x.permessage_deflate_negotiated) g),
      ),
      sym (ap (λ x. x.response_header) g),
    )
wanted_ok (some p) response h h' f e =
    let (q, g, k) = negotiated_ok (negotiate response p) h h' e in
    ((q, sym (ap (λ x. x.permessage_deflate) k), g), sym (ap (λ x. x.response_header) k))

-- Only the flag counts of the state before, and success is another field of the state after.
Compresses-same :
    (o : Option PermessageDeflate) (response r : HttpResponseHeader) (h h' : Handshake)
    → Compresses o response (record h { response_header = r }) h'
    → Compresses o response h (record h' { success = true })
Compresses-same none response r h h' c = c
Compresses-same (some p) response r h h' c = c

module _ (sha1 : Text → List ℕ) where
  validate_ok :
      (key : Text) (fields : HttpHeaderFields) (h h' : Handshake)
      → validate sha1 key fields h ≡ (ok tt, h')
      → Validates (accept_of sha1 key) fields × (h ≡ h')
  unfolding validate validate_sec_web_socket_version validate_sec_web_socket_accept
  validate_ok key fields h h' e =
      let (u, c, a, v, same) =
        four_ok (validate_upgrade_websocket fields) (validate_connection_upgrade fields)
          (validate_sec_web_socket_accept sha1 key fields) (validate_sec_web_socket_version fields)
          h h' e in
      (
        record {
          upgrade = validate_upgrade_ok fields u;
          connection = validate_connection_ok fields c;
          accepts =
              accept_ok (accept_of sha1 key) (get_first (codes "Sec-WebSocket-Accept") fields) a;
          version = version_ok (get_first (codes "Sec-WebSocket-Version") fields) v;
        },
        same,
      )

  process_fields_ok :
      (status_line : HttpStatusLine) (fields : HttpHeaderFields) (h h' : Handshake)
      → process_fields sha1 status_line fields h ≡ (ok tt, h')
      → (h'.response_header ≡ record { status_line = status_line; fields = fields })
        × Validates (accept_of sha1 h.request_key) fields
        × (h'.success ≡ true)
        × Compresses h.permessage_deflate
            (record { status_line = status_line; fields = fields })
            h
            h'
  unfolding process_fields
  process_fields_ok status_line fields h h' e =
      let response : HttpResponseHeader = record { status_line = status_line; fields = fields } in
      let h1 : Handshake = record h { response_header = response } in
      let (_, h2, v, e2) = after_inv (validate sha1 h.request_key fields h1) _ tt h' e in
      let (validates, same) = validate_ok h.request_key fields h1 h2 v in
      let (_, h3, n, e3) =
        after_inv (negotiate_if_wanted h.permessage_deflate response h2) _ tt h' e2 in
      let (compresses, header) =
        wanted_ok h.permessage_deflate response h2 h3 (ap (λ x. x.permessage_deflate) same) n in
      let g : record h3 { success = true } ≡ h' = ap (λ p. p.1) e3 in
      (
        ap (λ x. x.response_header) (sym g) ∙ header ∙ ap (λ x. x.response_header) (sym same),
        validates,
        ap (λ x. x.success) (sym g),
        subst (λ x. Compresses h.permessage_deflate response h x) g
            (Compresses-same h.permessage_deflate response response h h3
              (subst (λ x. Compresses h.permessage_deflate response x h3) (sym same) compresses)),
      )

  -- What RFC 6455 asks of the header fields, for this key
  pub record Answers (key : Text) (fields : HttpHeaderFields) : Type 0 where
    pub upgrade : HasToken (codes "Upgrade") (codes "websocket") fields.fields
    pub connection : HasToken (codes "Connection") (codes "Upgrade") fields.fields
    pub accepts :
        get_first (codes "Sec-WebSocket-Accept") fields
        ≡ some (base64_encode (sha1 (key ++ codes "258EAFA5-E914-47DA-95CA-C5AB0DC85B11")))
    pub version :
        (get_first (codes "Sec-WebSocket-Version") fields ≡ none)
        ⊎ (get_first (codes "Sec-WebSocket-Version") fields ≡ some (codes "13"))

  Validates-Answers :
      (key : Text) (fields : HttpHeaderFields)
      → Validates (accept_of sha1 key) fields
      → Answers key fields
  unfolding accept_of
  Validates-Answers key fields v = record {
    upgrade = header_contains_token-HasToken fields (codes "Upgrade") (codes "websocket") v.upgrade;
    connection =
        header_contains_token-HasToken fields (codes "Connection") (codes "Upgrade") v.connection;
    accepts = v.accepts;
    version = v.version;
  }

  is_switching_sound : (code : ℤ) → is_switching code ≡ true → code ≡ pos 101
  is_switching_sound (pos n) h = ap pos (ground (arith, h, ==_iff n 101))
  is_switching_sound (negsuc n) h = absurd (ground (arith, h))

  -- What an accepted answer says: it is a status line with code 101 and header fields that pass the
  -- checks for this client's key; and what the client then knows of the compression.
  pub record IsAccepted (text : Text) (h h' : Handshake) : Type 0 where
    pub rest : Text
    pub line_read : parse_request_status_line text ≡ ok (h'.response_header.status_line, rest)
    pub fields_read : parse_header_fields rest ≡ ok h'.response_header.fields
    pub switching : h'.response_header.status_line.status_code ≡ pos 101
    pub answers : Answers h.request_key h'.response_header.fields
    pub succeeded : h'.success ≡ true
    pub compresses : Compresses h.permessage_deflate h'.response_header h h'

  guard_passed :
      (b : Bool) (h h1 : Handshake) (u : Unit {0})
      → fail_if (not b) header_error h ≡ (ok u, h1)
      → (b ≡ true) × (h ≡ h1)
  guard_passed true h h1 u e = (refl, ap (λ p. p.1) e)
  guard_passed false h h1 u e = absurd (ground (arith, e))

  -- If process_response succeeds, the text is a status line with code 101 and header fields of which
  -- one, Upgrade in any case, lists websocket in any case between commas and white space, one
  -- Connection lists Upgrade so, the first Sec-WebSocket-Accept is the Base64 text of the SHA-1 of
  -- the client's key and 258EAFA5-E914-47DA-95CA-C5AB0DC85B11, and Sec-WebSocket-Version is absent
  -- or first 13; the handshake is marked as successful; and compression is as negotiated, or
  -- untouched where the client did not want it.
  pub process_response-IsAccepted :
      (text : Text) (h h' : Handshake)
      → process_response sha1 text h ≡ (ok tt, h')
      → IsAccepted text h h'
  unfolding process_response
  process_response-IsAccepted text h h' e =
      let (parsed, h1, a, e1) =
        after_inv (of_result (parse_request_status_line text) h) _ tt h' e in
      let (u, h2, b, e2) =
        after_inv (fail_if (not (is_switching parsed.0.status_code)) header_error h1) _ tt h' e1 in
      let (fields, h3, c, e3) =
        after_inv (of_result (parse_header_fields parsed.1) h2) _ tt h' e2 in
      let same : h3 ≡ h = sym (
        ap (λ p. p.1) a
        ∙ (guard_passed (is_switching parsed.0.status_code) h1 h2 u b).1
        ∙ ap (λ p. p.1) c) in
      let (header, validates, succeeded, compresses) =
        process_fields_ok parsed.0 fields h h'
          (ap (λ x. process_fields sha1 parsed.0 fields x) (sym same) ∙ e3) in
      record {
        rest = parsed.1;
        line_read = ap (λ p. p.0) a ∙ ap (λ r. ok (r.status_line, parsed.1)) (sym header);
        fields_read = ap (λ p. p.0) c ∙ ap (λ r. ok r.fields) (sym header);
        switching =
            ap (λ r. r.status_line.status_code) header
            ∙ is_switching_sound parsed.0.status_code
                (guard_passed (is_switching parsed.0.status_code) h1 h2 u b).0;
        answers =
            subst (λ r. Answers h.request_key r.fields) (sym header)
              (Validates-Answers h.request_key fields validates);
        succeeded = succeeded;
        compresses = subst (λ r. Compresses h.permessage_deflate r h h') (sym header) compresses;
      }
