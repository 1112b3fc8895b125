-- ===== src/Handshake/Accepting.antt =====
-- A server that answers as RFC 6455 asks is accepted.
use websocketclient_cpp.Prelude.{
  ℕ, ◌≡◌, refl, ap, ◌∙◌, ◌≢◌, ◌⊎◌, inl, inr, true, not, Option, none, some, List, [], ◌∷◌, ◌++◌,
  arith, ◌==◌, Bool-cases,
}
use websocketclient_cpp.Text.{Text, Without, pos, codes, equals, equals_ci, isspace}
use websocketclient_cpp.Text.Trim.{IsTrimmed}
use websocketclient_cpp.HttpHeader.Keys.{equals_refl}
use websocketclient_cpp.Errors.{ok}
use websocketclient_cpp.Errors.Steps.{M, ◌>>=◌, ◌>>◌, bind_ok, fail_if, of_result}
use websocketclient_cpp.HttpHeader.{
  HttpHeaderFields, HttpStatusLine, HttpResponseHeader, contains_key, any_key, get_first,
}
use websocketclient_cpp.HttpParser.{header_error, parse_header_fields}
use websocketclient_cpp.HttpParser.StatusLine.{print_status_line, parse_status_line-print}
use websocketclient_cpp.HttpParser.RoundTrip.{
  IsPrintable, ArePrintable, print_cut, parse_header_fields-print_cut,
}
use websocketclient_cpp.Handshake.{
  Handshake, header_contains_token, any_field, check, validate_upgrade_websocket,
  validate_connection_upgrade, validate_sec_web_socket_version, validate_sec_web_socket_accept,
  version_of, accept_is, accept_of, is_switching, validate, negotiate_if_wanted, process_fields,
  process_response, set_success,
}
use websocketclient_cpp.Handshake.Response.{Validates}

-- A field with the token is a field with the name.
any_field-any_key :
    (name expected : Text) (fs : List (Text × Text))
    → any_field name expected fs ≡ true
    → any_key name fs ≡ true
unfolding any_field
any_field-any_key name expected [] h = absurd (ground (arith, h))
any_field-any_key name expected ((k, v) ∷ fs) h = elim (Bool-cases (equals_ci k name)) [
  | inl e ↦ ground (arith, e)
  | inr e ↦ ground (arith, e, h, any_field-any_key name expected fs)
]

contains_token-contains_key :
    (name expected : Text) (fields : HttpHeaderFields)
    → header_contains_token fields name expected ≡ true
    → contains_key name fields ≡ true
unfolding header_contains_token contains_key
contains_token-contains_key name expected fields h = any_field-any_key name expected fields.fields h

version_passes : (o : Option Text) → (o ≡ none) ⊎ (o ≡ some (codes "13")) → version_of o ≡ ok tt
unfolding equals
version_passes o (inl e) = ap version_of e
version_passes o (inr e) = ap version_of e

module _ (sha1 : Text → List ℕ) where
  validate_passes :
      (key : Text) (fields : HttpHeaderFields) (h : Handshake)
      → Validates (accept_of sha1 key) fields
      → validate sha1 key fields h ≡ (ok tt, h)
  unfolding validate validate_upgrade_websocket validate_connection_upgrade
      validate_sec_web_socket_accept validate_sec_web_socket_version
  validate_passes key fields h v =
      let accept : Text = accept_of sha1 key in
      let u : validate_upgrade_websocket fields ≡ ok tt =
        rw
          (
            contains_token-contains_key (codes "Upgrade") (codes "websocket") fields v.upgrade,
            v.upgrade,
            validate_upgrade_websocket,
          )
          refl in
      let c : validate_connection_upgrade fields ≡ ok tt =
        rw
          (
            contains_token-contains_key (codes "Connection") (codes "Upgrade") fields v.connection,
            v.connection,
            validate_connection_upgrade,
          )
          refl in
      let a : validate_sec_web_socket_accept sha1 key fields ≡ ok tt =
        ap (accept_is accept) v.accepts ∙ ap check (equals_refl accept) in
      let w : validate_sec_web_socket_version fields ≡ ok tt =
        version_passes (get_first (codes "Sec-WebSocket-Version") fields) v.version in
      ap
        (λ r.
          (of_result r
              >> (of_result (validate_connection_upgrade fields)
                  >> (of_result (validate_sec_web_socket_accept sha1 key fields)
                      >> of_result (validate_sec_web_socket_version fields))))
            h)
        u
      ∙ ap
          (λ r.
            (of_result r
                >> (of_result (validate_sec_web_socket_accept sha1 key fields)
                    >> of_result (validate_sec_web_socket_version fields)))
              h)
          c
      ∙ ap (λ r. (of_result r >> of_result (validate_sec_web_socket_version fields)) h) a
      ∙ ap (λ r. (r, h)) w

  -- An answer of a status line with code 101 and fields that pass the checks, each in a form that can
  -- be read back, is accepted by a client that does not want compression: the client keeps the
  -- header and the handshake has succeeded. The text ends before the empty line.
  pub process_response-print :
      (h : Handshake) (l : HttpStatusLine) (fs : List (Text × Text)) (f : Text × Text)
      → l.status_code ≡ pos 101
      → l.protocol_version ≢ []
      → Without isspace l.protocol_version
      → Without (λ c. c == 10) l.reason
      → IsTrimmed l.reason
      → ArePrintable fs
      → IsPrintable f
      → Validates (accept_of sha1 h.request_key) (record { fields = fs ++ (f ∷ []) })
      → h.permessage_deflate ≡ none
      → process_response sha1 (print_status_line l 101 ++ print_cut fs f) h ≡ (
        ok tt,
        record h {
          response_header = record { status_line = l; fields = record { fields = fs ++ (f ∷ []) } };
          success = true;
        },
      )
  unfolding process_response process_fields
  process_response-print h l fs f e n w r t ps p v d =
      let fields : HttpHeaderFields = record { fields = fs ++ (f ∷ []) } in
      let response : HttpResponseHeader = record { status_line = l; fields = fields } in
      let h1 : Handshake = record h { response_header = response } in
      let rest : HttpStatusLine → M Handshake (Unit {0}) = λ line.
        of_result (parse_header_fields (print_cut fs f)) >>= λ fields.
        process_fields sha1 line fields in
      ap
        (λ x.
          (of_result x >>= λ parsed.
          fail_if (not (is_switching parsed.0.status_code)) header_error >>= λ _.
          of_result (parse_header_fields parsed.1) >>= λ fields.
          process_fields sha1 parsed.0 fields)
            h)
        (parse_status_line-print l 101 (print_cut fs f) e n w (omega arith) r t)
      ∙ ap (λ x. (fail_if (not (is_switching x)) header_error >>= λ _. rest l) h) e
      ∙ ap (λ x. (of_result x >>= λ fields. process_fields sha1 l fields) h)
          (parse_header_fields-print_cut fs f ps p)
      ∙ bind_ok (validate sha1 h.request_key fields) _ (validate_passes h.request_key fields h1 v)
      ∙ ap (λ o. (negotiate_if_wanted o response >> set_success) h1) d
