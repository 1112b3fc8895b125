-- ===== src/Tests/Opening.antt =====
-- The opening of a connection, at concrete inputs: URLs, header fields, the handshake, its random
-- key, and the negotiation of compression.
use websocketclient_cpp.Prelude.{
  ℕ, ◌^◌, ◌<◌, ◌≡◌, refl, sym, ap, ◌∙◌, inl, true, ◌&&◌, some, List, [], ◌∷◌, ◌++◌, arith,
  if◌then◌else◌, take, replicate,
}
use websocketclient_cpp.Text.{
  Text, pos, codes, tolower, isspace, equals, equals_ci, equals_ci_char, trim, trim_left,
  trim_right, index, find_from, starts_with, find_text, scan, from_chars, Without,
}
use websocketclient_cpp.Errors.{ok}
use websocketclient_cpp.Networking.{store}
use websocketclient_cpp.Base64.{base64_encode, encode_group, encode_char}
use websocketclient_cpp.Base64.Decoding.{base64_decode}
use websocketclient_cpp.Base64.RoundTrip.{base64_decode-encode}
use websocketclient_cpp.HttpHeader.{
  HttpHeaderFields, HttpStatusLine, HttpResponseHeader, add, add_if_missing, set, get, get_first,
  remove_key, print_fields, crlf,
}
use websocketclient_cpp.HttpHeader.Laws.{writes_lem, no_values}
use websocketclient_cpp.HttpParser.{parse_header_fields}
use websocketclient_cpp.HttpParser.RoundTrip.{
  IsPrintable, ArePrintable, print_cut, parse_header_fields-print,
}
use websocketclient_cpp.HttpParser.StatusLine.{print_status_line}
use websocketclient_cpp.Url.{
  Url, parse, parse_after, get_default_port, parse_port, parse_host, ipv6_host, named_host,
  resource_of, finish, lower, to_string, authority,
}
use websocketclient_cpp.Url.Parsed.{IsUrl, parse-IsUrl}
use websocketclient_cpp.Url.RoundTrip.{parse-to_string}
use websocketclient_cpp.PermessageDeflate.{
  PermessageDeflate, default_permessage_deflate, negotiate, get_sec_web_socket_extensions_value,
}
use websocketclient_cpp.PermessageDeflate.Negotiated.{Negotiated}
use websocketclient_cpp.PermessageDeflate.Echo.{negotiate_echo}
use websocketclient_cpp.Random.{seeded, next}
use websocketclient_cpp.Random.State.{AreWords, IsZero, after_calls, seeded-never-IsZero}
use websocketclient_cpp.Handshake.{
  Handshake, new_handshake, process_response, header_contains_token, any_field, tokens, accept_of,
  get_request_message, generate_key,
}
use websocketclient_cpp.Handshake.Response.{IsAccepted, Validates, process_response-IsAccepted}
use websocketclient_cpp.Handshake.Accepting.{process_response-print}
use websocketclient_cpp.Handshake.Request.{
  or_default, get_request_message_lem, generate_key-half_zero,
}

abbrev address : Text
address = codes "ws://echo.example:8080?q=1#top"

abbrev echo_url : Url
echo_url = record {
  protocol = codes "ws";
  host = codes "echo.example";
  port = 8080;
  resource = codes "/?q=1";
}

parse-address : parse address ≡ ok echo_url
unfolding parse find_text starts_with parse_after get_default_port equals lower tolower parse_host
    find_from index ipv6_host named_host parse_port from_chars scan finish resource_of
parse-address = refl

parse-IsUrl_example : IsUrl echo_url
parse-IsUrl_example = parse-IsUrl address echo_url parse-address

parse-to_string_example : parse (to_string echo_url) ≡ ok echo_url
parse-to_string_example = parse-to_string echo_url (parse-IsUrl address echo_url parse-address) (
    inl (
      refl,
      (
        refl,
        (refl, (refl, (refl, (refl, (refl, (refl, (refl, (refl, (refl, (refl, (refl, tt))))))))))),
      ),
      (
        refl,
        (refl, (refl, (refl, (refl, (refl, (refl, (refl, (refl, (refl, (refl, (refl, tt))))))))))),
      ),
    ))

base64_decode-encode_example : base64_decode (base64_encode (codes "abcd")) ≡ some (codes "abcd")
base64_decode-encode_example = base64_decode-encode (codes "abcd") (omega arith)

abbrev jar : HttpHeaderFields
jar = record { fields = (codes "Set-Cookie", codes "a=1") ∷ (codes "set-cookie", codes "b=2") ∷ [] }

writes_lem_example :
    (get (codes "Set-Cookie") (add (codes "SET-COOKIE") (codes "c") jar)
      ≡ get (codes "Set-Cookie") jar
        ++ (if equals_ci (codes "SET-COOKIE") (codes "Set-Cookie") then codes "c" ∷ [] else []))
    × (get (codes "Set-Cookie") (set (codes "SET-COOKIE") (codes "c") jar) ≡ (
        if equals_ci (codes "SET-COOKIE") (codes "Set-Cookie")
        then codes "c" ∷ []
        else get (codes "Set-Cookie") jar))
    × (get (codes "Set-Cookie") (remove_key (codes "SET-COOKIE") jar) ≡ (
        if equals_ci (codes "SET-COOKIE") (codes "Set-Cookie")
        then []
        else get (codes "Set-Cookie") jar))
    × (get (codes "Set-Cookie") (add_if_missing (codes "SET-COOKIE") (codes "c") jar) ≡ (
        if no_values (get (codes "SET-COOKIE") jar)
          && equals_ci (codes "SET-COOKIE") (codes "Set-Cookie")
        then codes "c" ∷ []
        else get (codes "Set-Cookie") jar))
writes_lem_example = writes_lem (codes "Set-Cookie") (codes "SET-COOKIE") (codes "c") jar

abbrev pub answer_line : HttpStatusLine
answer_line = record {
  protocol_version = codes "HTTP/1.1";
  status_code = pos 101;
  reason = codes "Switching Protocols";
}

abbrev pub first_fields : List (Text × Text)
first_fields =
    (codes "Upgrade", codes "websocket") ∷ (codes "Connection", codes "keep-alive, Upgrade") ∷ []

abbrev accept_field : Text × Text
accept_field = (codes "Sec-WebSocket-Accept", codes "YWJj")

first_printable : ArePrintable first_fields
unfolding isspace trim_left trim_right
first_printable = (
  record {
    start = refl;
    no_colon = (refl, (refl, (refl, (refl, (refl, (refl, (refl, tt)))))));
    key_line = (refl, (refl, (refl, (refl, (refl, (refl, (refl, tt)))))));
    value_line = (refl, (refl, (refl, (refl, (refl, (refl, (refl, (refl, (refl, tt)))))))));
    trimmed = (refl, refl);
  },
  (
    record {
      start = refl;
      no_colon = (refl, (refl, (refl, (refl, (refl, (refl, (refl, (refl, (refl, (refl, tt))))))))));
      key_line = (refl, (refl, (refl, (refl, (refl, (refl, (refl, (refl, (refl, (refl, tt))))))))));
      value_line = (
        refl,
        (
          refl,
          (
            refl,
            (
              refl,
              (
                refl,
                (
                  refl,
                  (
                    refl,
                    (
                      refl,
                      (
                        refl,
                        (
                          refl,
                          (
                            refl,
                            (refl, (refl, (refl, (refl, (refl, (refl, (refl, (refl, tt)))))))),
                          ),
                        ),
                      ),
                    ),
                  ),
                ),
              ),
            ),
          ),
        ),
      );
      trimmed = (refl, refl);
    },
    tt,
  ),
)

accept-IsPrintable : IsPrintable accept_field
unfolding isspace trim_left trim_right
accept-IsPrintable = record {
  start = refl;
  no_colon = (
    refl,
    (
      refl,
      (
        refl,
        (
          refl,
          (
            refl,
            (
              refl,
              (
                refl,
                (
                  refl,
                  (
                    refl,
                    (
                      refl,
                      (
                        refl,
                        (refl, (refl, (refl, (refl, (refl, (refl, (refl, (refl, (refl, tt))))))))),
                      ),
                    ),
                  ),
                ),
              ),
            ),
          ),
        ),
      ),
    ),
  );
  key_line = (
    refl,
    (
      refl,
      (
        refl,
        (
          refl,
          (
            refl,
            (
              refl,
              (
                refl,
                (
                  refl,
                  (
                    refl,
                    (
                      refl,
                      (
                        refl,
                        (refl, (refl, (refl, (refl, (refl, (refl, (refl, (refl, (refl, tt))))))))),
                      ),
                    ),
                  ),
                ),
              ),
            ),
          ),
        ),
      ),
    ),
  );
  value_line = (refl, (refl, (refl, (refl, tt))));
  trimmed = (refl, refl);
}

version_words : Without isspace (codes "HTTP/1.1")
unfolding isspace
version_words = (refl, (refl, (refl, (refl, (refl, (refl, (refl, (refl, tt))))))))

reason_trimmed :
    (trim_left answer_line.reason ≡ answer_line.reason)
    × (trim_right answer_line.reason ≡ answer_line.reason)
unfolding isspace trim_left trim_right
reason_trimmed = (refl, refl)

parse_header_fields-print_example :
    parse_header_fields (print_fields first_fields ++ (crlf ++ codes "HTTP"))
    ≡ ok (record { fields = first_fields })
parse_header_fields-print_example =
    parse_header_fields-print first_fields (codes "HTTP") first_printable

-- A digest that is no SHA-1, but a function like it
abbrev pub digest : Text → List ℕ
digest t = take 3 t

abbrev pub waiting : Handshake
waiting = record (new_handshake echo_url (seeded 7)) { request_key = codes "abc" }

abbrev answer_text : Text
answer_text = print_status_line answer_line 101 ++ print_cut first_fields accept_field

answer-Validates :
    Validates
      (accept_of digest waiting.request_key)
      (record { fields = first_fields ++ (accept_field ∷ []) })
unfolding accept_of base64_encode encode_group encode_char header_contains_token any_field tokens
    trim trim_left trim_right isspace equals_ci equals_ci_char tolower get_first
answer-Validates = record { upgrade = refl; connection = refl; accepts = refl; version = inl refl }

process_response-print_example : process_response digest answer_text waiting ≡ (
  ok tt,
  record waiting {
    response_header = record {
      status_line = answer_line;
      fields = record { fields = first_fields ++ (accept_field ∷ []) };
    };
    success = true;
  },
)
process_response-print_example =
    process_response-print digest waiting answer_line first_fields accept_field refl
      (λ e. ground (arith, e)) version_words
      (
        refl,
        (
          refl,
          (
            refl,
            (
              refl,
              (
                refl,
                (
                  refl,
                  (
                    refl,
                    (
                      refl,
                      (
                        refl,
                        (
                          refl,
                          (
                            refl,
                            (refl, (refl, (refl, (refl, (refl, (refl, (refl, (refl, tt)))))))),
                          ),
                        ),
                      ),
                    ),
                  ),
                ),
              ),
            ),
          ),
        ),
      )
      reason_trimmed first_printable accept-IsPrintable answer-Validates refl

process_response-IsAccepted_example :
    IsAccepted digest answer_text waiting (process_response digest answer_text waiting).1
process_response-IsAccepted_example =
    process_response-IsAccepted digest answer_text waiting
      (process_response digest answer_text waiting).1
      (process_response-print_example ∙ ap (λ r. (ok tt, r.1)) (sym process_response-print_example))

generate_key-half_zero_example :
    base64_decode (generate_key (seeded 7)).0
    ≡ some (
        (store 4 (next (seeded 7)).0 ++ replicate 4 0)
        ++ (store 4 (next (next (seeded 7)).1).0 ++ replicate 4 0))
generate_key-half_zero_example = generate_key-half_zero (seeded 7)

get_request_message_lem_example :
    let h' = (get_request_message waiting).1 in
    let now = λ (j : Text). get j h'.request_header.fields in
    let before = λ (j : Text). get j waiting.request_header.fields in
    (now (codes "Sec-WebSocket-Key") ≡ h'.request_key ∷ [])
    × (now (codes "Host") ≡ or_default (before (codes "Host")) (authority waiting.url))
    × (now (codes "Upgrade") ≡ or_default (before (codes "Upgrade")) (codes "websocket"))
    × (now (codes "Connection") ≡ or_default (before (codes "Connection")) (codes "Upgrade"))
    × (now (codes "Sec-WebSocket-Version")
        ≡ or_default (before (codes "Sec-WebSocket-Version")) (codes "13"))
get_request_message_lem_example = get_request_message_lem waiting

seeded-never-IsZero_example :
    AreWords (after_calls 3 (seeded 7))
    × (¬ (IsZero (after_calls 3 (seeded 7))))
    × ((next (after_calls 3 (seeded 7))).0 < 2 ^ 32)
seeded-never-IsZero_example = seeded-never-IsZero 7 3

-- An answer that takes ten bits of the fifteen requested
abbrev smaller : HttpResponseHeader
smaller = record {
  status_line = answer_line;
  fields = record {
    fields =
        (codes "Sec-WebSocket-Extensions", codes "permessage-deflate; server_max_window_bits=10")
        ∷ [];
  };
}

abbrev ten_bits : PermessageDeflate
ten_bits = record default_permessage_deflate { server_max_window_bits = 10 }

abbrev echoed : HttpResponseHeader
unfolding get_sec_web_socket_extensions_value
echoed = record {
  status_line = answer_line;
  fields = record {
    fields =
        (
          codes "Sec-WebSocket-Extensions",
          get_sec_web_socket_extensions_value default_permessage_deflate,
        )
        ∷ [];
  };
}

echoed_value :
    get_first (codes "Sec-WebSocket-Extensions") echoed.fields
    ≡ some (get_sec_web_socket_extensions_value default_permessage_deflate)
unfolding echoed get_first equals_ci equals_ci_char tolower
echoed_value = refl

negotiate_echo_example :
    negotiate echoed default_permessage_deflate ≡ (ok true, default_permessage_deflate)
negotiate_echo_example =
    negotiate_echo echoed default_permessage_deflate (omega arith) (omega arith) (omega arith)
      (omega arith) echoed_value
