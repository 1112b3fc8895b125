-- ===== src/WebSocketClient/Opening/Opened.antt =====
-- When the client is open after `handshake`.
use websocketclient_cpp.Prelude.{
  ℕ, ◌*◌, ◌≡◌, refl, sym, ap, ◌∙◌, subst, Bool, true, false, not, Option, none, some, List,
}
use websocketclient_cpp.Text.{Text}
use websocketclient_cpp.Errors.{Expected, ok, err, out_of_fuel, ws_error, logic_error}
use websocketclient_cpp.Errors.CloseCode
use websocketclient_cpp.Errors.Steps.{M, ◌>>=◌, ◌>>◌, after, after_inv, fail_if}
use websocketclient_cpp.Buffer
use websocketclient_cpp.Buffer.{Buffer}
use websocketclient_cpp.BufferedSocket.{read_exact}
use websocketclient_cpp.PermessageDeflate.{PermessageDeflate}
use websocketclient_cpp.Handshake.{Handshake, get_request_message, process_response}
use websocketclient_cpp.Handshake.Response.{IsAccepted, process_response-IsAccepted}
use websocketclient_cpp.WebSocketClient.{Platform, Client, on_socket}
use websocketclient_cpp.WebSocketClient.Opening.{
  Opening, on_client, on_handshake, text_of, read_header, start_compression, mark_open,
  receive_answer, send_request, handshake,
}

module _ (p : Platform) where
  -- A call that does not succeed leaves the client as open or closed as it was.
  abbrev Unopened : {A : Type 0} → Opening p → Expected A × Opening p → Type 0
  Unopened s (ok a, s') = Unit
  Unopened s (err e, s') = s'.0.closed ≡ s.0.closed
  Unopened s (out_of_fuel, s') = s'.0.closed ≡ s.0.closed

  -- A call that leaves it so in any case
  abbrev Keeps : {A : Type 0} → M (Opening p) A → Type 0
  Keeps m = (s : Opening p) → (m s).1.0.closed ≡ s.0.closed

  Unopened-bind :
      {A : Type 0} (m : M (Opening p) A) (f : A → M (Opening p) (Unit {0}))
      → Keeps m
      → ((a : A) (s : Opening p) → Unopened s (f a s))
      → (s : Opening p) → Unopened s ((m >>= f) s)
  Unopened-bind {A} m f k more s = first (m s) (k s)
    where
      first : (r : Expected A × Opening p) → r.1.0.closed ≡ s.0.closed → Unopened s (after r f)
      first (ok a, s1) e = second (f a s1) (more a s1)
        where
          second : (q : Expected (Unit {0}) × Opening p) → Unopened s1 q → Unopened s q
          second (ok u, s2) h = tt
          second (err x, s2) h = h ∙ e
          second (out_of_fuel, s2) h = h ∙ e
      first (err x, s1) e = e
      first (out_of_fuel, s1) e = e

  header-Keeps : (b : Expected (Unit {0}) × Buffer) → Keeps (on_client p (read_header p b))
  unfolding read_header
  header-Keeps (ok u, b) (c, h) = texts _ _ _
    where
      texts :
          (r : Expected (Unit {0})) (c' : Client p) (b' : Buffer)
          → (text_of p r c' b').1.closed ≡ c'.closed
      texts (ok u) c' b' = refl
      texts (err e) c' b' = refl
      texts out_of_fuel c' b' = refl
  header-Keeps (err e, b) (c, h) = refl
  header-Keeps (out_of_fuel, b) (c, h) = refl

  request-Keeps : (timeout_ms : ℕ) → Keeps (send_request p timeout_ms)
  unfolding send_request
  request-Keeps timeout_ms (c, h) = refl

  request_key :
      (timeout_ms : ℕ) (c : Client p) (h : Handshake)
      → (send_request p timeout_ms (c, h)).1.1 ≡ (get_request_message h).1
  unfolding send_request
  request_key timeout_ms c h = refl

module _ (p : Platform) (sha1 : Text → List ℕ)
    (init : PermessageDeflate → Expected (Unit {0}) × p.compression.Context) where
  compression-Keeps :
      (b : Bool) (o : Option PermessageDeflate)
      → Keeps p (on_client p (start_compression p sha1 init b o))
  compression-Keeps false o s = refl
  compression-Keeps true none s = refl
  compression-Keeps true (some d) s = refl

  answer-Unopened : (s : Opening p) → Unopened p s (receive_answer p sha1 init s)
  unfolding receive_answer
  answer-Unopened s =
      Unopened-bind p {A = Text}
        (on_client p (read_header p (Buffer.create p.allocator 1024 (1024 * 1024)))) _
        (header-Keeps p (Buffer.create p.allocator 1024 (1024 * 1024)))
        (λ text.
          Unopened-bind p {A = List ℕ} (on_client p (on_socket p (read_exact p.transport 4))) _
            (λ s. refl)
            (λ _.
              Unopened-bind p {A = Unit {0}} (on_handshake p (process_response sha1 text)) _
                (λ s. refl) (λ _. answer_rest)))
        s
    where
      answer_rest :
          (s1 : Opening p)
          → Unopened p s1 (
              (on_client p (
                    start_compression p sha1 init s1.1.permessage_deflate_negotiated
                      s1.1.permessage_deflate)
                  >> on_client p (mark_open p))
                s1)
      answer_rest s1 =
          Unopened-bind p {A = Unit {0}}
            (on_client p (
              start_compression p sha1 init s1.1.permessage_deflate_negotiated
                s1.1.permessage_deflate))
            (λ _. on_client p (mark_open p))
            (compression-Keeps s1.1.permessage_deflate_negotiated s1.1.permessage_deflate)
            (λ _ s2. tt) s1

  -- What the client is after `handshake`: open if it succeeded, which it did on a closed client whose
  -- request was answered by an accepted answer; else as open or closed as it was.
  abbrev pub Opened : Opening p → Expected (Unit {0}) × Opening p → Type 0
  Opened (c, h) (ok u, (c', h')) =
      (c.closed ≡ true)
      × (c'.closed ≡ false)
      × ((text : Text) × IsAccepted sha1 text (get_request_message h).1 h')
  Opened (c, h) (err e, (c', h')) = c'.closed ≡ c.closed
  Opened (c, h) (out_of_fuel, (c', h')) = c'.closed ≡ c.closed

  answer-IsAccepted :
      (s s' : Opening p)
      → receive_answer p sha1 init s ≡ (ok tt, s')
      → (s'.0.closed ≡ false) × ((text : Text) × IsAccepted sha1 text s.1 s'.1)
  unfolding receive_answer
  answer-IsAccepted s s' e =
      let (text, s1, e1, f1) =
        after_inv (on_client p (read_header p (Buffer.create p.allocator 1024 (1024 * 1024))) s) _
          tt s' e in
      let (_, s2, e2, f2) =
        after_inv (on_client p (on_socket p (read_exact p.transport 4)) s1) _ tt s' f1 in
      let (_, s3, e3, f3) = after_inv (on_handshake p (process_response sha1 text) s2) _ tt s' f2 in
      let (_, s4, e4, f4) =
        after_inv
          (on_client p
            (start_compression p sha1 init s3.1.permessage_deflate_negotiated
              s3.1.permessage_deflate)
            s3)
          _ tt s' f3 in
      let same : s2.1 ≡ s.1 = sym (ap (λ x. x.1.1) e1 ∙ ap (λ x. x.1.1) e2) in
      let same' : s3.1 ≡ s'.1 = ap (λ x. x.1.1) e4 ∙ ap (λ x. x.1.1) f4 in
      let accepted : IsAccepted sha1 text s2.1 s3.1 =
        process_response-IsAccepted sha1 text s2.1 s3.1 (ap (λ x. (x.0, x.1.1)) e3) in
      (
        ap (λ x. x.1.0.closed) (sym f4),
        (
          text,
          subst (λ h. IsAccepted sha1 text h s'.1) same
              (subst (λ h. IsAccepted sha1 text s2.1 h) same' accepted),
        ),
      )

  -- After `handshake`: where it succeeds, the client was closed and is open, and some text was an
  -- accepted answer to the key of the request; where it does not, the client is as open or closed as
  -- it was.
  pub handshake_lem :
      (timeout_ms : ℕ) (c : Client p) (h : Handshake)
      → Opened (c, h) (handshake p sha1 init timeout_ms (c, h))
  unfolding handshake
  handshake_lem timeout_ms c h = guarded c.closed refl
    where
      answered :
          (c1 : Client p)
          → c.closed ≡ true
          → c1.closed ≡ c.closed
          → (r : Expected (Unit {0}) × Opening p)
          → receive_answer p sha1 init (c1, (get_request_message h).1) ≡ r
          → Unopened p (c1, (get_request_message h).1) r
          → Opened (c, h) r
      answered c1 was same (ok u, s') e _ =
          let (now, accepted) = answer-IsAccepted (c1, (get_request_message h).1) s' e in
          (was, now, accepted)
      answered c1 was same (err x, s') e kept = kept ∙ same
      answered c1 was same (out_of_fuel, s') e kept = kept ∙ same

      sent :
          (r : Expected (Unit {0}) × Opening p)
          → c.closed ≡ true
          → r.1.0.closed ≡ c.closed
          → r.1.1 ≡ (get_request_message h).1
          → Opened (c, h) (after r (λ _. receive_answer p sha1 init))
      sent (ok u, (c1, h1)) was same key =
          subst (λ k. Opened (c, h) (receive_answer p sha1 init (c1, k))) (sym key)
            (answered c1 was same _ refl (answer-Unopened (c1, (get_request_message h).1)))
      sent (err x, (c1, h1)) was same key = same
      sent (out_of_fuel, (c1, h1)) was same key = same

      guarded :
          (b : Bool)
          → c.closed ≡ b
          → Opened
              (c, h)
              ((fail_if (not b) (ws_error logic_error CloseCode.not_set)
                  >> (send_request p timeout_ms >> receive_answer p sha1 init))
                (c, h))
      guarded true was =
          sent (send_request p timeout_ms (c, h)) was (request-Keeps p timeout_ms (c, h))
            (request_key p timeout_ms c h)
      guarded false was = refl
