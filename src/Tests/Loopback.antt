-- ===== src/Tests/Loopback.antt =====
-- A socket in memory: it delivers at most three bytes at a time, takes at most two, and fails where
-- the peer has sent nothing more. Its clock stands still.
use websocketclient_cpp.Prelude.{
  ℕ, ◌+◌, ◌≤◌, ◌<◌, ◌≡◌, ◌≢◌, refl, ap, sym, ◌∙◌, arith, min, false, true, List, [], ◌∷◌, ◌++◌,
  length, take, drop, replicate, none, take-append-drop, length-take,
}
use websocketclient_cpp.Errors.{WsError, Expected, ok, err, out_of_fuel, ws_error, transport_error}
use websocketclient_cpp.Errors.Steps.{M}
use websocketclient_cpp.CircularBuffer.{CircularBuffer}
use websocketclient_cpp.Transport.{Transport, Reads, Writes}
use websocketclient_cpp.BufferedSocket.{BufferedSocket}
use websocketclient_cpp.WebSocketClient.{Platform, Client, reset}

pub record Wire : Type 0 where
  pub incoming : List ℕ
  pub outgoing : List ℕ

abbrev pub closed_by_peer : WsError
closed_by_peer = ws_error transport_error 0

abbrev pub read_from : ℕ → List ℕ → List ℕ → Expected (List ℕ) × Wire
read_from n [] out = (err closed_by_peer, record { incoming = []; outgoing = out })
read_from n (x ∷ xs) out =
    (ok (take (min 3 n) (x ∷ xs)), record { incoming = drop (min 3 n) (x ∷ xs); outgoing = out })

abbrev pub write_to : List ℕ → M Wire ℕ
write_to bytes s = (ok (min 2 (length bytes)), record s { outgoing = s.outgoing ++ take 2 bytes })

abbrev pub loopback : Transport
loopback = record {
  State = Wire;
  read_some = λ n s. read_from n s.incoming s.outgoing;
  write_some = write_to;
  wait_readable = λ s. (ok true, s);
  shutdown = λ fail_conn s. (ok tt, s);
  close = λ fail_conn s. (ok tt, s);
  start_timeout = λ ms s. s;
  is_expired = λ s. (false, s);
}

pub taken :
    (n : ℕ) (input out : List ℕ) (s' : Wire) (bytes : List ℕ)
    → 0 < n
    → read_from n input out ≡ (ok bytes, s')
    → (0 < length bytes) × (length bytes ≤ n) × (input ≡ bytes ++ s'.incoming)
taken n [] out s' bytes h e = absurd (ground (arith, e))
taken n (x ∷ xs) out s' bytes h e =
    let same : take (min 3 n) (x ∷ xs) ≡ bytes = ground (arith, e) in
    let rest : drop (min 3 n) (x ∷ xs) ≡ s'.incoming = ap (λ m. m.1.incoming) e in
    (
      ground (arith, same, length-take (min 3 n) (x ∷ xs)),
      ground (arith, same, length-take (min 3 n) (x ∷ xs)),
      sym (take-append-drop (min 3 n) (x ∷ xs))
          ∙ ap (λ l. l ++ drop (min 3 n) (x ∷ xs)) same
          ∙ ap (λ l. bytes ++ l) rest,
    )

pub ends : (n : ℕ) (input out : List ℕ) → (read_from n input out).0 ≢ out_of_fuel
ends n [] out e = absurd (ground (arith, e))
ends n (x ∷ xs) out e = absurd (ground (arith, e))

pub keeps :
    (n : ℕ) (input out : List ℕ) (s' : Wire) (x : WsError)
    → read_from n input out ≡ (err x, s')
    → input ≡ s'.incoming
keeps n [] out s' x e = ap (λ m. m.1.incoming) e
keeps n (y ∷ ys) out s' x e = absurd (ground (arith, e))

-- The reading side, where the peer sends bytes
abbrev pub loopback_reads : Reads loopback
loopback_reads = record {
  input = λ s. s.incoming;
  reads_some = λ n s s' bytes. taken n s.incoming s.outgoing s' bytes;
  read_ends = λ n s. ends n s.incoming s.outgoing;
  read_fails = λ n s s' x. keeps n s.incoming s.outgoing s' x;
  expiry_keeps = λ s. refl;
  start_keeps = λ ms s. refl;
}

pub wrote :
    (bytes : List ℕ) (s s' : Wire) (n : ℕ)
    → 0 < length bytes
    → write_to bytes s ≡ (ok n, s')
    → (0 < n) × (n ≤ length bytes) × (s'.outgoing ≡ s.outgoing ++ take n bytes)
wrote [] s s' n h e = absurd (omega (arith, h))
wrote (x ∷ []) s s' n h e =
    let same : 1 ≡ n = ground (arith, e) in
    (
      omega arith,
      omega arith,
      ap (λ m. m.1.outgoing) (sym e) ∙ ap (λ k. s.outgoing ++ take k (x ∷ [])) same,
    )
wrote (x ∷ y ∷ rest) s s' n h e =
    let same : 2 ≡ n = ground (arith, e) in
    (
      omega arith,
      omega arith,
      ap (λ m. m.1.outgoing) (sym e) ∙ ap (λ k. s.outgoing ++ take k (x ∷ y ∷ rest)) same,
    )

pub write_ends_ok : (bytes : List ℕ) (s : Wire) → (write_to bytes s).0 ≢ out_of_fuel
write_ends_ok bytes s e = absurd (ground (arith, e))

pub write_never_fails :
    (bytes : List ℕ) (s s' : Wire) (x : WsError)
    → write_to bytes s ≡ (err x, s')
    → s'.outgoing ≡ s.outgoing
write_never_fails bytes s s' x e = absurd (ground (arith, e))

abbrev pub loopback_writes : Writes loopback
loopback_writes = record {
  output = λ s. s.outgoing;
  writes_some = wrote;
  write_ends = write_ends_ok;
  write_fails = write_never_fails;
  start_sends_nothing = λ ms s. refl;
}

-- A compression that does nothing, a mask key generator that counts, and memory without end
abbrev pub platform : Platform
platform = record {
  transport = loopback;
  allocator = record { serves = λ n. true; unwritten = λ n. 0 };
  compression = record {
    Context = ℕ;
    decompress_buffer = λ n. record { max_size = 0; capacity = 0; used = 0; memory = [] };
    set_decompress_buffer = λ b n. n;
    decompress = λ s. (ok tt, s);
    clear_compress_buffer = λ n. n;
    compress = λ payload n. (ok payload, n + 1);
  };
  MaskKeyGen = ℕ;
  next_mask_key = λ n. (n, n + 1);
  write_buffer_address = 64;
}

-- A read buffer of 16 bytes
abbrev pub empty_buffer : CircularBuffer ℕ
empty_buffer = record { buffer = replicate 16 0; head = 0; tail = 0; full = false; capacity = 16 }

abbrev pub socket_with : List ℕ → BufferedSocket loopback
socket_with input = record {
  socket = record { incoming = input; outgoing = [] };
  read_buffer = empty_buffer;
}

-- An open client, the mask key that it draws next being 0x04030201, whose peer sends these bytes
abbrev pub client_with : List ℕ → Client platform
client_with input = record {
  closed = false;
  socket = socket_with input;
  mask_key_gen = 67305985;
  permessage_deflate_ctx = none;
  write_buffer = replicate 128 0;
  read_state = reset;
}
