-- ===== src/WebSocketClient/Messages/Takes.antt =====
-- Calls of a session that end, and how many of the peer's bytes they take.
use websocketclient_cpp.Prelude.{
  ℕ, ◌+◌, ◌≤◌, ap, Bool, true, false, List, arith, if◌then◌else◌, length, length-append,
}
use websocketclient_cpp.Errors.{WsError, Expected, ok, err, out_of_fuel}
use websocketclient_cpp.Errors.Steps.{M, after, fail_if}
use websocketclient_cpp.Transport.{Reads}
use websocketclient_cpp.Buffer.{Buffer}
use websocketclient_cpp.Buffer.Kept.{Fine, Settles}
use websocketclient_cpp.WebSocketClient.{Platform, Client}
use websocketclient_cpp.WebSocketClient.Receiving.Consumes.{unread, Able, Consumes}
use websocketclient_cpp.WebSocketClient.Messages.{Session, on_client, on_buffer}

module _ {p : Platform} (r : Reads p.transport) where
  abbrev pub left : Session p → ℕ
  left s = length (unread r s.client)

  -- A session whose client may read, into such a buffer
  abbrev pub Steady : Session p → Type 0
  Steady s = Able r s.client × Fine s.buffer

  -- A call that ends, and that takes `n` bytes at least where it succeeds: then the session is steady
  -- again. Where it fails, there are no more bytes to read than before either.
  abbrev pub Takes : {A : Type 0} → ℕ → Session p → Expected A × Session p → Type 0
  Takes n s (ok a, s') = Steady s' × (left s' + n ≤ left s)
  Takes n s (err e, s') = left s' ≤ left s
  Takes n s (out_of_fuel, s') = ⊥

  pub Takes-then :
      {A B : Type 0} (n k : ℕ) (s : Session p) (m : Expected A × Session p)
      (f : A → M (Session p) B)
      → Takes n s m
      → ((a : A) (s' : Session p) → Steady s' → Takes k s' (f a s'))
      → Takes (n + k) s (after m f)
  Takes-then {B = B} n k s (ok a, s') f (able, less) next = go (f a s') (next a s' able)
    where
      go : (m : Expected B × Session p) → Takes k s' m → Takes (n + k) s m
      go (ok b, s2) (able', less') = (able', omega arith)
      go (err e, s2) h = omega (arith, less, h)
      go (out_of_fuel, s2) h = absurd h
  Takes-then n k s (err e, s') f h next = h
  Takes-then n k s (out_of_fuel, s') f h next = absurd h

  pub Takes-if :
      {B : Type 0} (n : ℕ) (s : Session p) (bad : Bool) (e : WsError)
      (f : Unit {0} → M (Session p) B)
      → Takes n s (f tt s)
      → Takes n s (after (fail_if bad e s) f)
  Takes-if n s true e f h = omega arith
  Takes-if n s false e f h = h

  pub Takes-on_client :
      {A : Type 0} {R : A → List ℕ → Type 0} (n : ℕ) (s : Session p) (m : M (Client p) A)
      → Fine s.buffer
      → Consumes r R s.client (m s.client)
      → ((a : A) (raw : List ℕ) → R a raw → n ≤ length raw)
      → Takes n s (on_client p m s)
  Takes-on_client {A = A} {R = R} n s m fine h long = go (m s.client) h
    where
      go :
          (x : Expected A × Client p)
          → Consumes r R s.client x
          → Takes n s (x.0, record s { client = x.1 })
      go (ok a, c) (raw, split, y, able) = (
        (able, fine),
        omega (arith, ap length split, length-append raw (unread r c), long a raw y),
      )
      go (err e, c) (lost, split, able) =
          omega (arith, ap length split, length-append lost (unread r c))
      go (out_of_fuel, c) y = absurd y

  pub weaker :
      {A : Type 0} (n : ℕ) (s : Session p) (m : Expected A × Session p)
      → Takes (n + 0) s m
      → Takes 0 s m
  weaker n s (ok a, s') (able, less) = (able, omega arith)
  weaker n s (err e, s') h = h
  weaker n s (out_of_fuel, s') h = h

  -- A call that leaves the client as it is, and ends
  pub Takes-on_buffer :
      {A : Type 0} (s : Session p) (m : M Buffer A)
      → Steady s
      → Settles (m s.buffer)
      → Takes 0 s (on_buffer p m s)
  Takes-on_buffer {A = A} s m able settles = go (m s.buffer) settles
    where
      go : (x : Expected A × Buffer) → Settles x → Takes 0 s (x.0, record s { buffer = x.1 })
      go (ok a, b) fine = ((able.0, fine), omega arith)
      go (err x, b) h = omega arith
      go (out_of_fuel, b) h = absurd h

  pub Takes-branch :
      {A : Type 0} (n : ℕ) (s : Session p) (b : Bool) (f g : M (Session p) A)
      → Takes n s (f s)
      → Takes n s (g s)
      → Takes n s ((if b then f else g) s)
  Takes-branch n s true f g h k = h
  Takes-branch n s false f g h k = k

  -- A guard at the end of a block
  pub guard-Takes :
      (s : Session p) (bad : Bool) (e : WsError) → Steady s → Takes 0 s (fail_if bad e s)
  guard-Takes s true e able = omega arith
  guard-Takes s false e able = (able, omega arith)
