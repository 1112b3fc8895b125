-- ===== src/Transport.antt =====
-- include/ws_client/transport/HasSocketOperations.hpp: what the client asks of a socket, and the
-- clock behind utils/Timeout.hpp. A state stands for the socket, the peer and the clock together;
-- the deadline of the call that is running is part of it.
use websocketclient_cpp.Prelude.{ℕ, ◌≤◌, ◌<◌, ◌≡◌, ◌≢◌, Bool, List, ◌++◌, length, take}
use websocketclient_cpp.Errors.{WsError, ok, err, out_of_fuel}
use websocketclient_cpp.Errors.Steps.{M}

pub record Transport : Type 1 where
  pub State : Type 0
  -- `read_some` into a span of this many bytes: the bytes that it stored
  pub read_some : ℕ → M State (List ℕ)
  -- `write_some`: how many bytes it took
  pub write_some : List ℕ → M State ℕ
  pub wait_readable : M State Bool
  pub shutdown : Bool → M State (Unit {0})
  pub close : Bool → M State (Unit {0})
  -- `Timeout timeout(…)`, and `timeout.is_expired()`
  pub start_timeout : ℕ → State → State
  pub is_expired : State → Bool × State

-- What the reading side relies on: `input` are the bytes that the peer has sent and the socket has
-- not delivered. A successful read takes at least one and at most as many as asked from their front.
pub record Reads (t : Transport) : Type 0 where
  pub input : t.State → List ℕ
  pub reads_some :
      (n : ℕ) (s s' : t.State) (bytes : List ℕ)
      → 0 < n
      → t.read_some n s ≡ (ok bytes, s')
      → (0 < length bytes) × (length bytes ≤ n) × (input s ≡ bytes ++ input s')
  pub read_ends : (n : ℕ) (s : t.State) → (t.read_some n s).0 ≢ out_of_fuel
  -- A read that fails takes nothing.
  pub read_fails :
      (n : ℕ) (s s' : t.State) (e : WsError) → t.read_some n s ≡ (err e, s') → input s ≡ input s'
  -- Reading the clock and setting a deadline do neither.
  pub expiry_keeps : (s : t.State) → input (t.is_expired s).1 ≡ input s
  pub start_keeps : (ms : ℕ) (s : t.State) → input (t.start_timeout ms s) ≡ input s

-- What the writing side relies on: `output` are the bytes that the peer was sent.
pub record Writes (t : Transport) : Type 0 where
  pub output : t.State → List ℕ
  pub writes_some :
      (bytes : List ℕ) (s s' : t.State) (n : ℕ)
      → 0 < length bytes
      → t.write_some bytes s ≡ (ok n, s')
      → (0 < n) × (n ≤ length bytes) × (output s' ≡ output s ++ take n bytes)
  pub write_ends : (bytes : List ℕ) (s : t.State) → (t.write_some bytes s).0 ≢ out_of_fuel
  pub write_fails :
      (bytes : List ℕ) (s s' : t.State) (e : WsError)
      → t.write_some bytes s ≡ (err e, s')
      → output s' ≡ output s
  pub start_sends_nothing : (ms : ℕ) (s : t.State) → output (t.start_timeout ms s) ≡ output s
