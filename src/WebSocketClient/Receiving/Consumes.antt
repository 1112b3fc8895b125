-- ===== src/WebSocketClient/Receiving/Consumes.antt =====
-- Calls that consume the peer's bytes: what they take from the front is theirs, and the rest stays.
use websocketclient_cpp.Prelude.{
  ℕ, ◌≡◌, refl, ap, sym, subst, ◌∙◌, Bool, true, false, List, [], ◌++◌, length, append_assoc,
  AreBytes, AreBytes-split,
}
use websocketclient_cpp.Errors.{WsError, Expected, ok, err, out_of_fuel}
use websocketclient_cpp.Errors.Steps.{M, after, fail_if}
use websocketclient_cpp.Transport.{Reads}
use websocketclient_cpp.BufferedSocket.{BufferedSocket, read_exact}
use websocketclient_cpp.BufferedSocket.Fill.{pending, Ready}
use websocketclient_cpp.BufferedSocket.Reading.{ReadExactly, read_exact_lem}
use websocketclient_cpp.WebSocketClient.{Platform, Client}
use websocketclient_cpp.WebSocketClient.Receiving.{read}

-- What `read n` takes
abbrev pub Exactly : ℕ → List ℕ → List ℕ → Type 0
Exactly n bytes raw = (raw ≡ bytes) × (length bytes ≡ n) × AreBytes bytes

module _ {p : Platform} (r : Reads p.transport) where
  -- The peer's bytes that the client has not consumed
  abbrev pub unread : Client p → List ℕ
  unread c = pending r c.socket

  -- A client that may read
  abbrev pub Able : Client p → Type 0
  Able c = Ready c.socket.read_buffer × AreBytes (unread c)

  -- A call that ends: where it succeeds, what it took from the front of the unread bytes is related
  -- to its result; where it fails, it took some of them.
  abbrev pub Consumes :
      {A : Type 0} → (A → List ℕ → Type 0) → Client p → Expected A × Client p → Type 0
  Consumes R c (ok a, c') = (raw : List ℕ) × (unread c ≡ raw ++ unread c') × R a raw × Able c'
  Consumes R c (err e, c') = (lost : List ℕ) × (unread c ≡ lost ++ unread c') × Able c'
  Consumes R c (out_of_fuel, c') = ⊥

  -- Two calls in a row
  pub Consumes-then :
      {A B : Type 0} {R : A → List ℕ → Type 0} (S : B → List ℕ → Type 0) (c : Client p)
      (m : Expected A × Client p) (k : A → M (Client p) B)
      → Consumes R c m
      → ((a : A) (raw : List ℕ) (c' : Client p)
          → R a raw
          → Able c'
          → Consumes (λ b raw'. S b (raw ++ raw')) c' (k a c'))
      → Consumes S c (after m k)
  Consumes-then {B = B} S c (ok a, c') k (raw, split, h, able) next =
      go (k a c') (next a raw c' h able)
    where
      go :
          (m : Expected B × Client p) → Consumes (λ b raw'. S b (raw ++ raw')) c' m → Consumes S c m
      go (ok b, c2) (raw', split', h', able') = (
        raw ++ raw',
        split ∙ ap (λ l. raw ++ l) split' ∙ sym (append_assoc raw raw' (unread c2)),
        h',
        able',
      )
      go (err e, c2) (lost, split', able') = (
        raw ++ lost,
        split ∙ ap (λ l. raw ++ l) split' ∙ sym (append_assoc raw lost (unread c2)),
        able',
      )
      go (out_of_fuel, c2) x = absurd x
  Consumes-then S c (err e, c') k h next = h
  Consumes-then S c (out_of_fuel, c') k h next = absurd h

  pub Consumes-map :
      {A : Type 0} {R S : A → List ℕ → Type 0} (c : Client p) (m : Expected A × Client p)
      → ((a : A) (raw : List ℕ) → R a raw → S a raw)
      → Consumes R c m
      → Consumes S c m
  Consumes-map c (ok a, c') f (raw, split, h, able) = (raw, split, f a raw h, able)
  Consumes-map c (err e, c') f h = h
  Consumes-map c (out_of_fuel, c') f h = h

  -- A guard, and what follows where it is passed
  pub Consumes-if :
      {B : Type 0} (S : B → List ℕ → Type 0) (c : Client p) (bad : Bool) (e : WsError)
      (k : Unit {0} → M (Client p) B)
      → Able c
      → (bad ≡ false → Consumes S c (k tt c))
      → Consumes S c (after (fail_if bad e c) k)
  Consumes-if S c true e k able next = ([], refl, able)
  Consumes-if S c false e k able next = next refl

  pub Consumes-read : (n : ℕ) (c : Client p) → Able c → Consumes (Exactly n) c (read p n c)
  Consumes-read n c (ready, bytes) =
      go (read_exact p.transport n c.socket) refl (read_exact_lem r n c.socket ready)
    where
      go :
          (m : Expected (List ℕ) × BufferedSocket p.transport)
          → read_exact p.transport n c.socket ≡ m
          → ReadExactly r n c.socket m
          → Consumes (Exactly n) c (read p n c)
      go (ok xs, s) e (long, split, ready') =
          let halves : AreBytes xs × AreBytes (pending r s) =
            AreBytes-split xs (pending r s) (subst AreBytes split bytes) in
          rw e (xs, split, (refl, long, halves.0), (ready', halves.1))
      go (err x, s) e (lost, split, _, ready') =
          let halves : AreBytes lost × AreBytes (pending r s) =
            AreBytes-split lost (pending r s) (subst AreBytes split bytes) in
          rw e (lost, split, (ready', halves.1))
      go (out_of_fuel, s) e x = absurd x
