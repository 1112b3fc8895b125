-- ===== src/BufferedSocket/Writing.antt =====
-- `write`: everything, in order, or a prefix and an error.
use websocketclient_cpp.Prelude.{
  ℕ, zero, suc, ◌≤◌, ◌≡◌, refl, ap, sym, ◌∙◌, arith, List, [], ◌∷◌, ◌++◌, length, take, drop,
  append_assoc, append-nil, take-append-drop, length-drop,
}
use websocketclient_cpp.Errors.{Expected, ok, err, out_of_fuel}
use websocketclient_cpp.Errors.Steps.{bind_ok, bind_err}
use websocketclient_cpp.Transport.{Transport, Writes}
use websocketclient_cpp.BufferedSocket.{BufferedSocket, write_loop, write, on_socket}

module _ {t : Transport} (w : Writes t) where
  -- The bytes that the peer was sent
  abbrev pub sent : BufferedSocket t → List ℕ
  sent s = w.output s.socket

  -- What writing `bytes` leaves: all of them sent on success, and a part from their front on an error.
  -- The read buffer is as it was.
  abbrev pub Written :
      {A : Type 0} → List ℕ → BufferedSocket t → Expected A × BufferedSocket t → Type 0
  Written bytes s (ok _, s') = (sent s' ≡ sent s ++ bytes) × (s'.read_buffer ≡ s.read_buffer)
  Written bytes s (err e, s') =
      (part : List ℕ) × (rest : List ℕ) × (part ++ rest ≡ bytes)
      × (sent s' ≡ sent s ++ part)
      × (s'.read_buffer ≡ s.read_buffer)
  Written bytes s (out_of_fuel, s') = ⊥

  -- A round that sent the first `n` bytes, and the rest of the loop
  after_round :
      (fuel n : ℕ) (bytes : List ℕ) (s s1 : BufferedSocket t)
      → sent s1 ≡ sent s ++ take n bytes
      → s1.read_buffer ≡ s.read_buffer
      → (m : Expected (Unit {0}) × BufferedSocket t) → Written (drop n bytes) s1 m
      → Written bytes s m
  after_round fuel n bytes s s1 e b (ok u, s') (e', b') = (
    e'
        ∙ ap (λ l. l ++ drop n bytes) e
        ∙ append_assoc (sent s) (take n bytes) (drop n bytes)
        ∙ ap (λ l. sent s ++ l) (take-append-drop n bytes),
    b' ∙ b,
  )
  after_round fuel n bytes s s1 e b (err x, s') (part, rest, split, e', b') = (
    take n bytes ++ part,
    rest,
    append_assoc (take n bytes) part rest
        ∙ ap (λ l. take n bytes ++ l) split
        ∙ take-append-drop n bytes,
    e' ∙ ap (λ l. l ++ part) e ∙ append_assoc (sent s) (take n bytes) part,
    b' ∙ b,
  )
  after_round fuel n bytes s s1 e b (out_of_fuel, s') x = absurd x

  round :
      (fuel b : ℕ) (rest : List ℕ) (s : BufferedSocket t)
      → ((bytes : List ℕ) (s' : BufferedSocket t)
          → length bytes ≤ fuel
          → Written bytes s' (write_loop t fuel bytes s'))
      → length rest ≤ fuel
      → Written (b ∷ rest) s (write_loop t (suc fuel) (b ∷ rest) s)
  unfolding write_loop
  round fuel b rest s more h = go (t.write_some (b ∷ rest) s.socket) refl
    where
      go :
          (m : Expected ℕ × t.State)
          → t.write_some (b ∷ rest) s.socket ≡ m
          → Written (b ∷ rest) s (write_loop t (suc fuel) (b ∷ rest) s)
      go (ok n, socket) e =
          let (pos, small, out) = w.writes_some (b ∷ rest) s.socket socket n (omega arith) e in
          let s1 : BufferedSocket t = record s { socket = socket } in
          rw
            (bind_ok (on_socket t (t.write_some (b ∷ rest)))
              (λ written. write_loop t fuel (drop written (b ∷ rest))) {s = s}
              (ap (λ p. (p.0, record s { socket = p.1 })) e))
            (after_round fuel n (b ∷ rest) s s1 out refl (write_loop t fuel (drop n (b ∷ rest)) s1)
              (more (drop n (b ∷ rest)) s1 (omega (arith, length-drop n (b ∷ rest)))))
      go (err x, socket) e =
          rw
            (bind_err (on_socket t (t.write_some (b ∷ rest)))
              (λ written. write_loop t fuel (drop written (b ∷ rest))) {s = s}
              (ap (λ p. (p.0, record s { socket = p.1 })) e))
            (
              [],
              b ∷ rest,
              refl,
              w.write_fails (b ∷ rest) s.socket socket x e ∙ sym (append-nil (sent s)),
              refl,
            )
      go (out_of_fuel, socket) e = absurd (w.write_ends (b ∷ rest) s.socket (ap (λ p. p.0) e))

  write_loop_lem :
      (fuel : ℕ) (bytes : List ℕ) (s : BufferedSocket t)
      → length bytes ≤ fuel
      → Written bytes s (write_loop t fuel bytes s)
  unfolding write_loop
  write_loop_lem fuel [] s h = (sym (append-nil (sent s)), refl)
  write_loop_lem zero (b ∷ rest) s h = absurd (omega arith)
  write_loop_lem (suc fuel) (b ∷ rest) s h =
      round fuel b rest s (λ bytes s' h'. write_loop_lem fuel bytes s' h') (omega arith)

  -- `write` ends: on success the peer was sent all bytes, in order, and on an error a part from
  -- their front. The read buffer is as it was.
  pub write_lem : (bytes : List ℕ) (s : BufferedSocket t) → Written bytes s (write t bytes s)
  unfolding write
  write_lem bytes s = write_loop_lem (length bytes) bytes s (omega arith)
