-- ===== src/BufferedSocket/Reading.antt =====
-- `read_exact`: the bytes that the peer sent, in order, none twice and none lost.
use websocketclient_cpp.Prelude.{
  ℕ, zero, suc, ◌-◌, ◌≤◌, ◌<◌, ◌≡◌, refl, ap, sym, ◌∙◌, arith, List, [], ◌++◌, length, take, drop,
  append_assoc, take-append-drop, length-take, length-append,
}
use websocketclient_cpp.Errors.{Expected, ok, err, out_of_fuel}
use websocketclient_cpp.Errors.Steps.{M, ◌>>=◌, pure, bind_ok, bind_err}
use websocketclient_cpp.CircularBuffer.{size}
use websocketclient_cpp.CircularBuffer.Valid.{IsValid}
use websocketclient_cpp.CircularBuffer.Contents.{contents, length-contents, size-le}
use websocketclient_cpp.CircularBuffer.Pop.{
  pop_all_lem, move_tail-IsValid, size-move_tail, contents-move_tail, move_tail_frame,
}
use websocketclient_cpp.Transport.{Transport, Reads}
use websocketclient_cpp.BufferedSocket.{
  BufferedSocket, read_loop, read_exact, fill_read_buffer, pop_bytes,
}
use websocketclient_cpp.BufferedSocket.Fill.{pending, fill_lem, Filled, Ready}

module _ {t : Transport} (r : Reads t) where
  -- What reading exactly `n` bytes leaves: on success the next `n` of the peer's bytes are the
  -- result, and on an error those that the call consumed are gone.
  abbrev pub ReadExactly : ℕ → BufferedSocket t → Expected (List ℕ) × BufferedSocket t → Type 0
  ReadExactly n s (ok bytes, s') =
      (length bytes ≡ n) × (pending r s ≡ bytes ++ pending r s') × Ready s'.read_buffer
  ReadExactly n s (err e, s') =
      (lost : List ℕ) × (pending r s ≡ lost ++ pending r s')
      × (length lost < n)
      × Ready s'.read_buffer
  ReadExactly n s (out_of_fuel, s') = ⊥

  abbrev Popped : ℕ → BufferedSocket t → Expected (List ℕ) × BufferedSocket t → Type 0
  Popped n s (ok bytes, s') =
      (length bytes ≡ n) × (pending r s ≡ bytes ++ pending r s') × Ready s'.read_buffer
  Popped n s (err e, s') = ⊥
  Popped n s (out_of_fuel, s') = ⊥

  pop_bytes_lem :
      (n : ℕ) (s : BufferedSocket t)
      → IsValid s.read_buffer
      → 0 < n
      → n ≤ size s.read_buffer
      → Popped n s (pop_bytes t n s)
  unfolding pending
  pop_bytes_lem n s v pos held = rw (pop_all_lem n v pos held) (
    omega (arith, length-take n (contents s.read_buffer), length-contents v),
    rw (contents-move_tail n v pos held) (
        ap (λ l. l ++ r.input s.socket) (sym (take-append-drop n (contents s.read_buffer)))
        ∙ append_assoc (take n (contents s.read_buffer)) (drop n (contents s.read_buffer))
            (r.input s.socket)),
    (
      move_tail-IsValid n v pos held,
      omega
          (arith, size-move_tail n v pos held, size-le v, v.tail_in, move_tail_frame n v pos held),
    ),
  )

  -- The state of `read_loop` after one round, and after the rest of the rounds
  round :
      (fuel remaining : ℕ) (s : BufferedSocket t)
      → ((n : ℕ) (s' : BufferedSocket t)
          → n ≤ fuel
          → Ready s'.read_buffer
          → ReadExactly n s' (read_loop t fuel n s'))
      → remaining ≤ fuel
      → Ready s.read_buffer
      → ReadExactly (suc remaining) s (read_loop t (suc fuel) (suc remaining) s)
  unfolding read_loop
  round fuel remaining s more enough v =
      filled (fill_read_buffer t (suc remaining) s) refl
        (fill_lem r (suc remaining) s v (omega arith))
    where
      rest_of : ℕ → M (BufferedSocket t) (List ℕ)
      rest_of n = pop_bytes t n >>= λ bytes.
          read_loop t fuel (suc remaining - n) >>= λ rest. pure (bytes ++ rest)

      after_rest :
          (n : ℕ) (bytes : List ℕ) (s2 : BufferedSocket t)
          → pending r s ≡ bytes ++ pending r s2
          → length bytes ≡ n
          → 0 < n
          → n ≤ suc remaining
          → (m : Expected (List ℕ) × BufferedSocket t) → read_loop t fuel (suc remaining - n) s2 ≡ m
          → ReadExactly (suc remaining - n) s2 m
          → ReadExactly
              (suc remaining)
              s
              ((read_loop t fuel (suc remaining - n) >>= λ rest. pure (bytes ++ rest)) s2)
      after_rest n bytes s2 split long pos small (ok rest, s3) q (long', split', w) =
          rw (bind_ok (read_loop t fuel (suc remaining - n)) _ q) (
            omega (arith, length-append bytes rest),
            split ∙ ap (λ l. bytes ++ l) split' ∙ sym (append_assoc bytes rest (pending r s3)),
            w,
          )
      after_rest n bytes s2 split long pos small (err x, s3) q (lost, split', short, w) =
          rw (bind_err (read_loop t fuel (suc remaining - n)) _ q) (
            bytes ++ lost,
            split ∙ ap (λ l. bytes ++ l) split' ∙ sym (append_assoc bytes lost (pending r s3)),
            omega (arith, length-append bytes lost),
            w,
          )
      after_rest n bytes s2 split long pos small (out_of_fuel, s3) q y = absurd y

      popped :
          (n : ℕ) (s' : BufferedSocket t)
          → pending r s' ≡ pending r s
          → 0 < n
          → n ≤ suc remaining
          → (m : Expected (List ℕ) × BufferedSocket t) → pop_bytes t n s' ≡ m
          → Popped n s' m
          → ReadExactly (suc remaining) s (rest_of n s')
      popped n s' same pos small (ok bytes, s2) q (long, split, w) =
          rw (bind_ok (pop_bytes t n) _ q) (
            after_rest n bytes s2 (sym same ∙ split) long pos small
              (read_loop t fuel (suc remaining - n) s2) refl
              (more (suc remaining - n) s2 (omega arith) w))
      popped n s' same pos small (err x, s2) q y = absurd y
      popped n s' same pos small (out_of_fuel, s2) q y = absurd y

      filled :
          (m : Expected ℕ × BufferedSocket t)
          → fill_read_buffer t (suc remaining) s ≡ m
          → Filled r (suc remaining) s m
          → ReadExactly (suc remaining) s (read_loop t (suc fuel) (suc remaining) s)
      filled (ok n, s') q (v', same, pos, small, held, _) =
          rw (bind_ok (fill_read_buffer t (suc remaining)) rest_of q)
            (popped n s' same pos small (pop_bytes t n s') refl (pop_bytes_lem n s' v' pos held))
      filled (err x, s') q (v', same) =
          rw (bind_err (fill_read_buffer t (suc remaining)) rest_of q)
            ([], sym same, omega arith, v')
      filled (out_of_fuel, s') q x = absurd x

  read_loop_lem :
      (fuel n : ℕ) (s : BufferedSocket t)
      → n ≤ fuel
      → Ready s.read_buffer
      → ReadExactly n s (read_loop t fuel n s)
  unfolding read_loop
  read_loop_lem fuel zero s h v = (refl, refl, v)
  read_loop_lem zero (suc n) s h v = absurd (omega arith)
  read_loop_lem (suc fuel) (suc n) s h v =
      round fuel n s (λ n' s' h' v'. read_loop_lem fuel n' s' h' v') (omega arith) v

  -- From a valid read buffer with room, `read_exact` ends: on success the result is the next `n` of
  -- the peer's bytes, in order, and what follows them is still to be read; on an error fewer than
  -- `n` bytes are gone from the front. The buffer is valid and has room again.
  pub read_exact_lem :
      (n : ℕ) (s : BufferedSocket t) → Ready s.read_buffer → ReadExactly n s (read_exact t n s)
  unfolding read_exact
  read_exact_lem n s v = read_loop_lem n n s (omega arith) v
