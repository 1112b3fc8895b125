-- ===== src/Errors/Steps.antt =====
-- Calls that change a state and may fail. The state is passed on in either case: what happened
-- before an early return has happened.
use websocketclient_cpp.Prelude.{Bool, true, false, ◌≡◌, refl, ap, arith}
use websocketclient_cpp.Errors.{WsError, Expected, ok, err, out_of_fuel}

abbrev pub M : Type 0 → Type 0 → Type 0
M S A = S → Expected A × S

abbrev pub after : {S A B : Type 0} → Expected A × S → (A → M S B) → Expected B × S
after (ok a, s) f = f a s
after (err e, s) f = (err e, s)
after (out_of_fuel, s) f = (out_of_fuel, s)

-- `WS_TRY`, `WS_TRYV` and their `_RAW` forms: an error returns at once.
infixl 5 ◌>>=◌ ◌>>◌
abbrev pub ◌>>=◌ : {S A B : Type 0} → M S A → (A → M S B) → M S B
◌>>=◌ m f s = after (m s) f

abbrev pub ◌>>◌ : {S A B : Type 0} → M S A → M S B → M S B
m >> k = m >>= λ _. k

abbrev pub pure : {S A : Type 0} → A → M S A
pure a s = (ok a, s)

abbrev pub fail : {S A : Type 0} → WsError → M S A
fail e s = (err e, s)

-- A loop whose fuel is spent
abbrev pub spin : {S A : Type 0} → M S A
spin s = (out_of_fuel, s)

abbrev pub get : {S : Type 0} → M S S
get s = (ok s, s)

abbrev pub put : {S : Type 0} → S → M S (Unit {0})
put s _ = (ok tt, s)

-- `if (bad) return WSError(…);`
abbrev pub fail_if : {S : Type 0} → Bool → WsError → M S (Unit {0})
fail_if true e s = (err e, s)
fail_if false e s = (ok tt, s)

-- A call that does not touch the state
abbrev pub of_result : {S A : Type 0} → Expected A → M S A
of_result r s = (r, s)

-- What a call returns and leaves, where it is known, is what the rest of the block goes on with.
pub bind_ok :
    {S A B : Type 0} (m : M S A) (f : A → M S B) {a : A} {s s' : S}
    → m s ≡ (ok a, s')
    → (m >>= f) s ≡ f a s'
bind_ok m f e = ap (λ r. after r f) e

pub bind_err :
    {S A B : Type 0} (m : M S A) (f : A → M S B) {e : WsError} {s s' : S}
    → m s ≡ (err e, s')
    → (m >>= f) s ≡ (err e, s')
bind_err m f h = ap (λ r. after r f) h

-- A guard that is passed
pub pass_if :
    {S B : Type 0} (bad : Bool) (e : WsError) (f : Unit {0} → M S B) (s : S)
    → bad ≡ false
    → (fail_if bad e >>= f) s ≡ f tt s
pass_if bad e f s h = ap (λ b. after (fail_if b e s) f) h

-- A guard that is not
pub stop_if :
    {S B : Type 0} (bad : Bool) (e : WsError) (f : Unit {0} → M S B) (s : S)
    → bad ≡ true
    → (fail_if bad e >>= f) s ≡ (err e, s)
stop_if bad e f s h = ap (λ b. after (fail_if b e s) f) h

-- A block that succeeds has succeeded at its first step.
pub after_inv :
    {S A B : Type 0} (r : Expected A × S) (f : A → M S B) (b : B) (s' : S)
    → after r f ≡ (ok b, s')
    → (a : A) × (s1 : S) × (r ≡ (ok a, s1)) × (f a s1 ≡ (ok b, s'))
after_inv (ok a, s1) f b s' h = (a, s1, refl, h)
after_inv (err x, s1) f b s' h = absurd (ground (arith, h))
after_inv (out_of_fuel, s1) f b s' h = absurd (ground (arith, h))
