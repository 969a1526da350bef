-- ===== src/Prelude/Results.antt =====
-- Results of calls that may throw.
use mathlib.Core.Path.{◌≡◌, refl}
use mathlib.Core.Logic.{◌⊎◌, inl, inr}
use mathlib.Core.Bool.{Bool, true, false}
use mathlib.Core.Option.{Option, none, some}

pub data Result (E A : Type 0) : Type 0 where
  ok : A → Result E A
  err : E → Result E A

-- `if (!o) throw e`
abbrev pub or_throw : {E A : Type 0} → Option A → E → Result E A
or_throw none e = err e
or_throw (some a) e = ok a

-- `if (c) throw e`
abbrev pub throw_if : {E : Type 0} → Bool → E → Result E (Unit {0})
throw_if false e = ok tt
throw_if true e = err e

infixl 5 ◌>>=◌ ◌>>◌
abbrev pub ◌>>=◌ : {E A B : Type 0} → Result E A → (A → Result E B) → Result E B
err e >>= next = err e
ok value >>= next = next value

abbrev pub ◌>>◌ : {E B : Type 0} → Result E (Unit {0}) → Result E B → Result E B
check >> after = check >>= λ _. after

pub Result-cases :
    {E A : Type 0} (r : Result E A) → ((a : A) × (r ≡ ok a)) ⊎ ((e : E) × (r ≡ err e))
Result-cases (ok a) = inl (a, refl)
Result-cases (err e) = inr (e, refl)

-- What a chain that returns has passed: its first call, and the rest on that call's value.
pub >>=-eq-ok :
    {E V W : Type 0} (call : Result E V) (next : V → Result E W) {w : W}
    → (call >>= next) ≡ ok w
    → (v : V) × (call ≡ ok v) × (next v ≡ ok w)
>>=-eq-ok (err e) next returned = cc
>>=-eq-ok (ok v) next returned = (v, refl, returned)

-- A value that is returned behind three guards has passed them all.
pub guards-eq-ok :
    {E W : Type 0} (a b c : Bool) (e e' e'' : E) (v : W) {w : W}
    → (throw_if a e >> (throw_if b e' >> (throw_if c e'' >> ok v))) ≡ ok w
    → (a ≡ false) × (b ≡ false) × (c ≡ false) × (v ≡ w)
guards-eq-ok true b c e e' e'' v h = cc
guards-eq-ok false true c e e' e'' v h = cc
guards-eq-ok false false true e e' e'' v h = cc
guards-eq-ok false false false e e' e'' v h = (refl, refl, refl, cc)

pub ok_inj : {E A : Type 0} {a b : A} → ◌≡◌ {A = Result E A} (ok a) (ok b) → a ≡ b
ok_inj h = cc
