-- ===== src/Fault.antt =====
-- How code that runs in the kernel or in a system task ends: with a value, or stopped for good.
use lwos.Common.{Bool, true, false, ◌≡◌, refl}

-- `assertion`: an `assert` failed. `panic`: `panic` was called. `wild`: memory outside of the object
-- was read or written. `spin`: a loop that never ends.
pub data Fault : Type 0 where
  assertion panic wild spin : Fault

pub data Result {ℓ} (A : Type ℓ) : Type ℓ where
  err : Fault → Result A
  ok : A → Result A

-- `assert(b)` is `check b assertion`.
abbrev pub check : Bool → Fault → Result (Unit {0})
check false fault = err fault
check true _ = ok tt

infixl 5 ◌>>=◌
abbrev pub ◌>>=◌ {ℓ κ} : {S : Type ℓ} {T : Type κ} → Result S → (S → Result T) → Result T
err fault >>= _ = err fault
ok s >>= next = next s

infixl 5 ◌>>◌
abbrev pub ◌>>◌ {ℓ} : {T : Type ℓ} → Result (Unit {0}) → Result T → Result T
first >> second = first >>= λ done. second

pub ok-injective {ℓ} : {A : Type ℓ} {a b : A} → ok a ≡ ok b → a ≡ b
ok-injective h = cc

-- Code that came to its end did so step by step.
pub >>=-eq-ok {ℓ κ} :
    {S : Type ℓ} {T : Type κ} (run : Result S) (next : S → Result T) {t : T}
    → (run >>= next) ≡ ok t
    → (s : S) × (run ≡ ok s) × (next s ≡ ok t)
>>=-eq-ok (err fault) next e = cc
>>=-eq-ok (ok s) next e = (s, refl, e)

-- Code that came to its end behind an assertion found it true.
pub check-eq-ok {ℓ} :
    {T : Type ℓ} (b : Bool) (fault : Fault) (next : Result T) {t : T}
    → (check b fault >> next) ≡ ok t
    → (b ≡ true) × (next ≡ ok t)
check-eq-ok false fault next e = cc
check-eq-ok true fault next e = (refl, e)
