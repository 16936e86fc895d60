-- ===== src/Outcome.antt =====
-- The result of a call that may run into undefined behaviour, may throw, or is given too few rounds
-- for its loop. An exception carries the message of `lite3cpp::exception`.
use Prim.Native.String.{String}
use lite3_cpp.Base.{◌≡◌, refl}

pub data Outcome {ℓ} (A : Type ℓ) : Type ℓ where
  ok : A → Outcome A
  throws : String → Outcome A
  undefined : Outcome A
  out_of_fuel : Outcome A

infixl 5 ◌>>=◌
abbrev pub ◌>>=◌ {ℓ κ} : {A : Type ℓ} {B : Type κ} → Outcome A → (A → Outcome B) → Outcome B
ok a >>= f = f a
throws e >>= f = throws e
undefined >>= f = undefined
out_of_fuel >>= f = out_of_fuel

-- `try { return m; } catch (...) { return c; }`
abbrev pub catch {ℓ} : {A : Type ℓ} → Outcome A → Outcome A → Outcome A
catch (ok a) c = ok a
catch (throws e) c = c
catch undefined c = undefined
catch out_of_fuel c = out_of_fuel

module _ {ℓ κ} {A : Type ℓ} {B : Type κ} (k : A → Outcome B) (b : B) where
  -- A call that returns has returned before its continuation did.
  pub >>=-eq-ok : (r : Outcome A) → (r >>= k) ≡ ok b → (a : A) × (r ≡ ok a) × (k a ≡ ok b)
  >>=-eq-ok (ok a) returned = (a, refl, returned)
  >>=-eq-ok (throws e) returned = cc
  >>=-eq-ok undefined returned = cc
  >>=-eq-ok out_of_fuel returned = cc
