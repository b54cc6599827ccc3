-- ===== src/Fs/Checked.antt =====
-- Code that fails and makes no call of the system.
use conda_ship.Prelude.{Bool, true, false, Option, none, some, ◌≡◌, refl}
use conda_ship.Fs.Failure.{Failure}
use conda_ship.Fs.Calls.{M, return, fail}

pub data Checked {ℓ} (A : Type ℓ) : Type ℓ where
  accepted : A → Checked A
  rejected : Failure → Checked A

infixl 5 ◌>>=◌ ◌>>◌
abbrev pub ◌>>=◌ {ℓ κ} : {A : Type ℓ} {B : Type κ} → Checked A → (A → Checked B) → Checked B
accepted a >>= f = f a
rejected e >>= f = rejected e

abbrev pub ◌>>◌ {κ} : {B : Type κ} → Checked (Unit {0}) → Checked B → Checked B
m >> k = m >>= λ _. k

abbrev pub require : Bool → Failure → Checked (Unit {0})
require true e = accepted tt
require false e = rejected e

abbrev pub need {ℓ} : {A : Type ℓ} → Option A → Failure → Checked A
need none e = rejected e
need (some a) e = accepted a

-- The same in code that makes calls.
abbrev pub lift : {A : Type 0} → Checked A → M A
lift (accepted a) = return a
lift (rejected e) = fail e

pub accepted_eq {ℓ} : {A : Type ℓ} (a b : A) → accepted a ≡ accepted b → a ≡ b
accepted_eq a b h = cc h

module _ {κ} {B : Type κ} {b : B} where
  -- What a run that is accepted has passed.
  pub require_passed :
      (c : Bool) (e : Failure) (k : Checked B)
      → (require c e >> k) ≡ accepted b
      → (c ≡ true) × (k ≡ accepted b)
  require_passed true e k h = (refl, h)
  require_passed false e k h = absurd (cc h)

  pub need_passed {ℓ} :
      {A : Type ℓ} (o : Option A) (e : Failure) (f : A → Checked B)
      → (need o e >>= f) ≡ accepted b
      → (a : A) × ((o ≡ some a) × (f a ≡ accepted b))
  need_passed none e f h = absurd (cc h)
  need_passed (some a) e f h = (a, (refl, h))

  pub bind_passed {ℓ} :
      {A : Type ℓ} (m : Checked A) (f : A → Checked B)
      → (m >>= f) ≡ accepted b
      → (a : A) × ((m ≡ accepted a) × (f a ≡ accepted b))
  bind_passed (accepted a) f h = (a, (refl, h))
  bind_passed (rejected e) f h = absurd (cc h)

pub require_accepted : (c : Bool) (e : Failure) → require c e ≡ accepted tt → c ≡ true
require_accepted true e h = refl
require_accepted false e h = absurd (cc h)
