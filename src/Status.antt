-- ===== src/Status.antt =====
-- The outcomes of the fallible operations (`Status`, from the repository's `utils`, whose code is
-- not here). The kinds are those that the sources build or ask for; messages are left out.
use content_based.Base.{◌≡◌, refl, ◌⊎◌, inl, inr, Bool, true, false}

pub data Status : Type 0 where
  ok not_found corruption io_error invalid_data other : Status

abbrev pub is_ok : Status → Bool
is_ok Status.ok = true
is_ok _ = false

-- A method of an object with state `S`, that reports a status.
abbrev pub Run {ℓ} : Type ℓ → Type ℓ
Run S = S → Status × S

-- `if (!status.ok()) return status;` between two calls.
abbrev pub then_run {ℓ} : {S : Type ℓ} → Status × S → Run S → Status × S
then_run (Status.ok, s) k = k s
then_run (Status.not_found, s) k = (Status.not_found, s)
then_run (Status.corruption, s) k = (Status.corruption, s)
then_run (Status.io_error, s) k = (Status.io_error, s)
then_run (Status.invalid_data, s) k = (Status.invalid_data, s)
then_run (Status.other, s) k = (Status.other, s)

infixl 5 ◌>>◌
abbrev pub ◌>>◌ {ℓ} : {S : Type ℓ} → Run S → Run S → Run S
◌>>◌ m k s = then_run (m s) k

-- A method that changes nothing and succeeds: `return Status::OK();`.
abbrev pub succeed {ℓ} : {S : Type ℓ} → Run S
succeed s = (Status.ok, s)

pub is_ok→ok : (e : Status) → is_ok e ≡ true → e ≡ Status.ok
is_ok→ok Status.ok h = refl
is_ok→ok _ h = cc

-- A sequence that succeeds has a first part that succeeds, and goes on from where that ended.
pub then_run-ok {ℓ} :
    {S : Type ℓ} (m : Status × S) (k : Run S)
    → (then_run m k).0 ≡ Status.ok
    → (m.0 ≡ Status.ok) × (then_run m k ≡ k m.1)
then_run-ok (Status.ok, s) k h = (refl, refl)
then_run-ok (_, s) k h = (cc, cc)

-- What holds after both parts, whether or not the first succeeds.
pub then_run_keeps {ℓ κ} :
    {S : Type ℓ} (P : S → Type κ) (m : Status × S) (k : Run S)
    → P m.1
    → (P m.1 → P (k m.1).1)
    → P (then_run m k).1
then_run_keeps P (Status.ok, s) k h g = g h
then_run_keeps P (_, s) k h g = h

-- A sequence stops at its first part, or goes on from where that ended.
pub then_run_cases {ℓ} :
    {S : Type ℓ} (m : Status × S) (k : Run S)
    → (then_run m k ≡ m) ⊎ ((m.0 ≡ Status.ok) × (then_run m k ≡ k m.1))
then_run_cases (Status.ok, s) k = inr (refl, refl)
then_run_cases (_, s) k = inl refl

pub then_run_goes_on {ℓ} :
    {S : Type ℓ} (m : Status × S) (k : Run S) → m.0 ≡ Status.ok → then_run m k ≡ k m.1
then_run_goes_on (Status.ok, s) k h = refl
then_run_goes_on (_, s) k h = cc
