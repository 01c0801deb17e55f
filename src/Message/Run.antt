-- ===== src/Message/Run.antt =====
-- The state that the calls of src/message share: a journal and the memory behind its allocator. Parts,
-- messages and cursors point to the journal, so a call is given it and answers it again.
use protobluff.Common.{◌≡◌, ◌≢◌, refl}
use protobluff.Core.Types.{Error, Outcome, ok, err}
use protobluff.Message.Journal.{Journal, Journaled}

-- What a run comes to: an answer, undefined behaviour, or a loop whose fuel is used up.
pub data Run {ℓ} (A : Type ℓ) : Type ℓ where
  done : A → Run A
  fault : Run A
  out_of_fuel : Run A

-- A sequence of calls that only read.
abbrev pub on_done {ℓ κ} : {A : Type ℓ} {B : Type κ} → Run A → (A → Run B) → Run B
on_done (done x) k = k x
on_done fault k = fault
on_done out_of_fuel k = out_of_fuel

pub record State (M : Type 0) : Type 0 where
  pub journal : Journal
  pub memory : M

abbrev pub Act : Type 0 → Type 0 → Type 0
Act M A = State M → Run (A × State M)

module _ {M A : Type 0} where
  abbrev pub pure : A → Act M A
  pure x s = done (x, s)

module _ {M A B : Type 0} where
  abbrev pub and_then : Run (A × State M) → (A → Act M B) → Run (B × State M)
  and_then (done (x, s)) k = k x s
  and_then fault k = fault
  and_then out_of_fuel k = out_of_fuel

  infixl 5 ◌>>=◌
  abbrev pub ◌>>=◌ : Act M A → (A → Act M B) → Act M B
  m >>= k = λ s. and_then (m s) k

  -- Inversion of a run that answers.
  pub and_then-eq-done :
      (r : Run (A × State M)) (k : A → Act M B) {y : B × State M}
      → and_then r k ≡ done y
      → (x : A) × (s : State M) × (r ≡ done (x, s)) × (k x s ≡ done y)
  and_then-eq-done (done (x, s)) k e = (x, s, refl, e)
  and_then-eq-done fault k e = cc
  and_then-eq-done out_of_fuel k e = cc

  -- A sequence whose parts do not use up their fuel does not.
  pub and_then-≢-out_of_fuel :
      (r : Run (A × State M)) (k : A → Act M B)
      → r ≢ out_of_fuel
      → ((x : A) (s : State M) → k x s ≢ out_of_fuel)
      → and_then r k ≢ out_of_fuel
  and_then-≢-out_of_fuel (done (x, s)) k h f e = f x s e
  and_then-≢-out_of_fuel fault k h f e = cc
  and_then-≢-out_of_fuel out_of_fuel k h f e = h refl

module _ {M : Type 0} where
  -- A call that works on the journal in place. The calls of journal.c answer their error as a value.
  abbrev pub journaled : Outcome (Journaled M) → Run (Error × State M)
  journaled (ok (e, j, m)) = done (e, record { journal = j; memory = m })
  journaled (err e) = fault
  journaled Outcome.fault = fault
