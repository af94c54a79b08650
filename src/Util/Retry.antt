-- ===== src/Util/Retry.antt =====
-- `Retry` of pkg/util/retryutil/retry_util.go. The function that is retried is a function of a state
-- that it changes; the ticker only waits.
pub mod Laws
use caffe2_operator.Prelude.{
  ℕ, zero, suc, ◌+◌, ◌==◌, String, Bool, true, false, Option, none, some, if◌then◌else◌,
}
use caffe2_operator.Prelude.Int.{ℤ, pos, negsuc, int_lt}
use caffe2_operator.Go.{Error}

-- The errors of `Retry`: its own two, and those of the function.
pub data RetryError : Type 0 where
  -- `maxRetries (%d) should be > 0`
  not_positive : ℤ → RetryError
  -- `still failing after %d retries`
  retry_error : ℤ → RetryError
  of_condition : Error → RetryError

-- `IsRetryFailure`
unfoldable pub is_retry_failure : RetryError → Bool
is_retry_failure (retry_error n) = true
is_retry_failure _ = false

-- A `ConditionFunc` with the state that it changes.
abbrev pub ConditionFunc {ℓ} : Type ℓ → Type ℓ
ConditionFunc S = S → (Bool × Option Error) × S

module _ {ℓ} {S : Type ℓ} (f : ConditionFunc S) where
  -- What a round that called `f` does, unless it is not the last: `rest` are the later rounds.
  judge : ℤ → Bool → (S → Option RetryError × S) → (Bool × Option Error) × S → Option RetryError × S
  judge max_retries last rest ((ok, some e), s) = (some (of_condition e), s)
  judge max_retries last rest ((true, none), s) = (none, s)
  judge max_retries last rest ((false, none), s) =
      if last then (some (retry_error max_retries), s) else rest s

  -- The loop from round `i` on, for at most `fuel` rounds; `i + 1 == maxRetries` ends it.
  unfoldable pub rounds : (fuel i n : ℕ) → S → Option RetryError × S
  unfolding judge
  rounds zero i n s = (some (retry_error (pos n)), s)
  rounds (suc fuel) i n s = judge (pos n) (i + 1 == n) (rounds fuel (i + 1) n) (f s)

  -- `Retry`, with `maxRetries` rounds as fuel.
  unfoldable pub retry : ℤ → S → Option RetryError × S
  unfolding rounds
  retry (negsuc m) s = (some (not_positive (negsuc m)), s)
  retry (pos zero) s = (some (not_positive (pos zero)), s)
  retry (pos (suc m)) s = rounds (suc m) 0 (suc m) s
