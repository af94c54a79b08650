-- ===== src/Util/Retry/Laws.antt =====
-- How often `retry` calls its function, and what it answers.
use caffe2_operator.Prelude.{
  ℕ, zero, suc, ◌+◌, ◌<◌, ◌==◌, ◌≡◌, refl, Bool, true, false, Option, none, some, arith,
}
use caffe2_operator.Prelude.Int.{pos}
use caffe2_operator.Go.{Error}
use caffe2_operator.Util.Retry.{
  RetryError, retry_error, of_condition, ConditionFunc, judge, rounds, retry,
}

is_last : (i limit : ℕ) → i + suc zero ≡ limit → (i + 1 == limit) ≡ true
is_last i limit h = ground arith

not_last : (n i limit : ℕ) → i + suc (suc n) ≡ limit → (i + 1 == limit) ≡ false
not_last n i limit h = ground arith

module _ (S : Type 0) (f : ConditionFunc S) where
  -- `n` calls from `s` on that neither succeed nor fail lead to `s'`.
  pub Undecided : ℕ → S → S → Type 0
  Undecided zero s s' = s ≡ s'
  Undecided (suc n) s s' = (s1 : S) × (f s ≡ ((false, none), s1)) × Undecided n s1 s'

  -- What at most `n` calls from `s` on come to, if `limit` is the number that the error names.
  pub data Answer (n limit : ℕ) (s : S) (r : Option RetryError × S) : Type 0 where
    succeeded :
        (k : ℕ) (s1 s2 : S)
        → k < n
        → Undecided k s s1
        → f s1 ≡ ((true, none), s2)
        → r ≡ (none, s2)
        → Answer n limit s r
    failed :
        (k : ℕ) (s1 s2 : S) (ok : Bool) (e : Error)
        → k < n
        → Undecided k s s1
        → f s1 ≡ ((ok, some e), s2)
        → r ≡ (some (of_condition e), s2)
        → Answer n limit s r
    gave_up :
        (s2 : S) → Undecided n s s2 → r ≡ (some (retry_error (pos limit)), s2) → Answer n limit s r

  -- One more call before.
  later :
      (n limit : ℕ) (s s1 : S) (r : Option RetryError × S)
      → f s ≡ ((false, none), s1)
      → Answer n limit s1 r
      → Answer (suc n) limit s r
  unfolding Undecided
  later n limit s s1 r e (succeeded k s2 s3 lt u d q) =
      succeeded (suc k) s2 s3 (omega arith) (s1, e, u) d q
  later n limit s s1 r e (failed k s2 s3 ok x lt u d q) =
      failed (suc k) s2 s3 ok x (omega arith) (s1, e, u) d q
  later n limit s s1 r e (gave_up s2 u q) = gave_up s2 (s1, e, u) q

  judge-Answer :
      (n i limit : ℕ) (s : S) (x : (Bool × Option Error) × S)
      → f s ≡ x
      → i + suc n ≡ limit
      → ((m : ℕ) (s1 : S) → n ≡ suc m → Answer n limit s1 (rounds f n (i + 1) limit s1))
      → Answer (suc n) limit s (judge f (pos limit) (i + 1 == limit) (rounds f n (i + 1) limit) x)
  unfolding judge Undecided
  judge-Answer n i limit s ((ok, some x), s1) e h rest =
      failed 0 s s1 ok x (omega arith) refl e refl
  judge-Answer n i limit s ((true, none), s1) e h rest = succeeded 0 s s1 (omega arith) refl e refl
  judge-Answer zero i limit s ((false, none), s1) e h rest =
      rw (is_last i limit h) (gave_up s1 (s1, e, refl) refl)
  judge-Answer (suc n) i limit s ((false, none), s1) e h rest =
      rw (not_last n i limit h)
        (later (suc n) limit s s1 (rounds f (suc n) (i + 1) limit s1) e (rest n s1 refl))

  rounds-Answer :
      (n i limit : ℕ) (s : S)
      → i + suc n ≡ limit
      → Answer (suc n) limit s (rounds f (suc n) i limit s)
  unfolding rounds
  rounds-Answer zero i limit s h =
      judge-Answer zero i limit s (f s) refl h (λ m s1 e. absurd (omega arith))
  rounds-Answer (suc n) i limit s h =
      judge-Answer (suc n) i limit s (f s) refl h
        (λ m s1 e. rounds-Answer n (i + 1) limit s1 (omega arith))

  -- For a positive `maxRetries`, `Retry` calls its function at most that often. It returns nil right
  -- after the first call that succeeds, the call's error right after the first call that fails, and a
  -- retry failure exactly where all of the calls were undecided.
  pub retry-Answer : (n : ℕ) (s : S) → Answer (suc n) (suc n) s (retry f (pos (suc n)) s)
  unfolding retry
  retry-Answer n s = rounds-Answer n 0 (suc n) s (omega arith)
