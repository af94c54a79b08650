-- ===== src/Go.antt =====
-- What the Go code returns: errors as values, and the panics of the runtime.
use caffe2_operator.Prelude.{
  String, Bool, true, false, Option, none, some, ◌≡◌, refl, ◌⊎◌, inl, inr,
}

-- The reasons of an API server's `Status` error that the operator tells apart
-- (`errors.IsNotFound`, `IsInvalid`, `IsTimeout`, `IsAlreadyExists`).
pub data Reason : Type 0 where
  not_found invalid timeout already_exists other : Reason

pub data Error : Type 0 where
  -- an error of the API server, with its text
  status : Reason → String → Error
  -- an error made by `fmt.Errorf` or `errors.New`
  message : String → Error

-- `err.Error()`, which `%v` prints
abbrev pub error_text : Error → String
error_text (status r s) = s
error_text (message s) = s

abbrev pub is_not_found : Error → Bool
is_not_found (status Reason.not_found s) = true
is_not_found _ = false

abbrev pub is_invalid : Error → Bool
is_invalid (status Reason.invalid s) = true
is_invalid _ = false

abbrev pub is_timeout : Error → Bool
is_timeout (status Reason.timeout s) = true
is_timeout _ = false

-- `(value, err)` of a function that returns one or the other.
pub data Result {ℓ} (A : Type ℓ) : Type ℓ where
  ok : A → Result A
  err : Error → Result A

pub data Panic : Type 0 where
  nil_dereference negative_length out_of_range wrong_type nil_map : Panic
  -- `panic(err)`
  panicked : Error → Panic

-- A call that may panic.
pub data Outcome {ℓ} (A : Type ℓ) : Type ℓ where
  returns : A → Outcome A
  panics : Panic → Outcome A

infixl 5 ◌>>=◌
abbrev pub ◌>>=◌ {ℓ κ} : {A : Type ℓ} {B : Type κ} → Outcome A → (A → Outcome B) → Outcome B
returns a >>= f = f a
panics p >>= f = panics p

pub >>=_congr {ℓ κ} :
    {A : Type ℓ} {B : Type κ} (m : Outcome A) (f g : A → Outcome B)
    → ((a : A) → f a ≡ g a)
    → (m >>= f) ≡ (m >>= g)
>>=_congr (returns a) f g h = h a
>>=_congr (panics p) f g h = refl

-- `*p`
abbrev pub deref {ℓ} : {A : Type ℓ} → Option A → Outcome A
deref none = panics nil_dereference
deref (some a) = returns a

-- What a call returns, if it returns, satisfies `P`.
abbrev pub Ends {ℓ} : {A : Type ℓ} → (A → Type 0) → Outcome A → Type 0
Ends P (returns a) = P a
Ends P (panics p) = Unit

pub Ends-bind {ℓ κ} :
    {A : Type ℓ} {B : Type κ} (P : B → Type 0) (m : Outcome A) (f : A → Outcome B)
    → ((a : A) → Ends P (f a))
    → Ends P (m >>= f)
Ends-bind P (returns a) f h = h a
Ends-bind P (panics p) f h = tt

-- The same, with what is known of the first call.
pub Ends-then {ℓ κ} :
    {A : Type ℓ} {B : Type κ} (Q : A → Type 0) (P : B → Type 0) (m : Outcome A) (f : A → Outcome B)
    → Ends Q m
    → ((a : A) → Q a → Ends P (f a))
    → Ends P (m >>= f)
Ends-then Q P (returns a) f q h = h a q
Ends-then Q P (panics p) f q h = tt

pub Ends-deref {ℓ κ} :
    {A : Type ℓ} {B : Type κ} (P : B → Type 0) (o : Option A) (a : A) (f : A → Outcome B)
    → o ≡ some a
    → Ends P (f a)
    → Ends P (deref o >>= f)
Ends-deref P o a f e h = rw e h

pub Ends-map {ℓ} :
    {A : Type ℓ} (P Q : A → Type 0) (m : Outcome A) → ((a : A) → P a → Q a) → Ends P m → Ends Q m
Ends-map P Q (returns a) f h = f a h
Ends-map P Q (panics p) f h = tt

-- The call returns, and what it returns satisfies `P`: it does not panic.
abbrev pub Runs {ℓ} : {A : Type ℓ} → (A → Type 0) → Outcome A → Type 0
Runs P (returns a) = P a
Runs P (panics p) = ⊥

pub Runs-then {ℓ κ} :
    {A : Type ℓ} {B : Type κ} (Q : A → Type 0) (P : B → Type 0) (m : Outcome A) (f : A → Outcome B)
    → Runs Q m
    → ((a : A) → Q a → Runs P (f a))
    → Runs P (m >>= f)
Runs-then Q P (returns a) f q h = h a q
Runs-then Q P (panics p) f q h = q

pub Runs-deref {ℓ κ} :
    {A : Type ℓ} {B : Type κ} (P : B → Type 0) (o : Option A) (a : A) (f : A → Outcome B)
    → o ≡ some a
    → Runs P (f a)
    → Runs P (deref o >>= f)
Runs-deref P o a f e h = rw e h

-- What returns, and satisfies `P` if it returns, satisfies `P`.
pub Runs-Ends {ℓ} : {A : Type ℓ} (Q P : A → Type 0) (m : Outcome A) → Runs Q m → Ends P m → Runs P m
Runs-Ends Q P (returns a) q h = h
Runs-Ends Q P (panics p) q h = q

pub Runs-both {ℓ} :
    {A : Type ℓ} (P Q : A → Type 0) (m : Outcome A) → Runs P m → Ends Q m → Runs (λ a. Q a × P a) m
Runs-both P Q (returns a) p q = (q, p)
Runs-both P Q (panics e) p q = p

pub Result-cases {ℓ} :
    {A : Type ℓ} (r : Result A) → ((e : Error) × (r ≡ err e)) ⊎ ((a : A) × (r ≡ ok a))
Result-cases (ok a) = inr (a, refl)
Result-cases (err e) = inl (e, refl)

pub Runs-value {ℓ} :
    {A : Type ℓ} (P : A → Type 0) (m : Outcome A) → Runs P m → (a : A) × (m ≡ returns a) × P a
Runs-value P (returns a) h = (a, refl, h)
Runs-value P (panics p) h = absurd h

-- What `Ends` says of a call that returned.
pub Ends-at {ℓ} :
    {A : Type ℓ} (P : A → Type 0) (m : Outcome A) (a : A) → Ends P m → m ≡ returns a → P a
Ends-at P m a h e = rw e at h

pub Ends-both {ℓ} :
    {A : Type ℓ} (P Q : A → Type 0) (m : Outcome A) → Ends P m → Ends Q m → Ends (λ a. P a × Q a) m
Ends-both P Q (returns a) p q = (p, q)
Ends-both P Q (panics e) p q = tt

pub Ends-all {ℓ} : {A : Type ℓ} (P : A → Type 0) (m : Outcome A) → ((a : A) → P a) → Ends P m
Ends-all P (returns a) h = h a
Ends-all P (panics e) h = tt

pub Runs-map {ℓ} :
    {A : Type ℓ} (P Q : A → Type 0) (m : Outcome A) → ((a : A) → P a → Q a) → Runs P m → Runs Q m
Runs-map P Q (returns a) f h = f a h
Runs-map P Q (panics p) f h = h

-- Of two calls in turn, the first is known.
pub deref-then {ℓ κ} :
    {A : Type ℓ} {B : Type κ} (o : Option A) (a : A) (f : A → Outcome B) (r : Outcome B)
    → o ≡ some a
    → f a ≡ r
    → (deref o >>= f) ≡ r
deref-then o a f r e h = rw e h

pub panics-then {ℓ κ} :
    {A : Type ℓ} {B : Type κ} (m : Outcome A) (p : Panic) (f : A → Outcome B)
    → m ≡ panics p
    → (m >>= f) ≡ panics p
panics-then m p f e = rw e refl
