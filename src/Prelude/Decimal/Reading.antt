-- ===== src/Prelude/Decimal/Reading.antt =====
-- A number in front of other text: its digits are read back up to what follows them.
use Prim.Native.Nat.{ℕ, zero, suc, ◌+◌, ◌-◌, ◌*◌, ◌/◌, ◌%◌, ◌<◌}
use Prim.Native.Char.{Char, code}
use Prim.Native.String.{String}
use mathlib.Core.Path.{◌≡◌, refl, ap, ◌∙◌}
use mathlib.Core.Logic.{inl, inr}
use mathlib.Core.Bool.{Bool, true, false, ◌&&◌}
use native.Mathlib.Omega.{arith}
use text.Mathlib.TextLemmas.{cons-append, nil-append}
use caffe2_operator.Prelude.Tests.{ltb, leb, Bool-cases}
use caffe2_operator.Prelude.Text.{◌<>◌}
use caffe2_operator.Prelude.Decimal.{digit, digits, itoa}
use caffe2_operator.Prelude.Decimal.RoundTrip.{code-digit}

abbrev pub is_digit : Char → Bool
is_digit c = leb 48 (code c) && leb (code c) 57

-- The digits in front of a text, after `n`; and the rest.
unfoldable pub read_digits : ℕ → String → ℕ × String
read_digits n String.[] = (n, "")
read_digits n (String.◌∷◌ c s) = elim (is_digit c) [
  | true ↦ read_digits (n * 10 + (code c - 48)) s
  | false ↦ (n, String.◌∷◌ c s)
]

read_digits-digit :
    (d n m : ℕ) (s : String)
    → d < 10
    → n * 10 + d ≡ m
    → read_digits n (String.◌∷◌ (digit d) s) ≡ read_digits m s
unfolding read_digits
read_digits-digit d n m s h e =
    rw (digit-is_digit d h, read_digits)
      (ap (λ i. read_digits i s) (omega (arith, e, code-digit d h)))
  where
    digit-is_digit : (d : ℕ) → d < 10 → is_digit (digit d) ≡ true
    digit-is_digit d h = ground (arith, code-digit d h)

read_digits-digits :
    (fuel n : ℕ) (s : String) → n < fuel → read_digits 0 (digits fuel n s) ≡ read_digits n s
unfolding digits
read_digits-digits zero n s h = absurd (omega arith)
read_digits-digits (suc fuel) n s h = elim (Bool-cases (ltb n 10)) [
  | inl small ↦ rw small (read_digits-digit n 0 n s (ground arith) (omega arith))
  | inr big ↦ rw big (
      read_digits-digits fuel (n / 10) (String.◌∷◌ (digit (n % 10)) s) (ground arith)
      ∙ read_digits-digit (n % 10) (n / 10) n s (omega arith) (omega arith))
]

digits-append : (fuel n : ℕ) (s t : String) → (digits fuel n s <> t) ≡ digits fuel n (s <> t)
unfolding digits
digits-append zero n s t = refl
digits-append (suc fuel) n s t = elim (Bool-cases (ltb n 10)) [
  | inl small ↦ rw small (cons-append (digit n) s t)
  | inr big ↦ rw big (
      digits-append fuel (n / 10) (String.◌∷◌ (digit (n % 10)) s) t
      ∙ ap (digits fuel (n / 10)) (cons-append (digit (n % 10)) s t))
]

-- What `strconv.Itoa` writes, in front of a text that does not begin with a digit, is read back.
pub read_digits-itoa :
    (n : ℕ) (c : Char) (t : String)
    → is_digit c ≡ false
    → read_digits 0 (itoa n <> String.◌∷◌ c t) ≡ (n, String.◌∷◌ c t)
unfolding itoa read_digits
read_digits-itoa n c t h =
    ap (read_digits 0) (
      digits-append (suc n) n "" (String.◌∷◌ c t)
      ∙ ap (digits (suc n) n) (nil-append (String.◌∷◌ c t)))
    ∙ read_digits-digits (suc n) n (String.◌∷◌ c t) (omega arith)
    ∙ stops h
  where
    stops : is_digit c ≡ false → read_digits n (String.◌∷◌ c t) ≡ (n, String.◌∷◌ c t)
    stops e = rw (e, read_digits) refl
