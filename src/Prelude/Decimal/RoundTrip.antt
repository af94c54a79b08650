-- ===== src/Prelude/Decimal/RoundTrip.antt =====
-- A number that was written in decimal is read back.
use Prim.Native.Nat.{ℕ, zero, suc, ◌+◌, ◌-◌, ◌*◌, ◌/◌, ◌%◌, ◌^◌, ◌≤◌, ◌<◌}
use Prim.Native.Char.{Char, code}
use Prim.Native.String.{String}
use mathlib.Core.Path.{◌≡◌, refl, ◌∙◌}
use mathlib.Core.Logic.{inl, inr}
use mathlib.Core.Option.{Option, some}
use native.Mathlib.Omega.{arith}
use caffe2_operator.Prelude.Tests.{ltb, lt→ltb, ltb→lt, Bool-cases}
use caffe2_operator.Prelude.Int.{pos}
use caffe2_operator.Prelude.Decimal.{
  digit, digits, itoa, digit_value, scan, scan_prefixed, scan_decimal, fit, signed, atoi, parse_int,
}

pub code-digit : (d : ℕ) → d < 10 → code (digit d) ≡ 48 + d
unfolding digit
code-digit zero h = refl
code-digit (suc zero) h = refl
code-digit (suc (suc zero)) h = refl
code-digit (suc (suc (suc zero))) h = refl
code-digit (suc (suc (suc (suc zero)))) h = refl
code-digit (suc (suc (suc (suc (suc zero))))) h = refl
code-digit (suc (suc (suc (suc (suc (suc zero)))))) h = refl
code-digit (suc (suc (suc (suc (suc (suc (suc zero))))))) h = refl
code-digit (suc (suc (suc (suc (suc (suc (suc (suc zero)))))))) h = refl
code-digit (suc (suc (suc (suc (suc (suc (suc (suc (suc zero))))))))) h = refl
code-digit (suc (suc (suc (suc (suc (suc (suc (suc (suc (suc n)))))))))) h = absurd (omega arith)

digit_value-digit : (d : ℕ) → d < 10 → digit_value (code (digit d)) ≡ d
unfolding digit_value
digit_value-digit d h = rw (code-digit d h) (ground arith)

scan-digit :
    (d n m : ℕ) (s : String)
    → d < 10
    → n * 10 + d ≡ m
    → scan 10 (String.◌∷◌ (digit d) s) n ≡ scan 10 s m
unfolding scan
scan-digit d n m s h e = rw (digit_value-digit d h, lt→ltb d 10 h, e)

-- Reading the digits of `n` from 0 is having read `n`.
scan-digits : (fuel n : ℕ) (s : String) → n < fuel → scan 10 (digits fuel n s) 0 ≡ scan 10 s n
unfolding digits
scan-digits zero n s h = absurd (omega arith)
scan-digits (suc fuel) n s h = elim (Bool-cases (ltb n 10)) [
  | inl small ↦ rw small (scan-digit n 0 n s (ground arith) (omega arith))
  | inr big ↦ rw big (
      scan-digits fuel (n / 10) (String.◌∷◌ (digit (n % 10)) s) (ground arith)
      ∙ scan-digit (n % 10) (n / 10) n s (omega arith) (omega arith))
]

-- A text that begins with a digit from 1 to 9.
record Leads (s : String) : Type 0 where
  head : Char
  tail : String
  shape : s ≡ String.◌∷◌ head tail
  above : 49 ≤ code head
  below : code head ≤ 57

Leads-digits : (fuel n : ℕ) (s : String) → n < fuel → 0 < n → Leads (digits fuel n s)
unfolding digits
Leads-digits zero n s h p = absurd (omega arith)
Leads-digits (suc fuel) n s h p = elim (Bool-cases (ltb n 10)) [
  | inl small ↦ rw small (record {
    head = digit n;
    tail = s;
    shape = refl;
    above = rw (code-digit n (ltb→lt n 10 small)) (omega arith);
    below = rw (code-digit n (ltb→lt n 10 small)) (ground arith);
  })
  | inr big ↦
      rw big
        (Leads-digits fuel (n / 10) (String.◌∷◌ (digit (n % 10)) s) (ground arith) (ground arith))
]

scan_prefixed-Leads :
    (c : Char) (s : String)
    → 49 ≤ code c
    → scan_prefixed (String.◌∷◌ c s) ≡ scan 10 (String.◌∷◌ c s) 0
unfolding scan_prefixed
scan_prefixed-Leads c String.[] h = ground arith
scan_prefixed-Leads c (String.◌∷◌ d String.[]) h = ground arith
scan_prefixed-Leads c (String.◌∷◌ d (String.◌∷◌ e s)) h = ground arith

-- A digit is no sign.
signed-cons :
    (value : String → Option ℕ) (bits n : ℕ) (c : Char) (t : String)
    → 49 ≤ code c
    → value (String.◌∷◌ c t) ≡ some n
    → n < 2 ^ (bits - 1)
    → signed value bits (String.◌∷◌ c t) ≡ some (pos n)
unfolding signed fit
signed-cons value bits n c t h v fits = rw v (ground arith)

Leads-itoa : (n : ℕ) → 0 < n → Leads (itoa n)
unfolding itoa
Leads-itoa n h = Leads-digits (suc n) n "" (omega arith) h

scan-itoa : (n : ℕ) → scan 10 (itoa n) 0 ≡ some n
unfolding itoa scan
scan-itoa n = scan-digits (suc n) n "" (omega arith)

scan_decimal-cons :
    (c : Char) (s : String) → scan_decimal (String.◌∷◌ c s) ≡ scan 10 (String.◌∷◌ c s) 0
unfolding scan_decimal
scan_decimal-cons c s = refl

module _ (value : String → Option ℕ)
    (reads : (c : Char) (s : String)
      → 49 ≤ code c
      → value (String.◌∷◌ c s) ≡ scan 10 (String.◌∷◌ c s) 0) where
  signed-Leads :
      (bits n : ℕ) (s : String)
      → Leads s
      → scan 10 s 0 ≡ some n
      → n < 2 ^ (bits - 1)
      → signed value bits s ≡ some (pos n)
  signed-Leads bits n s w v h = rw w.shape (
      signed-cons value bits n w.head w.tail w.above (reads w.head w.tail w.above ∙ rw w.shape at v)
        h)

-- `Atoi` reads back what `Itoa` wrote, for every number below 2^63.
pub atoi-itoa : (n : ℕ) → n < 2 ^ 63 → atoi (itoa n) ≡ some (pos n)
atoi-itoa zero h = unfold atoi itoa in refl
atoi-itoa (suc n) h =
    unfold atoi in
    signed-Leads scan_decimal (λ c s _. scan_decimal-cons c s) 64 (suc n) (itoa (suc n))
      (Leads-itoa (suc n) (omega arith)) (scan-itoa (suc n)) h

-- `ParseInt(Itoa(n), 0, bits)` is `n` where `n` fits, whatever prefix base 0 looks for.
pub parse_int-itoa : (bits n : ℕ) → n < 2 ^ (bits - 1) → parse_int bits (itoa n) ≡ some (pos n)
parse_int-itoa bits zero h = unfold parse_int itoa in rw (lt→ltb 0 (2 ^ (bits - 1)) h)
parse_int-itoa bits (suc n) h =
    unfold parse_int in
    signed-Leads scan_prefixed scan_prefixed-Leads bits (suc n) (itoa (suc n))
      (Leads-itoa (suc n) (omega arith)) (scan-itoa (suc n)) h
