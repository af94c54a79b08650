-- ===== src/Prelude/Decimal.antt =====
-- `strconv.Itoa`, `strconv.Atoi` and `strconv.ParseInt` of the Go versions that the repository is
-- built with (1.8 to 1.10). Only whether a conversion fails is modelled, not its error text.
pub mod RoundTrip
pub mod Reading
use Prim.Native.Nat.{ℕ, zero, suc, ◌+◌, ◌-◌, ◌*◌, ◌/◌, ◌%◌, ◌^◌}
use Prim.Native.Char.{Char, code}
use Prim.Native.String
use Prim.Native.String.{String}
use mathlib.Core.Bool.{Bool, true, false, ◌&&◌, ◌||◌}
use mathlib.Core.Option.{Option, none, some}
use caffe2_operator.Prelude.Tests.{if◌then◌else◌, ltb, leb, ◌==◌}
use caffe2_operator.Prelude.Int.{ℤ, pos, negsuc, neg}
use caffe2_operator.Prelude.Text.{◌<>◌}

-- The character of a decimal digit.
unfoldable pub digit : ℕ → Char
digit d =
    if d == 0
    then "0"
    else if d == 1
    then "1"
    else if d == 2
    then "2"
    else if d == 3
    then "3"
    else if d == 4
    then "4"
    else if d == 5
    then "5"
    else if d == 6
    then "6"
    else if d == 7
    then "7"
    else if d == 8
    then "8"
    else "9"

-- The digits of `n` in front of `out`: each round divides by ten.
digits : ℕ → ℕ → String → String
digits zero n out = out
digits (suc fuel) n out =
    let more = digits fuel (n / 10) (String.◌∷◌ (digit (n % 10)) out) in
    if ltb n 10 then String.◌∷◌ (digit n) out else more

-- `strconv.Itoa` of a number that is not negative; `n + 1` rounds are enough.
unfoldable pub itoa : ℕ → String
unfolding digits digit
itoa n = digits (suc n) n ""

unfoldable pub itoa_int : ℤ → String
unfolding itoa
itoa_int (pos n) = itoa n
itoa_int (negsuc n) = "-" <> itoa (suc n)

-- The value of a digit in some base up to 36; anything else is 36.
digit_value : ℕ → ℕ
digit_value c =
    if leb b'0' c && leb c b'9'
    then c - b'0'
    else if leb b'a' c && leb c b'z'
    then c - b'a' + 10
    else if leb b'A' c && leb c b'Z'
    then c - b'A' + 10
    else 36

-- The loop of `ParseUint`: `none` at a character that is no digit of the base.
scan : ℕ → String → ℕ → Option ℕ
scan base String.[] n = some n
scan base (String.◌∷◌ c s) n =
    let d = digit_value (code c) in if ltb d base then scan base s (n * base + d) else none

-- The prefix of base 0: `0x` or `0X`, `0`, or none.
scan_prefixed : String → Option ℕ
scan_prefixed String.[] = none
scan_prefixed (String.◌∷◌ c String.[]) =
    if code c == b'0' then some 0 else scan 10 (String.◌∷◌ c String.[]) 0
scan_prefixed (String.◌∷◌ c (String.◌∷◌ d String.[])) =
    if code c == b'0'
    then if code d == b'x' || code d == b'X' then none else scan 8 (String.◌∷◌ d String.[]) 0
    else scan 10 (String.◌∷◌ c (String.◌∷◌ d String.[])) 0
scan_prefixed (String.◌∷◌ c (String.◌∷◌ d (String.◌∷◌ e s))) =
    if code c == b'0'
    then if code d == b'x' || code d == b'X'
      then scan 16 (String.◌∷◌ e s) 0
      else scan 8 (String.◌∷◌ d (String.◌∷◌ e s)) 0
    else scan 10 (String.◌∷◌ c (String.◌∷◌ d (String.◌∷◌ e s))) 0

-- `ParseUint` with base 10.
scan_decimal : String → Option ℕ
scan_decimal String.[] = none
scan_decimal (String.◌∷◌ c s) = scan 10 (String.◌∷◌ c s) 0

-- The range test of `ParseInt`: -2^(bits-1) up to 2^(bits-1) - 1.
fit : ℕ → Bool → Option ℕ → Option ℤ
fit bits negative none = none
fit bits false (some n) = if ltb n (2 ^ (bits - 1)) then some (pos n) else none
fit bits true (some n) = if leb n (2 ^ (bits - 1)) then some (neg n) else none

-- The sign.
signed : (String → Option ℕ) → ℕ → String → Option ℤ
signed value bits String.[] = none
signed value bits (String.◌∷◌ c s) =
    if code c == b'-'
    then fit bits true (value s)
    else if code c == b'+'
    then fit bits false (value s)
    else fit bits false (value (String.◌∷◌ c s))

-- `strconv.Atoi`: a decimal number that fits in 64 bits.
unfoldable pub atoi : String → Option ℤ
unfolding signed fit scan_decimal scan digit_value
atoi s = signed scan_decimal 64 s

-- `strconv.ParseInt(s, 0, bits)`
unfoldable pub parse_int : ℕ → String → Option ℤ
unfolding signed fit scan_prefixed scan digit_value
parse_int bits s = signed scan_prefixed bits s
