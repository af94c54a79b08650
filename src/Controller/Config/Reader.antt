-- ===== src/Controller/Config/Reader.antt =====
-- A reader of JSON string literals (RFC 8259, section 7), to compare the writer of `Config` with.
use Prim.Native.Char.{Char, code}
use Prim.Native.String.{String}
use caffe2_operator.Prelude.{
  ℕ, zero, suc, ◌+◌, ◌-◌, ◌*◌, ◌/◌, ◌%◌, ◌<◌, ◌==◌, leb, ◌≡◌, refl, ap, ◌∙◌, Option, none, some,
  List, [], ◌∷◌, true, false, ◌&&◌, ◌||◌, if◌then◌else◌, arith,
}
use text.Mathlib.TextLemmas.{cons-append, nil-append}
use caffe2_operator.Prelude.Text.{◌<>◌}
use caffe2_operator.Prelude.Decimal.{digit}
use caffe2_operator.Controller.Config.{hex_digit, escape_byte}

-- The code points of a text.
abbrev pub codes : String → List ℕ
codes String.[] = []
codes (String.◌∷◌ c s) = code c ∷ codes s

-- The value of a hexadecimal digit in lower case.
abbrev pub unhex : ℕ → Option ℕ
unhex n =
    if leb 48 n && leb n 57
    then some (n - 48)
    else if leb 97 n && leb n 102
    then some (n - 87)
    else none

-- The control character of a two-character escape.
abbrev pub control : ℕ → Option ℕ
control n =
    if n == b'"' || n == 92 || n == b'/'
    then some n
    else if n == b'b'
    then some 8
    else if n == b'f'
    then some 12
    else if n == b'n'
    then some 10
    else if n == b'r'
    then some 13
    else if n == b't'
    then some 9
    else none

-- Where a reader is: outside an escape, after a backslash, or before `n + 1` hexadecimal digits.
pub data Reader : Type 0 where
  plain escaped : Reader
  hex : (n value : ℕ) → Reader

-- One more code point.
abbrev pub read : ℕ → Option (List ℕ × String) → Option (List ℕ × String)
read n none = none
read n (some (ns, rest)) = some (n ∷ ns, rest)

-- The rest of a string literal whose opening quote was read: its code points, and what follows.
unfoldable pub read_string : Reader → String → Option (List ℕ × String)
read_string r String.[] = none
read_string plain (String.◌∷◌ c s) = elim (code c == b'"') [
  | true ↦ some ([], s)
  | false ↦ elim (code c == 92) [
    | true ↦ read_string escaped s
    | false ↦ read (code c) (read_string plain s)
  ]
]
read_string escaped (String.◌∷◌ c s) = elim (code c == b'u') [
  | true ↦ read_string (hex 3 0) s
  | false ↦ elim (control (code c)) [ none ↦ none | some n ↦ read n (read_string plain s) ]
]
read_string (hex n value) (String.◌∷◌ c s) = elim (unhex (code c)) [
  | none ↦ none
  | some d ↦ elim n [
    | zero ↦ read (value * 16 + d) (read_string plain s)
    | suc m ↦ read_string (hex m (value * 16 + d)) s
  ]
]

-- A string literal: its code points, and what follows.
unfoldable pub read_json_string : String → Option (List ℕ × String)
read_json_string String.[] = none
read_json_string (String.◌∷◌ c s) = if code c == b'"' then read_string plain s else none

pub unhex-hex_digit : (d : ℕ) → d < 16 → unhex (code (hex_digit d)) ≡ some d
unfolding hex_digit digit
unhex-hex_digit zero h = refl
unhex-hex_digit (suc zero) h = refl
unhex-hex_digit (suc (suc zero)) h = refl
unhex-hex_digit (suc (suc (suc zero))) h = refl
unhex-hex_digit (suc (suc (suc (suc zero)))) h = refl
unhex-hex_digit (suc (suc (suc (suc (suc zero))))) h = refl
unhex-hex_digit (suc (suc (suc (suc (suc (suc zero)))))) h = refl
unhex-hex_digit (suc (suc (suc (suc (suc (suc (suc zero))))))) h = refl
unhex-hex_digit (suc (suc (suc (suc (suc (suc (suc (suc zero)))))))) h = refl
unhex-hex_digit (suc (suc (suc (suc (suc (suc (suc (suc (suc zero))))))))) h = refl
unhex-hex_digit (suc (suc (suc (suc (suc (suc (suc (suc (suc (suc zero)))))))))) h = refl
unhex-hex_digit (suc (suc (suc (suc (suc (suc (suc (suc (suc (suc (suc zero))))))))))) h = refl
unhex-hex_digit (suc (suc (suc (suc (suc (suc (suc (suc (suc (suc (suc (suc zero)))))))))))) h =
    refl
unhex-hex_digit (suc (suc (suc (suc (suc (suc (suc (suc (suc (suc (suc (suc (suc zero)))))))))))))
      h =
    refl
unhex-hex_digit
      (suc (suc (suc (suc (suc (suc (suc (suc (suc (suc (suc (suc (suc (suc zero)))))))))))))) h =
    refl
unhex-hex_digit
      (suc (suc (suc (suc (suc (suc (suc (suc (suc (suc (suc (suc (suc (suc (suc zero)))))))))))))))
      h =
    refl
unhex-hex_digit
      (suc
        (suc (suc (suc (suc (suc (suc (suc (suc (suc (suc (suc (suc (suc (suc (suc n))))))))))))))))
      h =
    absurd (omega arith)

pub read_plain :
    (c : Char) (t : String)
    → (code c == b'"') ≡ false
    → (code c == 92) ≡ false
    → read_string plain (String.◌∷◌ c t) ≡ read (code c) (read_string plain t)
unfolding read_string
read_plain c t q b = rw (q, read_string) (rw (b, read_string) refl)

pub read_hex :
    (d m value : ℕ) (t : String)
    → d < 16
    → read_string (hex (suc m) value) (String.◌∷◌ (hex_digit d) t)
      ≡ read_string (hex m (value * 16 + d)) t
unfolding read_string
read_hex d m value t h = rw (unhex-hex_digit d h, read_string) refl

pub read_last_hex :
    (d value : ℕ) (t : String)
    → d < 16
    → read_string (hex 0 value) (String.◌∷◌ (hex_digit d) t)
      ≡ read (value * 16 + d) (read_string plain t)
unfolding read_string
read_last_hex d value t h = rw (unhex-hex_digit d h, read_string) refl

-- A backslash and a second character.
pub read-control :
    (c : Char) (n : ℕ) (t : String)
    → (code c == b'u') ≡ false
    → control (code c) ≡ some n
    → read_string plain (String.◌∷◌ "\\" (String.◌∷◌ c t)) ≡ read n (read_string plain t)
unfolding read_string
read-control c n t u e = rw (u, read_string) (rw (e, read_string) refl)

pub two_chars :
    (a b : Char) (t : String)
    → (String.◌∷◌ a (String.◌∷◌ b "") <> t) ≡ String.◌∷◌ a (String.◌∷◌ b t)
two_chars a b t = simp (cons-append, nil-append) refl

four_chars :
    (a b c d : Char) (t : String)
    → (String.◌∷◌ a (String.◌∷◌ b (String.◌∷◌ c (String.◌∷◌ d ""))) <> t)
      ≡ String.◌∷◌ a (String.◌∷◌ b (String.◌∷◌ c (String.◌∷◌ d t)))
four_chars a b c d t = simp (cons-append, nil-append) refl

pub read_unicode_escape :
    (t : String) → read_string plain (String.◌∷◌ "\\" (String.◌∷◌ "u" t)) ≡ read_string (hex 3 0) t
unfolding read_string
read_unicode_escape t = refl

-- Four digits after a backslash and a `u`.
pub read_unicode :
    (a b c d : ℕ) (t : String)
    → a < 16
    → b < 16
    → c < 16
    → d < 16
    → read_string plain (
        String.◌∷◌ "\\" (
          String.◌∷◌ "u" (
            String.◌∷◌
              (hex_digit a)
              (String.◌∷◌ (hex_digit b) (String.◌∷◌ (hex_digit c) (String.◌∷◌ (hex_digit d) t))))))
      ≡ read ((((0 * 16 + a) * 16 + b) * 16 + c) * 16 + d) (read_string plain t)
read_unicode a b c d t ha hb hc hd =
    read_unicode_escape _
    ∙ read_hex a 2 0 _ ha
    ∙ read_hex b 1 _ _ hb
    ∙ read_hex c 0 _ _ hc
    ∙ read_last_hex d _ t hd

zero_digit : hex_digit 0 ≡ "0"
unfolding hex_digit digit
zero_digit = refl

six_chars :
    (a b c d e f : Char) (t : String)
    → ((String.◌∷◌ a (String.◌∷◌ b (String.◌∷◌ c (String.◌∷◌ d "")))
          <> String.◌∷◌ e (String.◌∷◌ f ""))
        <> t)
      ≡ String.◌∷◌ a (String.◌∷◌ b (String.◌∷◌ c (String.◌∷◌ d (String.◌∷◌ e (String.◌∷◌ f t)))))
six_chars a b c d e f t = simp (cons-append, nil-append) refl

-- `\u00` and two digits.
escape_byte-append :
    (c : Char) (t : String)
    → read_string plain (escape_byte c <> t)
      ≡ read_string plain (
          String.◌∷◌ "\\" (
            String.◌∷◌ "u" (
              String.◌∷◌ "0" (
                String.◌∷◌ "0" (
                  String.◌∷◌ (hex_digit (code c / 16)) (String.◌∷◌ (hex_digit (code c % 16)) t))))))
unfolding escape_byte
escape_byte-append c t =
    ap (λ u. read_string plain u)
      (six_chars "\\" "u" "0" "0" (hex_digit (code c / 16)) (hex_digit (code c % 16)) t)

pub read-escape_byte :
    (c : Char) (t : String)
    → code c < 256
    → read_string plain (escape_byte c <> t) ≡ read (code c) (read_string plain t)
read-escape_byte c t h =
    escape_byte-append c t
    ∙ (rw zero_digit at (
        read_unicode 0 0 (code c / 16) (code c % 16) t (omega arith) (omega arith) (ground arith)
          (omega arith)))
    ∙ ap (λ n. read n (read_string plain t)) (omega arith)
