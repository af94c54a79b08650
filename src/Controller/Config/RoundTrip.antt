-- ===== src/Controller/Config/RoundTrip.antt =====
-- A JSON reader gets back the texts that `json.Marshal` has written.
use Prim.Native.Char.{Char, code}
use Prim.Native.String.{String}
use caffe2_operator.Prelude.{
  ℕ, ◌+◌, ◌<◌, ◌==◌, ltb, ◌≡◌, refl, ap, ◌∙◌, some, Bool, true, false, ◌||◌, if◌then◌else◌, arith,
}
use text.Mathlib.TextLemmas.{cons-append, nil-append, append_assoc}
use caffe2_operator.Prelude.Text.{◌<>◌}
use caffe2_operator.Prelude.Decimal.{digit}
use caffe2_operator.Controller.Config.{hex_digit, escape_byte, escape, escape_all, json_string}
use caffe2_operator.Controller.Config.Reader.{
  codes, control, plain, read, read_string, read_json_string, read_plain, read-control, two_chars,
  read_unicode, read-escape_byte,
}

-- A piece of a literal that reads as one code point.
abbrev Reads : String → ℕ → Type 0
Reads s n = (t : String) → read_string plain (s <> t) ≡ read n (read_string plain t)

Reads-if :
    (b : Bool) (s u : String) (n : ℕ)
    → (b ≡ true → Reads s n)
    → (b ≡ false → Reads u n)
    → Reads (if b then s else u) n
Reads-if true s u n f g = f refl
Reads-if false s u n f g = g refl

Reads-control :
    (c : Char) (m n : ℕ)
    → (code c == b'u') ≡ false
    → control (code c) ≡ some m
    → m ≡ n
    → Reads (String.◌∷◌ "\\" (String.◌∷◌ c "")) n
Reads-control c m n u e same t =
    ap (λ x. read_string plain x) (two_chars "\\" c t)
    ∙ read-control c m t u e
    ∙ ap (λ x. read x (read_string plain t)) same

-- `\u2028` and `\u2029`.
Reads-separator :
    (d n : ℕ)
    → d < 16
    → 8224 + d ≡ n
    → Reads
        (String.◌∷◌ "\\" (
          String.◌∷◌ "u" (
            String.◌∷◌
              (hex_digit 2)
              (String.◌∷◌ (hex_digit 0) (String.◌∷◌ (hex_digit 2) (String.◌∷◌ (hex_digit d) ""))))))
        n
Reads-separator d n h same t =
    ap (λ x. read_string plain x)
      (six_flat "\\" "u" (hex_digit 2) (hex_digit 0) (hex_digit 2) (hex_digit d) t)
    ∙ read_unicode 2 0 2 d t (omega arith) (omega arith) (omega arith) h
    ∙ ap (λ x. read x (read_string plain t)) (omega arith)
  where
    six_flat :
        (a b c d e f : Char) (t : String)
        → (String.◌∷◌ a
              (String.◌∷◌ b (String.◌∷◌ c (String.◌∷◌ d (String.◌∷◌ e (String.◌∷◌ f "")))))
            <> t)
          ≡ String.◌∷◌ a
              (String.◌∷◌ b (String.◌∷◌ c (String.◌∷◌ d (String.◌∷◌ e (String.◌∷◌ f t)))))
    six_flat a b c d e f t = simp (cons-append, nil-append) refl

-- The choices of `escape`, from the last one on.
abbrev unescaped : Char → String
unescaped c =
    if code c == 0x2028 then "\\u2028" else if code c == 0x2029 then "\\u2029" else String.◌∷◌ c ""

abbrev bytes : Char → String
bytes c =
    if ltb (code c) 32 || code c == b'<' || code c == b'>' || code c == b'&'
    then escape_byte c
    else unescaped c

abbrev controls : Char → String
controls c =
    if code c == 10
    then "\\n"
    else if code c == 13
    then "\\r"
    else if code c == 9
    then "\\t"
    else bytes c

Reads-unescaped :
    (c : Char) → (code c == b'"') ≡ false → (code c == 92) ≡ false → Reads (unescaped c) (code c)
unfolding hex_digit digit
Reads-unescaped c q b =
    Reads-if (code c == 0x2028) "\\u2028" (if code c == 0x2029 then "\\u2029" else String.◌∷◌ c "")
      (code c) (λ e. Reads-separator 8 (code c) (omega arith) (ground (arith, e)))
      (λ e'.
        Reads-if (code c == 0x2029) "\\u2029" (String.◌∷◌ c "") (code c)
          (λ e. Reads-separator 9 (code c) (omega arith) (ground (arith, e)))
          (λ e t. ap (λ x. read_string plain x) (one_char c t) ∙ read_plain c t q b))
  where
    one_char : (a : Char) (t : String) → (String.◌∷◌ a "" <> t) ≡ String.◌∷◌ a t
    one_char a t = simp (cons-append, nil-append) refl

Reads-controls :
    (c : Char) → (code c == b'"') ≡ false → (code c == 92) ≡ false → Reads (controls c) (code c)
Reads-controls c q b =
    Reads-if (code c == 10) "\\n"
      (if code c == 13 then "\\r" else if code c == 9 then "\\t" else bytes c) (code c)
      (λ e. Reads-control "n" 10 (code c) refl refl (ground (arith, e)))
      (λ e'.
        Reads-if (code c == 13) "\\r" (if code c == 9 then "\\t" else bytes c) (code c)
          (λ e. Reads-control "r" 13 (code c) refl refl (ground (arith, e)))
          (λ e'.
            Reads-if (code c == 9) "\\t" (bytes c) (code c)
              (λ e. Reads-control "t" 9 (code c) refl refl (ground (arith, e)))
              (λ e'.
                Reads-if (ltb (code c) 32 || code c == b'<' || code c == b'>' || code c == b'&')
                  (escape_byte c) (unescaped c) (code c)
                  (λ e t. read-escape_byte c t (ground (arith, e))) (λ e'. Reads-unescaped c q b))))

Reads-escape : (c : Char) → Reads (escape c) (code c)
unfolding escape
Reads-escape c =
    Reads-if (code c == b'"' || code c == 92) (String.◌∷◌ "\\" (String.◌∷◌ c "")) (controls c)
      (code c) (λ e. Reads-control c (code c) (code c) (ground (arith, e)) (ground (arith, e)) refl)
      (λ e. Reads-controls c (ground (arith, e)) (ground (arith, e)))

read-escape_all :
    (s rest : String)
    → read_string plain (escape_all s <> String.◌∷◌ "\"" rest) ≡ some (codes s, rest)
unfolding escape_all
read-escape_all String.[] rest = unfold read_string in rw nil-append refl
read-escape_all (String.◌∷◌ c s) rest =
    ap (λ x. read_string plain x) (append_assoc (escape c) (escape_all s) (String.◌∷◌ "\"" rest))
    ∙ Reads-escape c (escape_all s <> String.◌∷◌ "\"" rest)
    ∙ ap (read (code c)) (read-escape_all s rest)

literal :
    (q : Char) (s t : String)
    → ((String.◌∷◌ q "" <> (s <> String.◌∷◌ q "")) <> t) ≡ String.◌∷◌ q (s <> String.◌∷◌ q t)
literal q s t = simp (cons-append, nil-append, append_assoc) refl

-- A reader of what `json.Marshal` writes for a text gets the code points of the text back, and what
-- follows it.
pub read_json_string-json_string :
    (s rest : String) → read_json_string (json_string s <> rest) ≡ some (codes s, rest)
unfolding json_string read_json_string
read_json_string-json_string s rest =
    ap read_json_string (literal "\"" (escape_all s) rest) ∙ read-escape_all s rest
