-- ===== src/Controller/Config/Arrays.antt =====
-- A reader of JSON arrays of texts, and what it makes of the arrays that `json.Marshal` writes.
use Prim.Native.Char.{Char, code}
use Prim.Native.String.{String}
use caffe2_operator.Prelude.{
  ℕ, zero, suc, ◌==◌, ◌≡◌, refl, ap, ◌∙◌, Option, none, some, List, [], ◌∷◌, map, length, true,
  false, arith,
}
use text.Mathlib.TextLemmas.{cons-append, nil-append, append_assoc}
use caffe2_operator.Prelude.Text.{◌<>◌}
use caffe2_operator.Controller.Config.{json_string, json_strings, join}
use caffe2_operator.Controller.Config.Reader.{codes, read_json_string}
use caffe2_operator.Controller.Config.RoundTrip.{read_json_string-json_string}

-- What follows a given text.
unfoldable pub expect : (wanted text : String) → Option String
expect String.[] s = some s
expect (String.◌∷◌ c p) String.[] = none
expect (String.◌∷◌ c p) (String.◌∷◌ d s) = elim (code c == code d) [
  | true ↦ expect p s
  | false ↦ none
]

pub expect-append : (p s : String) → expect p (p <> s) ≡ some s
unfolding expect
expect-append String.[] s = rw nil-append refl
expect-append (String.◌∷◌ c p) s =
    rw (cons-append, expect) (rw (same c, expect) (expect-append p s))
  where
    same : (c : Char) → (code c == code c) ≡ true
    same c = ground arith

abbrev pub Texts : Type 0
Texts = List (List ℕ)

abbrev prepend : List ℕ → Option (Texts × String) → Option (Texts × String)
prepend x none = none
prepend x (some (xs, s)) = some (x ∷ xs, s)

-- The string literals of an array, which is not empty, and what follows its closing bracket.
unfoldable pub read_items : (fuel : ℕ) (text : String) → Option (Texts × String)
read_items zero s = none
read_items (suc fuel) s = elim (read_json_string s) [
  | none ↦ none
  | some (x, t) ↦ elim (expect "]" t) [
    | some u ↦ some (x ∷ [], u)
    | none ↦ elim (expect "," t) [ none ↦ none | some u ↦ prepend x (read_items fuel u) ]
  ]
]

-- An array of string literals, after its opening bracket.
unfoldable pub read_array : (fuel : ℕ) (text : String) → Option (Texts × String)
read_array fuel s = elim (expect "]" s) [ some u ↦ some ([], u) | none ↦ read_items fuel s ]

expect_bracket : (s : String) → expect "]" ("]" <> s) ≡ some s
expect_bracket s = expect-append "]" s

-- A text that begins with another character is not at the end of an array.
not_bracket :
    (c : Char) (s : String)
    → (code "]" == code c) ≡ false
    → expect "]" (String.◌∷◌ c "" <> s) ≡ none
unfolding expect
not_bracket c s e = rw (one c s, expect) (rw (e, expect) refl)
  where
    one : (c : Char) (s : String) → (String.◌∷◌ c "" <> s) ≡ String.◌∷◌ c s
    one c s = simp (cons-append, nil-append) refl

read_last_item :
    (fuel : ℕ) (t rest : String)
    → read_items (suc fuel) (json_string t <> ("]" <> rest)) ≡ some (codes t ∷ [], rest)
unfolding read_items
read_last_item fuel t rest =
    rw (read_json_string-json_string, read_items) (rw (expect_bracket, read_items) refl)

read_next_item :
    (fuel : ℕ) (t rest : String)
    → read_items (suc fuel) (json_string t <> ("," <> rest))
      ≡ prepend (codes t) (read_items fuel rest)
unfolding read_items
read_next_item fuel t rest =
    rw (read_json_string-json_string, read_items)
      (rw (not_bracket "," rest refl, read_items) (rw (expect-append "," rest, read_items) refl))

read_items-join :
    (t : String) (ts : List String) (rest : String)
    → read_items (length (t ∷ ts)) (join (json_strings (t ∷ ts)) <> ("]" <> rest))
      ≡ some (map codes (t ∷ ts), rest)
unfolding join json_strings
read_items-join t [] rest = read_last_item 0 t rest
read_items-join t (u ∷ us) rest =
    ap (read_items (length (t ∷ u ∷ us))) (
      append_assoc (json_string t) ("," <> join (json_strings (u ∷ us))) ("]" <> rest)
      ∙ ap (λ x. json_string t <> x)
          (append_assoc "," (join (json_strings (u ∷ us))) ("]" <> rest)))
    ∙ read_next_item (length (u ∷ us)) t (join (json_strings (u ∷ us)) <> ("]" <> rest))
    ∙ ap (prepend (codes t)) (read_items-join u us rest)

quote_first :
    (t : String) (ts : List String) (rest : String)
    → expect "]" (join (json_strings (t ∷ ts)) <> rest) ≡ none
unfolding join json_strings json_string
quote_first t [] rest = ap (expect "]") (append_assoc "\"" _ rest) ∙ not_bracket "\"" _ refl
quote_first t (u ∷ us) rest =
    ap (expect "]") (append_assoc (json_string t) _ rest ∙ append_assoc "\"" _ _)
    ∙ not_bracket "\"" _ refl

pub read_array-join :
    (ts : List String) (rest : String)
    → read_array (length ts) (join (json_strings ts) <> ("]" <> rest)) ≡ some (map codes ts, rest)
unfolding read_array
read_array-join [] rest = empty
  where
    empty : read_array 0 (join (json_strings []) <> ("]" <> rest)) ≡ some ([], rest)
    empty =
        unfold join json_strings in
        rw (nil-append, read_array) (rw (expect_bracket, read_array) refl)
read_array-join (t ∷ ts) rest =
    rw (quote_first t ts ("]" <> rest), read_array) (read_items-join t ts rest)
