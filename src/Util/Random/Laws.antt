-- ===== src/Util/Random/Laws.antt =====
-- Which text `RandString` draws.
use Prim.Native.Char.{Char}
use Prim.Native.String.{String}
use caffe2_operator.Prelude.{ℕ, zero, suc, ◌+◌, ◌*◌, ◌/◌, ◌%◌, ◌≤◌, ◌≡◌, none, some, List, [], ◌∷◌}
use caffe2_operator.Util.Random.{letter_bytes, byte_at, Drawing}

-- A number without its last `j` groups of six bits.
abbrev pub without : ℕ → ℕ → ℕ
without zero number = number
without (suc j) number = without j number / 64

-- The first `n` letters of a list in front of a text, the last of them first.
abbrev pub in_front : ℕ → List Char → String → String
in_front zero cs w = w
in_front (suc n) [] w = w
in_front (suc n) (c ∷ cs) w = in_front n cs (String.◌∷◌ c w)

module _ (src : ℕ → ℕ) where
  -- The groups of six bits of the source: ten of each number, the last ones first.
  abbrev pub six_bits : ℕ → ℕ
  six_bits i = without (i % 10) (src (i / 10)) % 64

  -- The letters among the `m` groups from the `i`-th on; a group from 36 on is none.
  abbrev pub letters : ℕ → ℕ → List Char
  letters i zero = []
  letters i (suc m) = elim (byte_at letter_bytes (six_bits i)) [
    | none ↦ letters (suc i) m
    | some c ↦ c ∷ letters (suc i) m
  ]

  -- Before the `i`-th group: it is place `r` of the number `q`, or the place after its last.
  record At (i : ℕ) (d : Drawing) : Type 0 where
    q : ℕ
    r : ℕ
    drawn : d.drawn ≡ suc q
    cache : d.cache ≡ without r (src q)
    remain : d.remain + r ≡ 10
    index : i ≡ 10 * q + r

  -- With a number that has the group.
  record Now (i : ℕ) (d : Drawing) : Type 0 where
    at : At i d
    left : 1 ≤ d.remain
