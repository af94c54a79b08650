-- ===== src/Util/Random.antt =====
-- `RandString` of pkg/util/util.go. The random source is the sequence of the numbers that `src.Int63()`
-- returns.
pub mod Laws
use Prim.Native.Char.{Char}
use Prim.Native.String
use Prim.Native.String.{String}
use caffe2_operator.Prelude.{
  ℕ, zero, suc, ◌+◌, ◌-◌, ◌*◌, ◌/◌, ◌%◌, ◌==◌, Option, none, some, if◌then◌else◌,
}
use caffe2_operator.Prelude.Int.{ℤ, pos, negsuc}
use caffe2_operator.Go.{Outcome, returns, panics, negative_length}

abbrev pub letter_bytes : String
letter_bytes = "0123456789abcdefghijklmnopqrstuvwxyz"

abbrev pub letter_idx_bits : ℕ
letter_idx_bits = 6

-- How many groups of six bits there are in 63.
abbrev pub letter_idx_max : ℕ
letter_idx_max = 63 / letter_idx_bits

-- `s[i]`, if `i < len(s)`
unfoldable pub byte_at : String → ℕ → Option Char
byte_at String.[] i = none
byte_at (String.◌∷◌ c s) zero = some c
byte_at (String.◌∷◌ c s) (suc i) = byte_at s i

-- The variables of the loop: how many letters are left to write, the letters that are written, the
-- cached number, how many of its groups remain, and how many numbers were drawn.
pub record Drawing : Type 0 where
  pub left : ℕ
  pub written : String
  pub cache : ℕ
  pub remain : ℕ
  pub drawn : ℕ

abbrev pub shifted : Drawing → Drawing
shifted d = record d { cache = d.cache / 64; remain = d.remain - 1 }

-- A group that is the index of a letter writes it, from the last byte on.
unfoldable pub draw : Drawing → Drawing
draw d = elim (byte_at letter_bytes (d.cache % 64)) [
  | none ↦ shifted d
  | some c ↦ record (shifted d) { left = d.left - 1; written = String.◌∷◌ c d.written }
]

module _ (src : ℕ → ℕ) where
  -- A new number where no group remains.
  unfoldable pub refill : Drawing → Drawing
  refill d =
      if d.remain == 0
      then record d { cache = src d.drawn; remain = letter_idx_max; drawn = suc d.drawn }
      else d

  -- The loop, for at most `fuel` rounds.
  unfoldable pub draw_all : ℕ → Drawing → Option (String × ℕ)
  draw_all zero d = none
  draw_all (suc fuel) d =
      let rest = draw_all fuel (draw (refill d)) in
      if d.left == 0 then some (d.written, d.drawn) else rest

  -- `RandString`: the text, and how many numbers it took, if it ends within `fuel` rounds.
  unfoldable pub rand_string : ℕ → ℤ → Outcome (Option (String × ℕ))
  rand_string fuel (negsuc n) = panics negative_length
  rand_string fuel (pos n) = returns (
      draw_all fuel
        (record { left = n; written = ""; cache = src 0; remain = letter_idx_max; drawn = 1 }))
