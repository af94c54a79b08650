-- ===== src/Controller/Slices/Laws.antt =====
-- `get_pod_slices` against its description: slice `i` holds the pods whose label says `i`.
use mathlib.Core.List.{append_assoc, append-nil}
use caffe2_operator.Prelude.{
  ℕ, zero, suc, ◌+◌, ◌≤◌, ◌<◌, ◌≡◌, refl, ap, ◌∙◌, inl, inr, Bool, false, Option, none, some, List,
  [], ◌∷◌, ◌++◌, keep, replicate, arith, if◌then◌else◌, ltb, ◌==◌, Bool-cases,
}
use caffe2_operator.Prelude.Int.{ℤ, pos, negsuc}
use caffe2_operator.Go.{returns}
use caffe2_operator.Kube.{Pod}
use caffe2_operator.Controller.Slices.{append_at, place_at, index_of, place_all, get_pod_slices}

-- The pod's index label is the decimal number `i`.
abbrev pub index_is : ℕ → Option ℤ → Bool
index_is i none = false
index_is i (some (pos j)) = j == i
index_is i (some (negsuc j)) = false

abbrev pub has_index : ℕ → Pod → Bool
has_index i pod = index_is i (index_of pod)

-- `f i`, `f (i + 1)`, … for `count` values.
abbrev pub table {ℓ} : {A : Type ℓ} → ℕ → ℕ → (ℕ → A) → List A
table i zero f = []
table i (suc count) f = f i ∷ table (suc i) count f

table_ext {ℓ} :
    {A : Type ℓ} (i count : ℕ) (f g : ℕ → A)
    → ((l : ℕ) → i ≤ l → l < i + count → f l ≡ g l)
    → table i count f ≡ table i count g
table_ext i zero f g h = refl
table_ext i (suc count) f g h = cc (
  h i (omega arith) (omega arith),
  table_ext (suc i) count f g (λ l lo hi. h l (omega arith) (omega arith)),
)

replicate-table {ℓ} :
    {A : Type ℓ} (i count : ℕ) (a : A) → replicate count a ≡ table i count (λ _. a)
replicate-table i zero a = refl
replicate-table i (suc count) a = ap (λ t. a ∷ t) (replicate-table (suc i) count a)

-- One slice with one more pod.
grown : Pod → ℕ → (ℕ → List Pod) → ℕ → List Pod
grown pod j f l = if j == l then f l ++ pod ∷ [] else f l

append_at-table :
    (pod : Pod) (i j count : ℕ) (f : ℕ → List Pod)
    → append_at j pod (table i count f) ≡ table i count (grown pod (i + j) f)
unfolding append_at grown
append_at-table pod i j zero f = refl
append_at-table pod i zero (suc count) f =
    ground (arith, table_ext (suc i) count f (grown pod (i + 0) f) (λ l lo hi. ground arith))
append_at-table pod i (suc j) (suc count) f = ground (arith, append_at-table pod (suc i) j count f)

placed : Pod → Option ℤ → (ℕ → List Pod) → ℕ → List Pod
placed pod o f l = if index_is l o then f l ++ pod ∷ [] else f l

place_at-table :
    (n : ℕ) (pod : Pod) (o : Option ℤ) (f : ℕ → List Pod)
    → place_at n pod o (table 0 n f) ≡ table 0 n (placed pod o f)
unfolding place_at placed
place_at-table n pod none f = refl
place_at-table n pod (some (negsuc j)) f = refl
place_at-table n pod (some (pos j)) f = elim (Bool-cases (ltb j n)) [
  | inl inside ↦ rw inside (
      append_at-table pod 0 j n f
      ∙ table_ext 0 n (grown pod (0 + j) f) (placed pod (some (pos j)) f)
          (λ l lo hi. unfold grown in ground arith))
  | inr outside ↦
      rw outside (table_ext 0 n f (placed pod (some (pos j)) f) (λ l lo hi. ground arith))
]

place_all-table :
    (n : ℕ) (pods : List Pod) (f : ℕ → List Pod)
    → place_all n pods (table 0 n f) ≡ table 0 n (λ l. f l ++ keep (has_index l) pods)
unfolding place_all placed
place_all-table n [] f = table_ext 0 n f (λ l. f l ++ []) (λ l lo hi. rw append-nil)
place_all-table n (pod ∷ pods) f = rw (place_at-table n pod (index_of pod) f) (
    place_all-table n pods (placed pod (index_of pod) f)
    ∙ table_ext 0 n (λ l. placed pod (index_of pod) f l ++ keep (has_index l) pods)
        (λ l. f l ++ keep (has_index l) (pod ∷ pods)) (λ l lo hi. placed-keep l (index_of pod)))
  where
    placed-keep :
        (l : ℕ) (o : Option ℤ)
        → placed pod o f l ++ keep (has_index l) pods
          ≡ f l ++ (if index_is l o then pod ∷ keep (has_index l) pods else keep (has_index l) pods)
    placed-keep l o = elim (Bool-cases (index_is l o)) [
      | inl here ↦ rw here (rw append_assoc)
      | inr there ↦ rw there
    ]

-- For a number of replicas that is not negative, `getPodSlices` returns one slice for each index, in
-- order, and the slice of an index holds exactly the pods whose index label is that number, in the
-- order in which they were listed; pods with no label, with a label that is no number, or with a
-- number out of range are in no slice.
pub get_pod_slices-table :
    (pods : List Pod) (replicas : ℕ)
    → get_pod_slices pods (pos replicas) ≡ returns (table 0 replicas (λ i. keep (has_index i) pods))
unfolding get_pod_slices
get_pod_slices-table pods replicas =
    rw (replicate-table {A = List Pod} 0 replicas [])
      (ap returns (place_all-table replicas pods (λ _. [])))
