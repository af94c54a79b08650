-- ===== src/Util/Kubernetes/Laws.antt =====
-- What `mergeLabels` leaves in its first map.
use caffe2_operator.Go.{Runs-map, Runs-then, Runs}
use caffe2_operator.Prelude.{
  String, Option, none, some, [], ◌∷◌, ◌≡◌, refl, arith, Option-cases, inl, inr, if◌then◌else◌,
}
use caffe2_operator.Prelude.Dict.{Dict, lookup, insert, lookup-insert}
use text.Mathlib.Text.{◌==◌}
use text.Mathlib.TextEquality.{eq_iff}
use caffe2_operator.Kube.{Labels, get_label}
use caffe2_operator.Util.Kubernetes.{merge_label, merge_labels}

-- The label of the first map, or else that of the second.
abbrev pub either_label : Dict String → Dict String → String → Option String
either_label l1 l2 key = elim (lookup key l1) [ some value ↦ some value | none ↦ lookup key l2 ]

-- One round adds the label, if the first map has none of that key.
abbrev Merged : String → String → Dict String → Labels → Type 0
Merged name value l1 l =
    (m : Dict String) × (l ≡ some m)
    × ((key : String)
        → lookup key m ≡ elim (lookup key l1) [
          | some old ↦ some old
          | none ↦ if name == key then some value else none
        ])

merge_label-Merged :
    (name value : String) (l1 : Dict String)
    → Runs (Merged name value l1) (merge_label name value (some l1))
unfolding merge_label
merge_label-Merged name value l1 = elim (Option-cases (lookup name l1)) [
  | inr (old, e) ↦ rw (e, merge_label) (l1, refl, λ key. ground (arith, eq_iff name key))
  | inl e ↦
      rw (e, merge_label)
        (
          insert name value l1,
          refl,
          λ key. ground (arith, lookup-insert name key value l1, eq_iff name key),
        )
]

-- `mergeLabels` into a map that is not nil returns; each key then has the label that it had in that
-- map, or else, if it has one there, that of the other map, whatever the order of the loop.
pub merge_labels-lookup :
    (l1 l2 : Dict String)
    → Runs
        (λ l. (key : String) → get_label key l ≡ either_label l1 l2 key)
        (merge_labels (some l1) l2)
unfolding merge_labels lookup
merge_labels-lookup l1 [] = λ key. ground arith
merge_labels-lookup l1 ((name, value) ∷ l2) =
    Runs-then (Merged name value l1) _ (merge_label name value (some l1)) _
      (merge_label-Merged name value l1)
      λ l (m, e, h). rw e (
        Runs-map _ _ (merge_labels (some m) l2) (λ l' h' key. ground (arith, h key, h' key))
          (merge_labels-lookup m l2))
