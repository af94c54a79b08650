-- ===== src/Api/DeepCopy/Flat.antt =====
-- Copies of structs without pointers, and of slices.
use caffe2_operator.Prelude.{Option, none, some, List, ◌≡◌}
use caffe2_operator.Go.{Outcome, returns, panics, Runs}
use caffe2_operator.Api.Memory.{Layout, Pointer, Cell, Heap}
use caffe2_operator.Api.Memory.Copies.{
  Reading, PointsTo, EachReads, Moves, Copies, Copier, Copied, Later-refl, PointsTo-Moves,
  PointsTo-Copies, EachReads-Moves, EachReads-Copies, copy_pointer, copy_each, flat,
}
use caffe2_operator.Api.DeepCopy.Reads.{Same, SliceReads}

module _ {l : Layout} where
  pub Same-Moves : {T : Type 0} → Moves l T T Same
  Same-Moves P Q h h' t v wider agree r = r

  pub flat-Same : {T : Type 0} → Copies l T T Same flat
  flat-Same P h t v r = record { later = Later-refl h; reads = r }

module _ {l : Layout} {T V : Type 0} (R : Reading l T V) (moves : Moves l T V R) where
  pub SliceReads-Moves :
      (out : Cell l → Option (List T)) → Moves l Pointer (List V) (SliceReads out R)
  SliceReads-Moves out P Q h h' none vs wider agree r = r
  SliceReads-Moves out P Q h h' (some a) vs wider agree r =
      PointsTo-Moves (EachReads R) (EachReads-Moves R moves) out P Q h h' (some a) (some vs) wider
        agree r

  pub SliceReads-Copies :
      (copy : Copier l T)
      → Copies l T V R copy
      → (out : Cell l → Option (List T)) (put : List T → Cell l)
      → ((ts : List T) → out (put ts) ≡ some ts)
      → Copies l Pointer (List V) (SliceReads out R) (copy_pointer out put (copy_each copy))
  SliceReads-Copies copy copies out put law P h none vs r = record {
    later = Later-refl h;
    reads = r;
  }
  SliceReads-Copies copy copies out put law P h (some a) vs r =
      Runs-some (copy_pointer out put (copy_each copy) (some a) h) (
        PointsTo-Copies (EachReads R) (EachReads-Moves R moves) (copy_each copy)
          (EachReads-Copies R moves copy copies) out put law P h (some a) (some vs) r)
    where
      Runs-some :
          (m : Outcome (Pointer × Heap l))
          → Runs (Copied (PointsTo out (EachReads R)) h (some vs)) m
          → Runs (Copied (SliceReads out R) h vs) m
      Runs-some (returns (none, h')) d = absurd d.reads
      Runs-some (returns (some b, h')) d = record { later = d.later; reads = d.reads }
      Runs-some (panics e) d = d
