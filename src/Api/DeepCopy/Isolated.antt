-- ===== src/Api/DeepCopy/Isolated.antt =====
-- A deep copy and its original share nothing: a change to one does not show in the other.
use caffe2_operator.Api.Memory.Copies.{
  Later, Reading, PointsTo, Agree, Any, New, Moves, Copied, PointsTo-Moves, PointsTo-Copies,
}
use caffe2_operator.Prelude.{
  ℕ, suc, ◌<◌, ◌≡◌, refl, Option, none, some, List, [], ◌∷◌, length, get_elem?, arith,
}
use caffe2_operator.Go.{Outcome, returns, Runs}
use caffe2_operator.Api.Memory.{Layout, Address, Pointer, Heap, job, job_list, as_job, as_job_list}
use caffe2_operator.Api.DeepCopy.{
  Foreign, deep_copy_into_job, deep_copy_job, deep_copy_into_job_list, deep_copy_job_list,
}
use caffe2_operator.Api.DeepCopy.Reads.{TypedJob, TypedJobList, Promises, JobReads, JobListReads}
use caffe2_operator.Api.DeepCopy.Laws.{
  JobReads-Moves, JobReads-Copies, JobListReads-Moves, JobListReads-Copies,
}

-- The addresses that are in use in `h`.
abbrev pub Old : {l : Layout} → Heap l → Address → Type 0
Old h a = a < length h

get_elem?-Old {ℓ} :
    {A : Type ℓ} (xs : List A) (i : ℕ) (a : A) → get_elem? xs i ≡ some a → i < length xs
get_elem?-Old [] i a e = absurd (no_element a e)
  where
    no_element : {B : Type ℓ} (b : B) → none ≡ some b → ⊥
    no_element b e = cc
get_elem?-Old (x ∷ xs) ℕ.zero a e = omega arith
get_elem?-Old (x ∷ xs) (suc i) a e = omega (arith, get_elem?-Old xs i a e)

-- What reads in `h` reads in `h'`, if `h'` has what the old addresses hold after a copy.
original-Reads :
    {l : Layout} {T V : Type 0} (R : Reading l T V) (h h₁ h' : Heap l) (t : T) (v : V)
    → Moves l T V R
    → Later h h₁
    → R Any h t v
    → Agree (Old h) h₁ h'
    → R Any h' t v
original-Reads R h h₁ h' t v moves later reads agree =
    moves Any Any h h' t v (λ a u. u)
      (λ a c u e. agree a c (get_elem?-Old h a c e) (later.keeps a c tt e)) reads

Runs-at {ℓ} : {A : Type ℓ} (P : A → Type 0) (m : Outcome A) (a : A) → Runs P m → m ≡ returns a → P a
Runs-at P m a h e = rw e at h

module _ {l : Layout} (f : Foreign l) (p : Promises f) (h : Heap l) where
  -- Where the deep copies of the Kubernetes types keep their promises, `DeepCopy` of a pointer to a
  -- `Caffe2Job`, or of nil, returns; what it returns reads as the same value, or is nil, and reads so
  -- through addresses that were not in use before; and the old addresses keep what they hold.
  pub deep_copy_job-Copied :
      (from : Pointer) (v : Option TypedJob)
      → PointsTo as_job (JobReads f p) Any h from v
      → Runs (Copied (PointsTo as_job (JobReads f p)) h v) (deep_copy_job f from h)
  unfolding deep_copy_job
  deep_copy_job-Copied from v reads =
      PointsTo-Copies (JobReads f p) (JobReads-Moves f p) (deep_copy_into_job f)
        (JobReads-Copies f p) as_job job (λ x. refl) Any h from v reads

  -- The same of a list of jobs: its copy has copies of all its jobs, in order.
  pub deep_copy_job_list-Copied :
      (from : Pointer) (v : Option (TypedJobList l))
      → PointsTo as_job_list (JobListReads f p) Any h from v
      → Runs (Copied (PointsTo as_job_list (JobListReads f p)) h v) (deep_copy_job_list f from h)
  unfolding deep_copy_job_list
  deep_copy_job_list-Copied from v reads =
      PointsTo-Copies (JobListReads f p) (JobListReads-Moves f p) (deep_copy_into_job_list f)
        (JobListReads-Copies f p) as_job_list job_list (λ x. refl) Any h from v reads

  -- After `DeepCopy` of a `Caffe2Job` has returned `copy` and a heap: any later heap in which the new
  -- addresses hold what they held has the same value at `copy`, whatever became of the original; and
  -- any in which the old addresses do has it at the original, whatever became of the copy. The deep
  -- copies of the Kubernetes types are as before.
  pub deep_copy_job_isolates :
      (from : Pointer) (v : Option TypedJob) (copy : Pointer) (after changed changed' : Heap l)
      → PointsTo as_job (JobReads f p) Any h from v
      → deep_copy_job f from h ≡ returns (copy, after)
      → Agree (New h) after changed
      → Agree (Old h) after changed'
      → PointsTo as_job (JobReads f p) Any changed copy v
        × PointsTo as_job (JobReads f p) Any changed' from v
  deep_copy_job_isolates from v copy after changed changed' reads run new old =
      let done : Copied (PointsTo as_job (JobReads f p)) h v (copy, after) =
        Runs-at (Copied (PointsTo as_job (JobReads f p)) h v) (deep_copy_job f from h) (copy, after)
          (deep_copy_job-Copied from v reads) run in
      (
        PointsTo-Moves (JobReads f p) (JobReads-Moves f p) as_job (New h) Any after changed copy v
            (λ a u. tt) new done.reads,
        original-Reads (PointsTo as_job (JobReads f p)) h after changed' from v
            (PointsTo-Moves (JobReads f p) (JobReads-Moves f p) as_job) done.later reads old,
      )
