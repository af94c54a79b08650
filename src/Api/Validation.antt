-- ===== src/Api/Validation.antt =====
-- pkg/apis/caffe2/validation/validation.go.
pub mod Laws
use caffe2_operator.Prelude.{ℕ, String, Bool, true, false, ◌&&◌, Option, none, some, if◌then◌else◌}
use caffe2_operator.Prelude.Int.{ℤ, pos, int_lt}
use caffe2_operator.Prelude.Text.{is_empty}
use text.Mathlib.Text.{◌==◌}
use caffe2_operator.Go.{Outcome, returns, panics, ◌>>=◌, deref}
use caffe2_operator.Api.Types.{
  Caffe2BackendSpec, TerminationPolicySpec, Caffe2ReplicaSpec, Caffe2JobSpec, none_backend_type,
  redis_backend_type, nfs_backend_type,
}

-- The errors of `ValidateCaffe2JobSpec`; the texts that print the spec are left out.
pub data Invalid : Type 0 where
  termination_policy multiple_pods nfs_config redis_config missing_template : Invalid

unfoldable pub has_chief : Option TerminationPolicySpec → Bool
has_chief none = false
has_chief (some p) = elim (p.chief) [ none ↦ false | some c ↦ true ]

-- `*c.ReplicaSpecs.Replicas`
replica_count : Caffe2JobSpec → Outcome ℤ
replica_count c = do r ← deref c.replica_specs; deref r.replicas

-- `c.Backend.Type == NoneBackendType && *c.ReplicaSpecs.Replicas > 1`
too_many : Caffe2JobSpec → Bool → Outcome Bool
unfolding replica_count
too_many c false = returns false
too_many c true = do n ← replica_count c; returns (int_lt (pos 1) n)

backend_config : Caffe2BackendSpec → Option Invalid
backend_config b =
    if b.type == nfs_backend_type && is_empty b.nfs_path
    then some nfs_config
    else if b.type == redis_backend_type && is_empty b.redis_host
    then some redis_config
    else none

check_backend : Caffe2JobSpec → Option Caffe2BackendSpec → Outcome (Option Invalid)
unfolding too_many backend_config
check_backend c none = do
  many ← too_many c true
  returns (if many then some multiple_pods else none)
check_backend c (some b) = do
  many ← too_many c (b.type == none_backend_type)
  returns (if many then some multiple_pods else backend_config b)

check_template : Caffe2JobSpec → Option Invalid → Outcome (Option Invalid)
check_template c (some e) = returns (some e)
check_template c none = do
  r ← deref c.replica_specs
  returns (elim (r.template) [ none ↦ some missing_template | some t ↦ none ])

-- `ValidateCaffe2JobSpec`: `none` is a nil error.
unfoldable pub validate : Caffe2JobSpec → Outcome (Option Invalid)
unfolding has_chief check_backend check_template
validate c = elim (has_chief c.termination_policy) [
  | false ↦ returns (some Invalid.termination_policy)
  | true ↦ check_backend c c.backend >>= check_template c
]
