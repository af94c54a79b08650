-- ===== src/Api/Validation/Laws.antt =====
-- When a spec is valid, and what the defaults do to it.
use caffe2_operator.Prelude.{
  ◌↔◌, ◌≡◌, ◌≢◌, refl, inl, inr, true, false, Option, none, some, arith, Bool-cases, Option-cases,
  if◌then◌else◌,
}
use caffe2_operator.Prelude.Int.{ℤ, pos, int_lt, int_eq}
use caffe2_operator.Prelude.Text.{is_empty}
use text.Mathlib.Text.{◌==◌}
use caffe2_operator.Go.{Outcome, returns, panics, ◌>>=◌, Ends, Ends-deref, Ends-at}
use caffe2_operator.Kube.{PodTemplateSpec}
use caffe2_operator.Api.Types.{
  Caffe2BackendSpec, ChiefSpec, TerminationPolicySpec, Caffe2ReplicaSpec, Caffe2JobSpec,
  none_backend_type, redis_backend_type, nfs_backend_type,
}
use caffe2_operator.Api.Defaults.{set_defaults, backend_of_type, default_replicas, default_backend}
use caffe2_operator.Api.Validation.{
  Invalid, has_chief, replica_count, too_many, backend_config, check_backend, check_template,
  validate,
}

unfoldable pub Single : Option ℤ → Type 0
Single replicas = (n : ℤ) × (replicas ≡ some n) × (int_lt (pos 1) n ≡ false)

-- The workers can reach each other through the backend, or there is only one.
unfoldable pub Reachable : Option Caffe2BackendSpec → Option ℤ → Type 0
unfolding Single
Reachable none replicas = Single replicas
Reachable (some b) replicas =
    ((b.type == none_backend_type) ≡ true → Single replicas)
    × ((b.type == nfs_backend_type) ≡ true → is_empty b.nfs_path ≡ false)
    × ((b.type == redis_backend_type) ≡ true → is_empty b.redis_host ≡ false)

-- A spec as the API describes it: a chief, a template, at most one replica where there is no backend
-- or the backend is of type "none", and the address that the type of the backend needs.
pub record Valid (c : Caffe2JobSpec) : Type 0 where
  pub policy : TerminationPolicySpec
  pub chief : ChiefSpec
  pub replica : Caffe2ReplicaSpec
  pub template : PodTemplateSpec
  pub has_policy : c.termination_policy ≡ some policy
  pub names_chief : policy.chief ≡ some chief
  pub has_replica : c.replica_specs ≡ some replica
  pub has_template : replica.template ≡ some template
  pub backend : Reachable c.backend replica.replicas

backend_valid :
    (c : Caffe2JobSpec) (replica : Caffe2ReplicaSpec) (o : Option Caffe2BackendSpec)
    → c.replica_specs ≡ some replica
    → Reachable o replica.replicas
    → check_backend c o ≡ returns none
unfolding check_backend too_many replica_count backend_config Reachable
backend_valid c replica none h r = ground (arith, r.1, r.2)
backend_valid c replica (some b) h (one, nfs, redis) =
    elim (Bool-cases (b.type == none_backend_type)) [
      | inl is_none ↦ let (n, e, small) = one is_none in ground (arith)
      | inr not_none ↦ ground (arith, nfs, redis)
    ]

-- A valid spec passes `ValidateCaffe2JobSpec`.
pub validate-Valid : (c : Caffe2JobSpec) → Valid c → validate c ≡ returns none
unfolding validate has_chief check_template
validate-Valid c v =
    rw (v.has_policy, v.names_chief)
      (rw (backend_valid c v.replica c.backend v.has_replica v.backend)
        (rw (v.has_replica, v.has_template) refl))

policy_of :
    (o : Option TerminationPolicySpec)
    → has_chief o ≡ true
    → (p : TerminationPolicySpec) × (c : ChiefSpec) × (o ≡ some p) × (p.chief ≡ some c)
unfolding has_chief
policy_of none h = absurd (cc h)
policy_of (some p) h = elim (Option-cases p.chief) [
  | inl e ↦ absurd (ground arith)
  | inr (c, e) ↦ (p, c, refl, e)
]

parts :
    (c : Caffe2JobSpec) (m : Outcome (Option Invalid))
    → (m >>= check_template c) ≡ returns none
    → (m ≡ returns none) × (check_template c none ≡ returns none)
unfolding check_template
parts c (returns none) h = (refl, h)
parts c (returns (some e)) h = absurd (cc h)
parts c (panics p) h = absurd (cc h)

template_of :
    (c : Caffe2JobSpec)
    → check_template c none ≡ returns none
    → (r : Caffe2ReplicaSpec) × (t : PodTemplateSpec) × (c.replica_specs ≡ some r)
      × (r.template ≡ some t)
unfolding check_template
template_of c h = elim (Option-cases c.replica_specs) [
  | inl e ↦ absurd (ground arith)
  | inr (r, e) ↦ elim (Option-cases r.template) [
    | inl e' ↦ absurd (ground arith)
    | inr (t, e') ↦ (r, t, e, e')
  ]
]

Single-of :
    (c : Caffe2JobSpec) (r : Caffe2ReplicaSpec) (rest : Option Invalid)
    → c.replica_specs ≡ some r
    → (too_many c true >>= λ many. returns (if many then some Invalid.multiple_pods else rest))
      ≡ returns none
    → Single r.replicas
unfolding too_many replica_count Single
Single-of c r rest e h = elim (Option-cases r.replicas) [
  | inl e' ↦ absurd (ground arith)
  | inr (n, e') ↦ (n, e', ground arith)
]

backend_of :
    (c : Caffe2JobSpec) (r : Caffe2ReplicaSpec) (o : Option Caffe2BackendSpec)
    → c.replica_specs ≡ some r
    → check_backend c o ≡ returns none
    → Reachable o r.replicas
unfolding check_backend Reachable
backend_of c r none e h = Single-of c r none e h
backend_of c r (some b) e h = (
  λ t. Single-of c r (backend_config b) e (rw t at h),
  λ t. unfold backend_config too_many replica_count in ground arith,
  λ t. unfold backend_config too_many replica_count in ground arith,
)

-- A spec that passes `ValidateCaffe2JobSpec` is valid.
pub validate_sound : (c : Caffe2JobSpec) → validate c ≡ returns none → Valid c
unfolding validate
validate_sound c h = elim (Bool-cases (has_chief c.termination_policy)) [
  | inr unnamed ↦ absurd (ground arith)
  | inl named ↦
      let (passes, template) = parts c (check_backend c c.backend) (rw (named, validate) at h) in
      let (p, ch, ep, ec) = policy_of c.termination_policy named in
      let (r, t, er, et) = template_of c template in
      record {
        policy = p;
        chief = ch;
        replica = r;
        template = t;
        has_policy = ep;
        names_chief = ec;
        has_replica = er;
        has_template = et;
        backend = backend_of c r c.backend er passes;
      }
]

-- A spec passes `ValidateCaffe2JobSpec` exactly where it has a chief, a template, at most one replica
-- where there is no backend, and the address that its backend type needs.
pub validate_iff : (c : Caffe2JobSpec) → (validate c ≡ returns none) ↔ Valid c
validate_iff c = (validate_sound c, validate-Valid c)

default_redis :
    (now n : ℤ) (c : Caffe2JobSpec) (r : Caffe2ReplicaSpec)
    → c.backend ≡ none
    → c.replica_specs ≡ some r
    → r.replicas ≡ some n
    → int_eq n (pos 1) ≡ false
    → Ends (λ d. d.backend ≡ some (backend_of_type redis_backend_type)) (set_defaults now c)
unfolding set_defaults default_backend default_replicas
default_redis now n c r b e en ne =
    Ends-deref (λ d. d.backend ≡ some (backend_of_type redis_backend_type)) c.replica_specs r _ e
      (rw (b, en, default_replicas) (rw ne refl))

-- A job without a backend and with a number of replicas other than one gets a Redis backend that has
-- no host: the spec that `SetDefaults` returns does not pass `ValidateCaffe2JobSpec`.
pub defaulted_backend_invalid :
    (now n : ℤ) (c d : Caffe2JobSpec) (r : Caffe2ReplicaSpec)
    → c.backend ≡ none
    → c.replica_specs ≡ some r
    → r.replicas ≡ some n
    → int_eq n (pos 1) ≡ false
    → set_defaults now c ≡ returns d
    → validate d ≢ returns none
unfolding Reachable
defaulted_backend_invalid now n c d r b e en ne run v =
    let is_redis =
      Ends-at (λ d. d.backend ≡ some (backend_of_type redis_backend_type)) (set_defaults now c) d
        (default_redis now n c r b e en ne) run in
    absurd (cc ((rw is_redis at (validate_sound d v).backend).2 refl))
