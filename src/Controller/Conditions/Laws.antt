-- ===== src/Controller/Conditions/Laws.antt =====
-- What `set_condition` and `remove_condition` do to the conditions of a job.
use caffe2_operator.Prelude.{
  String, ◌≡◌, refl, ap, inl, inr, Option, none, some, true, false, List, [], ◌∷◌, ◌++◌, ◌&&◌,
  arith, if◌then◌else◌, Bool-cases,
}
use text.Mathlib.Text.{◌==◌}
use text.Mathlib.TextEquality.{eq_iff}
use text.Mathlib.TextPositions.{eq_refl}
use caffe2_operator.Api.Types.{Caffe2JobCondition, Caffe2JobStatus}
use caffe2_operator.Controller.Conditions.{
  find_condition, get_condition, filter_out_condition, same_status, same_reason, keep_transition,
  set_condition, remove_condition,
}

-- After filtering out a type it is not found, and every other type is found as before.
find-filter :
    (cs : List Caffe2JobCondition) (t u : String)
    → find_condition u (filter_out_condition cs t) ≡ (if t == u then none else find_condition u cs)
unfolding find_condition filter_out_condition
find-filter [] t u = ground arith
find-filter (c ∷ cs) t u =
    ground (arith, find-filter cs t u, eq_iff c.type t, eq_iff c.type u, eq_iff t u)

find-append :
    (cs : List Caffe2JobCondition) (c : Caffe2JobCondition) (u : String)
    → find_condition u (cs ++ c ∷ []) ≡ (elim (find_condition u cs) [
      | some d ↦ some d
      | none ↦ if c.type == u then some c else none
    ])
unfolding find_condition
find-append [] c u = refl
find-append (d ∷ cs) c u = ground (arith, find-append cs c u)

type-keep :
    (o : Option Caffe2JobCondition) (c : Caffe2JobCondition) → (keep_transition o c).type ≡ c.type
unfolding keep_transition
type-keep none c = refl
type-keep (some d) c = ground arith

-- What the source promises of a condition that is set over the current one of its type: an equal
-- status and reason change nothing, and an equal status keeps the transition time.
abbrev pub updated : Option Caffe2JobCondition → Caffe2JobCondition → Caffe2JobCondition
updated none c = c
updated (some d) c =
    if d.status == c.status
    then if d.reason == c.reason
      then d
      else record c { last_transition_time = d.last_transition_time }
    else c

updated_same :
    (o : Option Caffe2JobCondition) (c : Caffe2JobCondition)
    → (same_status o c && same_reason o c) ≡ true
    → o ≡ some (updated o c)
unfolding same_status same_reason
updated_same none c h = cc
updated_same (some d) c h = ground arith

updated_new :
    (o : Option Caffe2JobCondition) (c : Caffe2JobCondition)
    → (same_status o c && same_reason o c) ≡ false
    → keep_transition o c ≡ updated o c
unfolding same_status same_reason keep_transition
updated_new none c h = refl
updated_new (some d) c h = ground arith

find-set :
    (cs : List Caffe2JobCondition) (c d : Caffe2JobCondition) (u : String)
    → d.type ≡ c.type
    → find_condition u (filter_out_condition cs c.type ++ d ∷ [])
      ≡ (if c.type == u then some d else find_condition u cs)
find-set cs c d u e = ground (
  arith,
  find-append (filter_out_condition cs c.type) d u,
  find-filter cs c.type u,
  e,
  eq_iff d.type u,
  eq_iff c.type u,
)

-- After `setCondition`, its type has the condition that the comments promise (an equal status and
-- reason leave the old one, an equal status keeps the old transition time), and every other type has
-- the condition that it had.
pub get-set_condition :
    (s : Caffe2JobStatus) (c : Caffe2JobCondition) (u : String)
    → get_condition (set_condition s c) u
      ≡ (if c.type == u then some (updated (get_condition s c.type) c) else get_condition s u)
unfolding set_condition
get-set_condition s c u =
    elim (Bool-cases
      (same_status (get_condition s c.type) c && same_reason (get_condition s c.type) c)) [
        | inl h ↦ rw h (
            ground (
              arith,
              updated_same (get_condition s c.type) c h,
              eq_iff c.type u,
              ap (λ (t : String). get_condition s t),
            ))
        | inr h ↦ rw h (
            rw (← updated_new (get_condition s c.type) c h) (
              find-set s.conditions c (keep_transition (get_condition s c.type) c) u
                (type-keep (get_condition s c.type) c)))
      ]

-- No two conditions have the same type.
abbrev pub Distinct : List Caffe2JobCondition → Type 0
Distinct [] = Unit
Distinct (c ∷ cs) = (find_condition c.type cs ≡ none) × Distinct cs

Distinct-filter :
    (cs : List Caffe2JobCondition) (t : String) → Distinct cs → Distinct (filter_out_condition cs t)
unfolding filter_out_condition
Distinct-filter [] t h = tt
Distinct-filter (c ∷ cs) t h = ground (arith, Distinct-filter cs t h.1, find-filter cs t c.type)

Distinct-append :
    (cs : List Caffe2JobCondition) (c : Caffe2JobCondition)
    → Distinct cs
    → find_condition c.type cs ≡ none
    → Distinct (cs ++ c ∷ [])
unfolding find_condition
Distinct-append [] c h n = (refl, tt)
Distinct-append (d ∷ cs) c h n = ground (
  arith,
  Distinct-append cs c h.1,
  find-append cs c d.type,
  eq_iff d.type c.type,
  eq_iff c.type d.type,
)

set_condition-Distinct :
    (s : Caffe2JobStatus)
    → Distinct s.conditions
    → (c : Caffe2JobCondition) → Distinct (set_condition s c).conditions
unfolding set_condition
set_condition-Distinct s h c =
    elim (Bool-cases
      (same_status (get_condition s c.type) c && same_reason (get_condition s c.type) c)) [
        | inl e ↦ rw e h
        | inr e ↦ rw e (
            Distinct-append (filter_out_condition s.conditions c.type)
              (keep_transition (get_condition s c.type) c) (Distinct-filter s.conditions c.type h)
              (rw (type-keep, find-filter, eq_refl)))
      ]

-- `setCondition` and `removementCondition` keep at most one condition of each type.
pub conditions-Distinct :
    (s : Caffe2JobStatus)
    → Distinct s.conditions
    → ((c : Caffe2JobCondition) → Distinct (set_condition s c).conditions)
      × ((t : String) → Distinct (remove_condition s t).conditions)
unfolding remove_condition
conditions-Distinct s h = (set_condition-Distinct s h, λ t. Distinct-filter s.conditions t h)

set_condition_unchanged :
    (s : Caffe2JobStatus) (c : Caffe2JobCondition)
    → (same_status (get_condition s c.type) c && same_reason (get_condition s c.type) c) ≡ true
    → set_condition s c ≡ s
unfolding set_condition
set_condition_unchanged s c h = rw h

updated_matches :
    (o : Option Caffe2JobCondition) (c : Caffe2JobCondition)
    → (same_status (some (updated o c)) c && same_reason (some (updated o c)) c) ≡ true
unfolding same_status same_reason
updated_matches none c = ground (arith, eq_refl c.status, eq_refl c.reason)
updated_matches (some d) c = ground (arith, eq_refl c.status, eq_refl c.reason)

-- Setting the same condition twice changes nothing the second time.
pub set_condition_idem :
    (s : Caffe2JobStatus) (c : Caffe2JobCondition)
    → set_condition (set_condition s c) c ≡ set_condition s c
set_condition_idem s c =
    set_condition_unchanged (set_condition s c) c
      (rw (get-set_condition, eq_refl) (updated_matches (get_condition s c.type) c))

-- What is found under the type of a condition that was set has its status and its reason.
pub updated_fields :
    (o : Option Caffe2JobCondition) (c : Caffe2JobCondition)
    → ((updated o c).status ≡ c.status) × ((updated o c).reason ≡ c.reason)
updated_fields none c = (refl, refl)
updated_fields (some d) c = ground (arith, eq_iff d.status c.status, eq_iff d.reason c.reason)

-- The rest of the status stays.
pub set_condition_rest :
    (s : Caffe2JobStatus) (c : Caffe2JobCondition)
    → ((set_condition s c).replica_statuses ≡ s.replica_statuses)
      × ((set_condition s c).start_time ≡ s.start_time)
      × ((set_condition s c).completion_time ≡ s.completion_time)
unfolding set_condition
set_condition_rest s c = ground arith
