-- ===== src/Controller/RefManager/Claims.antt =====
-- Which pods `claim_pods` returns.
use caffe2_operator.Prelude.{
  ◌≡◌, refl, ◌⊎◌, inl, inr, Bool, true, false, Option, none, some, List, arith, Bool-cases,
  Option-cases,
}
use text.Mathlib.Text.{◌==◌}
use text.Mathlib.TextEquality.{eq_iff}
use caffe2_operator.Go.{Error}
use caffe2_operator.Kube.{OwnerReference, Pod}
use caffe2_operator.Controller.Cluster.{Cluster}
use caffe2_operator.Controller.RefManager.{
  Manager, Session, claim_object, attempted, claim_owned, claim_orphan, adopt_pod, release_pod,
  matches_pod, claim_pod,
}

module _ (k : Cluster) (m : Manager) where
  -- The pod's controller reference names the manager's controller.
  unfoldable pub Owned : Pod → Type 0
  Owned pod =
      (ref : OwnerReference) × (k.controller_of pod.meta.owner_references ≡ some ref)
      × (ref.uid ≡ m.controller.uid)

  -- No reference of the pod is a controller's, and nothing is being deleted.
  abbrev pub Adoptable : Pod → Type 0
  Adoptable pod =
      (k.controller_of pod.meta.owner_references ≡ none)
      × (m.controller.deletion_timestamp ≡ none)
      × (pod.meta.deletion_timestamp ≡ none)

  -- The four things that may happen to a pod, each with what `claim_pod` returns.
  pub data Claim (pod : Pod) (matches : Bool) (s : Session) (r : Bool × Option Error × Session)
      : Type 0 where
    ignored :
        (Owned pod → matches ≡ false)
        → (Adoptable pod → matches ≡ false)
        → r ≡ (false, none, s)
        → Claim pod matches s r
    kept : Owned pod → matches ≡ true → r ≡ (true, none, s) → Claim pod matches s r
    released :
        Owned pod
        → matches ≡ false
        → m.controller.deletion_timestamp ≡ none
        → r ≡ attempted false (release_pod k m pod s)
        → Claim pod matches s r
    adopted :
        Adoptable pod
        → matches ≡ true
        → r ≡ attempted true (adopt_pod k m pod s)
        → Claim pod matches s r

  foreign :
      (pod : Pod) (matches : Bool) (ref : OwnerReference)
      → k.controller_of pod.meta.owner_references ≡ some ref
      → (ref.uid == m.controller.uid) ≡ false
      → Owned pod
      → matches ≡ false
  unfolding Owned
  foreign pod matches ref e other (r, e', u) = ground (arith, eq_iff ref.uid m.controller.uid)

  Claim-owned :
      (pod : Pod) (matches : Bool) (s : Session) (ref : OwnerReference)
      → k.controller_of pod.meta.owner_references ≡ some ref
      → Claim pod matches s (claim_owned m ref matches (release_pod k m pod) s)
  unfolding claim_owned
  Claim-owned pod matches s ref e = elim (Bool-cases (ref.uid == m.controller.uid)) [
    | inr other ↦ ignored (foreign pod matches ref e other) (λ h. cc) (rw other)
    | inl same ↦
        let mine : Owned pod = unfold Owned in (ref, e, (eq_iff ref.uid m.controller.uid).0 same) in
        elim (Bool-cases matches) [
          | inl yes_ ↦ kept mine yes_ (rw (same, yes_))
          | inr no_ ↦ elim (Option-cases m.controller.deletion_timestamp) [
            | inl live ↦ released mine no_ live (rw (same, no_, live))
            | inr (t, gone) ↦ ignored (λ h. no_) (λ h. no_) (rw (same, no_, gone))
          ]
        ]
  ]

  Claim-orphan :
      (pod : Pod) (matches : Bool) (s : Session)
      → k.controller_of pod.meta.owner_references ≡ none
      → Claim pod matches s (claim_orphan m pod.meta matches (adopt_pod k m pod) s)
  unfolding claim_orphan Owned
  Claim-orphan pod false s e = elim (Option-cases m.controller.deletion_timestamp) [
    | inl live ↦ ignored (λ h. refl) (λ h. refl) (rw live)
    | inr (t, gone) ↦ ignored (λ h. refl) (λ h. refl) (rw gone)
  ]
  Claim-orphan pod true s e = elim (Option-cases m.controller.deletion_timestamp) [
    | inr (t, gone) ↦ ignored (λ h. cc (h.1)) (λ h. cc (h.1)) (rw gone)
    | inl live ↦ elim (Option-cases pod.meta.deletion_timestamp) [
      | inl alive ↦ adopted (e, live, alive) refl (rw (live, alive))
      | inr (t, dying) ↦ ignored (λ h. cc (h.1)) (λ h. cc (h.2)) (rw (live, dying))
    ]
  ]

  pub Claim-pod :
      (filters : List (Pod → Bool)) (pod : Pod) (s : Session)
      → Claim pod (matches_pod k m filters pod) s (claim_pod k m filters pod s)
  unfolding claim_pod claim_object
  Claim-pod filters pod s = elim (Option-cases (k.controller_of pod.meta.owner_references)) [
    | inl e ↦ rw (e, claim_pod, claim_object) (Claim-orphan pod (matches_pod k m filters pod) s e)
    | inr (ref, e) ↦
        rw (e, claim_pod, claim_object) (Claim-owned pod (matches_pod k m filters pod) s ref e)
  ]

  adopt_once :
      (pod : Pod) (s : Session)
      → (adopt_pod k m pod s).0 ≡ none
      → (adopt_pod k m pod s).1.once ≡ some none
  unfolding adopt_pod
  adopt_once pod s h = ground arith

  adopt_keeps_once :
      (pod : Pod) (s : Session) (e : Option Error)
      → s.once ≡ some e
      → (adopt_pod k m pod s).1.once ≡ some e
  unfolding adopt_pod
  adopt_keeps_once pod s e h = ground arith

  release_keeps_once : (pod : Pod) (s : Session) → (release_pod k m pod s).1.once ≡ s.once
  unfolding release_pod
  release_keeps_once pod s = refl

  attempted-false : (x : Option Error × Session) → (attempted false x).0 ≡ false
  unfolding attempted
  attempted-false (none, s) = refl
  attempted-false (some e, s) = ground arith

  attempted-true : (x : Option Error × Session) → (attempted true x).0 ≡ true → x.0 ≡ none
  unfolding attempted
  attempted-true (none, s) h = refl
  attempted-true (some e, s) h = ground arith

  pub attempted_session : (b : Bool) (x : Option Error × Session) → (attempted b x).2 ≡ x.1
  unfolding attempted
  attempted_session b (none, s) = refl
  attempted_session b (some e, s) = ground arith

  module _ (filters : List (Pod → Bool)) where
    pub claim_pod_keeps_once :
        (pod : Pod) (s : Session) (e : Option Error)
        → s.once ≡ some e
        → (claim_pod k m filters pod s).2.once ≡ some e
    claim_pod_keeps_once pod s e h = elim (Claim-pod filters pod s) [
      | ignored _ _ r ↦ rw r h
      | kept _ _ r ↦ rw r h
      | released _ _ _ r ↦ rw (r, attempted_session, release_keeps_once) h
      | adopted _ _ r ↦ rw (r, attempted_session) (adopt_keeps_once pod s e h)
    ]

    -- Why a pod is claimed, in the session after the round.
    abbrev pub Grounds : Pod → Session → Type 0
    Grounds pod s =
        (matches_pod k m filters pod ≡ true) × (Owned pod ⊎ (Adoptable pod × (s.once ≡ some none)))

    adopt_grants :
        (pod : Pod) (s : Session)
        → Adoptable pod
        → matches_pod k m filters pod ≡ true
        → claim_pod k m filters pod s ≡ attempted true (adopt_pod k m pod s)
        → (claim_pod k m filters pod s).0 ≡ true
        → (claim_pod k m filters pod s).2.once ≡ some none
    adopt_grants pod s o t r h =
        rw (r, attempted_session)
          (adopt_once pod s (attempted-true (adopt_pod k m pod s) (rw r at h)))

    pub claim_pod_sound :
        (pod : Pod) (s : Session)
        → (claim_pod k m filters pod s).0 ≡ true
        → Grounds pod (claim_pod k m filters pod s).2
    claim_pod_sound pod s h = elim (Claim-pod filters pod s) [
      | ignored _ _ r ↦ cc
      | kept o t r ↦ (t, inl o)
      | released _ _ _ r ↦ cc (attempted-false (release_pod k m pod s))
      | adopted o t r ↦ (t, inr (o, adopt_grants pod s o t r h))
    ]

    pub claim_pod_complete :
        (pod : Pod) (s : Session)
        → Owned pod
        → matches_pod k m filters pod ≡ true
        → claim_pod k m filters pod s ≡ (true, none, s)
    unfolding Owned
    claim_pod_complete pod s o t = elim (Claim-pod filters pod s) [
      | ignored no_ _ r ↦ cc (no_ o)
      | kept _ _ r ↦ r
      | released _ no_ _ r ↦ cc
      | adopted a _ r ↦ cc (o.1, a.0)
    ]
