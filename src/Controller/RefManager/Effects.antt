-- ===== src/Controller/RefManager/Effects.antt =====
-- Which calls `claim_pods` makes.
use mathlib.Core.List.{Memᴰ}
use caffe2_operator.Prelude.{
  ◌≡◌, refl, ◌++◌, inl, inr, Bool, true, false, Option, none, some, List, [], ◌∷◌, Option-cases,
}
use caffe2_operator.Go.{Error}
use caffe2_operator.Kube.{Pod}
use caffe2_operator.Controller.Cluster.{Call, patch_pod, World, Cluster}
use caffe2_operator.Controller.RefManager.{
  Manager, Session, first_can_adopt, can_adopt, adopt_after, adopt_pod, release_pod,
  add_controller_patch, delete_owner_ref_patch, matches_pod, claim_pod, claim_each,
}
use caffe2_operator.Controller.RefManager.Claims.{
  Owned, Adoptable, Claim-pod, ignored, kept, released, adopted, attempted_session,
}
use caffe2_operator.Controller.RefManager.Claimed.{collect_session}

-- Every call of a list satisfies `P`.
abbrev pub AllCalls : (Call → Type 0) → List Call → Type 0
AllCalls P [] = Unit
AllCalls P (c ∷ cs) = P c × AllCalls P cs

-- Between the two worlds, only calls that satisfy `P` have been made.
pub record Made (P : Call → Type 0) (w w' : World) : Type 0 where
  pub calls : List Call
  pub made : w'.calls ≡ calls ++ w.calls
  pub each : AllCalls P calls

-- One more call.
pub Made-more :
    (P : Call → Type 0) (c : Call) (w w' w'' : World)
    → w''.calls ≡ c ∷ w'.calls
    → P c
    → Made P w w'
    → Made P w w''
Made-more P c w w' w'' e p h = record {
  calls = c ∷ h.calls;
  made = rw h.made at e;
  each = (p, h.each);
}

module _ (k : Cluster) (m : Manager) (filters : List (Pod → Bool)) where
  -- A call that claiming the pods of a list may make: a call of the recheck (those that `Q` admits),
  -- an adoption of a matching orphan, or a release of a pod of this controller that does not match;
  -- the last two only while the controller is not being deleted.
  pub data Allowed (Q : Call → Type 0) (pods : List Pod) (c : Call) : Type 0 where
    recheck : Q c → Allowed Q pods c
    adopt :
        (pod : Pod)
        → Memᴰ pod pods
        → Adoptable k m pod
        → matches_pod k m filters pod ≡ true
        → c ≡ patch_pod pod.meta.namespace pod.meta.name (add_controller_patch k m pod)
        → Allowed Q pods c
    release :
        (pod : Pod)
        → Memᴰ pod pods
        → Owned k m pod
        → matches_pod k m filters pod ≡ false
        → m.controller.deletion_timestamp ≡ none
        → c ≡ patch_pod pod.meta.namespace pod.meta.name (delete_owner_ref_patch k m pod)
        → Allowed Q pods c

  module _ (Q : Call → Type 0) (all : List Pod) (origin : World)
      (rechecks : (f : World → Option Error × World) (w : World)
        → m.can_adopt_func ≡ some f
        → Made (Allowed Q all) origin w
        → Made (Allowed Q all) origin (f w).1) where
    -- Only allowed calls have been made since.
    unfoldable pub Clean : Session → Type 0
    Clean s = Made (Allowed Q all) origin s.world

    first_can_adopt-Clean :
        (o : Option (World → Option Error × World)) (s : Session)
        → m.can_adopt_func ≡ o
        → Clean s
        → Clean (first_can_adopt o s).1
    unfolding first_can_adopt Clean
    first_can_adopt-Clean none s e h = h
    first_can_adopt-Clean (some f) s e h = rechecks f s.world e h

    can_adopt-Clean : (s : Session) → Clean s → Clean (can_adopt m s).1
    unfolding can_adopt
    can_adopt-Clean s h = elim (Option-cases s.once) [
      | inl first ↦ rw (first, can_adopt) (first_can_adopt-Clean m.can_adopt_func s refl h)
      | inr (e, later) ↦ rw (later, can_adopt) h
    ]

    adopt_after-Clean :
        (pod : Pod) (r : Option Error × Session)
        → Memᴰ pod all
        → Adoptable k m pod
        → matches_pod k m filters pod ≡ true
        → Clean r.1
        → Clean (adopt_after k m pod r).1
    unfolding adopt_after Clean
    adopt_after-Clean pod (some e, s) i a t h = h
    adopt_after-Clean pod (none, s) i a t h =
        Made-more _ _ origin s.world _ refl (adopt pod i a t refl) h

    release-Clean :
        (pod : Pod) (s : Session)
        → Memᴰ pod all
        → Owned k m pod
        → matches_pod k m filters pod ≡ false
        → m.controller.deletion_timestamp ≡ none
        → Clean s
        → Clean (release_pod k m pod s).1
    unfolding release_pod Clean
    release-Clean pod s i o t d h = Made-more _ _ origin s.world _ refl (release pod i o t d refl) h

    claim_pod-Clean :
        (pod : Pod) (s : Session) → Memᴰ pod all → Clean s → Clean (claim_pod k m filters pod s).2
    claim_pod-Clean pod s i h = elim (Claim-pod k m filters pod s) [
      | ignored _ _ r ↦ rw r h
      | kept _ _ r ↦ rw r h
      | released o t d r ↦ rw (r, attempted_session) (release-Clean pod s i o t d h)
      | adopted a t r ↦
          rw (r, attempted_session)
            (unfold adopt_pod in adopt_after-Clean pod (can_adopt m s) i a t (can_adopt-Clean s h))
    ]

    -- Claiming the pods of a list makes allowed calls only.
    pub claim_each-Clean :
        (pods : List Pod) (s : Session)
        → ((pod : Pod) → Memᴰ pod pods → Memᴰ pod all)
        → Clean s
        → Clean (claim_each k m filters pods s).2
    unfolding claim_each
    claim_each-Clean [] s i h = h
    claim_each-Clean (p ∷ pods) s i h = rw collect_session (
        claim_each-Clean pods (claim_pod k m filters p s).2 (λ x j. i x (Memᴰ.tail j))
          (claim_pod-Clean p s (i p (Memᴰ.head refl)) h))
