-- ===== src/Controller/ServiceRefManager/Claimed.antt =====
-- Which services `claim_services` returns.
use mathlib.Core.List.{Memᴰ}
use caffe2_operator.Prelude.{
  ◌≡◌, refl, ◌⊎◌, inl, inr, Bool, true, false, Option, none, some, List, [], ◌∷◌, arith,
  Option-cases,
}
use caffe2_operator.Go.{Error}
use caffe2_operator.Kube.{Service}
use caffe2_operator.Controller.Cluster.{Cluster}
use caffe2_operator.Controller.RefManager.{Manager, Session, claim_object}
use caffe2_operator.Controller.ServiceRefManager.{
  matches_service, claim_service, gather, claim_each_service, claim_services,
}
use caffe2_operator.Controller.ServiceRefManager.Laws.{is_own}

module _ (k : Cluster) (m : Manager) (filters : List (Service → Bool)) where
  -- No reference of the service is a controller's, and nothing is being deleted.
  abbrev pub IsFree : Service → Type 0
  IsFree service =
      (k.controller_of service.meta.owner_references ≡ none)
      × (m.controller.deletion_timestamp ≡ none)
      × (service.meta.deletion_timestamp ≡ none)

  -- The controller may have the service.
  abbrev pub MayHave : Service → Type 0
  MayHave service =
      (matches_service k m filters service ≡ true)
      × ((is_own k m filters service ≡ true) ⊎ IsFree service)

  claim_service_sound :
      (service : Service) (s : Session)
      → (claim_service k m filters service s).0 ≡ true
      → MayHave service
  unfolding claim_service claim_object
  claim_service_sound service s h =
      elim (Option-cases (k.controller_of service.meta.owner_references)) [
        | inr (ref, owner) ↦ (ground arith, inl (ground arith))
        | inl owner ↦ elim (Option-cases m.controller.deletion_timestamp) [
          | inr (t, e) ↦ absurd (ground arith)
          | inl live ↦ elim (Option-cases service.meta.deletion_timestamp) [
            | inr (t, e) ↦ absurd (ground arith)
            | inl there ↦ (ground arith, inr (owner, live, there))
          ]
        ]
      ]

  claim_service_complete :
      (service : Service) (s : Session)
      → is_own k m filters service ≡ true
      → matches_service k m filters service ≡ true
      → claim_service k m filters service s ≡ (true, none, s)
  unfolding claim_service claim_object
  claim_service_complete service s o t = ground arith

  mem-gather :
      (p x : Service) (b : Bool) (e : Option Error) (rest : List Service × List Error × Session)
      → Memᴰ x (gather k m p b e rest).0
      → ((x ≡ p) × (b ≡ true)) ⊎ Memᴰ x rest.0
  unfolding gather
  mem-gather p x b (some e) (c, l, s) h = inr h
  mem-gather p x true none (c, l, s) (Memᴰ.head h) = inl (h, refl)
  mem-gather p x true none (c, l, s) (Memᴰ.tail h) = inr h
  mem-gather p x false none (c, l, s) h = inr h

  gather-mem :
      (p x : Service) (b : Bool) (e : Option Error) (rest : List Service × List Error × Session)
      → Memᴰ x rest.0
      → Memᴰ x (gather k m p b e rest).0
  unfolding gather
  gather-mem p x b (some e) (c, l, s) h = h
  gather-mem p x true none (c, l, s) h = Memᴰ.tail h
  gather-mem p x false none (c, l, s) h = h

  gather-head :
      (p x : Service) (rest : List Service × List Error × Session)
      → x ≡ p
      → Memᴰ x (gather k m p true none rest).0
  unfolding gather
  gather-head p x (c, l, s) e = Memᴰ.head e

  each_sound :
      (services : List Service) (s : Session) (x : Service)
      → Memᴰ x (claim_each_service k m filters services s).0
      → Memᴰ x services × MayHave x
  unfolding claim_each_service
  each_sound [] s x h = elim h [ ]
  each_sound (p ∷ services) s x h =
      elim (mem-gather p x (claim_service k m filters p s).0 (claim_service k m filters p s).1
        (claim_each_service k m filters services (claim_service k m filters p s).2) h) [
          | inl (same, done) ↦ (Memᴰ.head same, rw same (claim_service_sound p s done))
          | inr later ↦
              let (found, may) = each_sound services (claim_service k m filters p s).2 x later in
              (Memᴰ.tail found, may)
        ]

  each_complete :
      (services : List Service) (s : Session) (x : Service)
      → Memᴰ x services
      → is_own k m filters x ≡ true
      → matches_service k m filters x ≡ true
      → Memᴰ x (claim_each_service k m filters services s).0
  unfolding claim_each_service
  each_complete [] s x h o t = elim h [ ]
  each_complete (p ∷ services) s x (Memᴰ.head e) o t =
      rw (claim_service_complete p s (rw e at o) (rw e at t))
        (gather-head p x (claim_each_service k m filters services s) e)
  each_complete (p ∷ services) s x (Memᴰ.tail h) o t =
      gather-mem p x (claim_service k m filters p s).0 (claim_service k m filters p s).1
        (claim_each_service k m filters services (claim_service k m filters p s).2)
        (each_complete services (claim_service k m filters p s).2 x h o t)

  -- `ClaimServices` returns only services of the list that match and that the controller owns, or that
  -- no controller owned while nothing was being deleted; and it returns every service of the list that
  -- the controller owns and that matches, whatever happens to the others.
  pub claim_services_exactly :
      (services : List Service) (s : Session) (x : Service)
      → (Memᴰ x (claim_services k m filters services s).0 → Memᴰ x services × MayHave x)
        × (Memᴰ x services
            → is_own k m filters x ≡ true
            → matches_service k m filters x ≡ true
            → Memᴰ x (claim_services k m filters services s).0)
  unfolding claim_services
  claim_services_exactly services s x = (each_sound services s x, each_complete services s x)
