-- ===== src/Controller/ServiceControl/Fake.antt =====
-- `FakeServiceControl` of pkg/controller/controller_utils.go, which tests put in the place of the real
-- one. Its number of calls is far below what an `int` holds.
use caffe2_operator.Prelude.{
  ℕ, suc, ◌≤◌, ◌<◌, ◌≡◌, sym, ◌∙◌, String, Bool, true, false, not, ◌&&◌, Option, none, some, List,
  [], ◌∷◌, ◌++◌, if◌then◌else◌, length, length-append, arith, inl, inr, Bool-cases, ltb, ltb→lt,
}
use caffe2_operator.Prelude.Int.{ℤ, pos, int_eq, int_lt}
use caffe2_operator.Prelude.Decimal.{itoa, itoa_int}
use caffe2_operator.Prelude.Text.{◌<>◌}
use caffe2_operator.Go.{Error, message, Outcome, returns, ◌>>=◌, deref, Ends, Ends-then}
use caffe2_operator.Kube.{OwnerReference, Service}

pub record FakeServiceControl : Type 0 where
  pub templates : List Service
  pub controller_refs : List OwnerReference
  pub delete_pod_name : List String
  pub patches : List String
  pub err : Option Error
  pub create_limit : ℤ
  pub create_call_count : ℕ

-- The call is counted, and whether it is over the limit.
abbrev pub counted : FakeServiceControl → FakeServiceControl
counted f = record f { create_call_count = suc f.create_call_count }

over_limit : FakeServiceControl → Bool
over_limit f =
    not (int_eq f.create_limit (pos 0)) && int_lt f.create_limit (pos f.create_call_count)

refused : FakeServiceControl → Error
refused f = message (
    "Not creating service, limit "
    <> itoa_int f.create_limit
    <> " already reached (create call "
    <> itoa f.create_call_count
    <> ")")

abbrev pub recorded : Service → FakeServiceControl → FakeServiceControl
recorded service f = record f { templates = f.templates ++ service ∷ [] }

-- `PatchService`
unfoldable pub patch_service : String → FakeServiceControl → Option Error × FakeServiceControl
patch_service patch f = (f.err, record f { patches = f.patches ++ patch ∷ [] })

-- `CreateServices`
unfoldable pub create_services : Service → FakeServiceControl → Option Error × FakeServiceControl
unfolding over_limit refused
create_services service f =
    if over_limit (counted f)
    then (some (refused (counted f)), counted f)
    else (f.err, recorded service (counted f))

-- `CreateServicesWithControllerRef`, which dereferences its reference.
unfoldable pub create_services_with_controller_ref :
    Service
    → Option OwnerReference
    → FakeServiceControl
    → Outcome (Option Error × FakeServiceControl)
unfolding over_limit refused
create_services_with_controller_ref service controller_ref f =
    if over_limit (counted f)
    then returns (some (refused (counted f)), counted f)
    else (deref controller_ref >>= λ ref. returns (
      f.err,
      record (recorded service (counted f)) { controller_refs = f.controller_refs ++ ref ∷ [] },
    ))

pub data FakeCall : Type 0 where
  patch : String → FakeCall
  create : Service → FakeCall
  create_with_ref : Service → Option OwnerReference → FakeCall

unfoldable pub fake_call :
    FakeCall → FakeServiceControl → Outcome (Option Error × FakeServiceControl)
fake_call (patch data_) f = returns (patch_service data_ f)
fake_call (create service) f = returns (create_services service f)
fake_call (create_with_ref service ref) f = create_services_with_controller_ref service ref f

unfoldable pub fake_calls : List FakeCall → FakeServiceControl → Outcome FakeServiceControl
fake_calls [] f = returns f
fake_calls (c ∷ cs) f = fake_call c f >>= λ r. fake_calls cs r.1

-- The limit, the services of the calls up to it, and no more references than services.
pub record WithinLimit (limit : ℕ) (f : FakeServiceControl) : Type 0 where
  pub same_limit : f.create_limit ≡ pos limit
  pub below : f.create_call_count ≤ limit → length f.templates ≡ f.create_call_count
  pub above : limit ≤ f.create_call_count → length f.templates ≡ limit
  pub refs : length f.controller_refs ≤ length f.templates

module _ (limit : ℕ) (positive : 0 < limit) where
  over_limit-ltb :
      (f : FakeServiceControl)
      → f.create_limit ≡ pos limit
      → over_limit f ≡ ltb limit f.create_call_count
  unfolding over_limit
  over_limit-ltb f h = ground (arith, h)

  recorded-WithinLimit :
      (f : FakeServiceControl) (service : Service) (refs : List OwnerReference)
      → WithinLimit limit f
      → over_limit (counted f) ≡ false
      → length refs ≤ suc (length f.templates)
      → WithinLimit limit (record (recorded service (counted f)) { controller_refs = refs })
  recorded-WithinLimit f service refs w h le =
      let within : suc f.create_call_count ≤ limit =
        ground (arith, sym (over_limit-ltb (counted f) w.same_limit) ∙ h) in
      let more : length (f.templates ++ service ∷ []) ≡ suc (length f.templates) =
        omega (arith, length-append f.templates (service ∷ [])) in
      record {
        same_limit = w.same_limit;
        below = λ le'. omega (arith, more, w.below (omega arith));
        above = λ le'. omega (arith, more, w.below (omega arith));
        refs = omega (arith, more, le);
      }

  counted-WithinLimit :
      (f : FakeServiceControl)
      → WithinLimit limit f
      → over_limit (counted f) ≡ true
      → WithinLimit limit (counted f)
  counted-WithinLimit f w h =
      let over : limit < suc f.create_call_count =
        ltb→lt limit (suc f.create_call_count)
          (sym (over_limit-ltb (counted f) w.same_limit) ∙ h) in
      record {
        same_limit = w.same_limit;
        below = λ le. absurd (no_room over le);
        above = λ le. w.above (omega (arith, over));
        refs = w.refs;
      }
    where
      no_room : {a b : ℕ} → a < b → b ≤ a → ⊥
      no_room h h' = omega arith

  fake_call-WithinLimit :
      (c : FakeCall) (f : FakeServiceControl)
      → WithinLimit limit f
      → Ends (λ r. WithinLimit limit r.1) (fake_call c f)
  unfolding fake_call patch_service create_services create_services_with_controller_ref
  fake_call-WithinLimit (patch data_) f w = record {
    same_limit = w.same_limit;
    below = w.below;
    above = w.above;
    refs = w.refs;
  }
  fake_call-WithinLimit (create service) f w = elim (Bool-cases (over_limit (counted f))) [
    | inl h ↦ rw h (counted-WithinLimit f w h)
    | inr h ↦ rw h (recorded-WithinLimit f service f.controller_refs w h (omega (arith, w.refs)))
  ]
  fake_call-WithinLimit (create_with_ref service ref) f w =
      elim (Bool-cases (over_limit (counted f))) [
        | inl h ↦ rw h (counted-WithinLimit f w h)
        | inr h ↦ rw h (with_ref h ref)
      ]
    where
      with_ref :
          over_limit (counted f) ≡ false
          → (ref : Option OwnerReference)
          → Ends
              (λ (r : Option Error × FakeServiceControl). WithinLimit limit r.1)
              (deref ref >>= λ x. returns (
                f.err,
                record (recorded service (counted f)) {
                  controller_refs = f.controller_refs ++ x ∷ [];
                },
              ))
      with_ref h none = tt
      with_ref h (some x) =
          recorded-WithinLimit f service (f.controller_refs ++ x ∷ []) w h
            (omega (arith, w.refs, length-append f.controller_refs (x ∷ [])))

  -- However a fake with a positive limit is called, if no call panics: it has recorded as many services
  -- as there were calls to create one, or as the limit if there were more, and no more references than
  -- services.
  pub fake_calls-WithinLimit :
      (cs : List FakeCall) (f : FakeServiceControl)
      → WithinLimit limit f
      → Ends (WithinLimit limit) (fake_calls cs f)
  unfolding fake_calls
  fake_calls-WithinLimit [] f w = w
  fake_calls-WithinLimit (c ∷ cs) f w =
      Ends-then (λ r. WithinLimit limit r.1) (WithinLimit limit) (fake_call c f) _
        (fake_call-WithinLimit c f w) (λ r v. fake_calls-WithinLimit cs r.1 v)
