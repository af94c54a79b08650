-- ===== src/Controller/Pods/Requests.antt =====
-- What it is that the server has been asked for a pod, and that `createNewPod` does so where it returns nil.
use mathlib.Core.List.{Memᴰ, append_assoc}
use caffe2_operator.Prelude.{ℕ, ◌^◌, ◌<◌, String, ◌≡◌, refl, sym, false, List, [], ◌∷◌, ◌++◌, arith}
use caffe2_operator.Prelude.Decimal.{itoa}
use caffe2_operator.Prelude.Decimal.RoundTrip.{parse_int-itoa}
use caffe2_operator.Prelude.Text.{is_empty, ◌<>◌}
use text.Mathlib.TextEquality.{eq_iff}
use text.Mathlib.TextLemmas.{append-eq-nil_iff}
use caffe2_operator.Go.{ok, deref, Ends, Ends-bind, Ends-then}
use caffe2_operator.Kube.{Pod}
use caffe2_operator.Api.Types.{Caffe2ReplicaSpec, Caffe2Job}
use caffe2_operator.Controller.Cluster.{Call, create_pod, World, Cluster}
use caffe2_operator.Controller.Config.{
  Caffe2Config, marshal, gen_cluster_spec, gen_caffe2_config_json_str,
}
use caffe2_operator.Controller.RefManager.Effects.{Made}
use caffe2_operator.Controller.Pods.Creation.{IsWorker, Fills, create_configured-Fills}
use caffe2_operator.Controller.Pods.{add_backend_env, create_for_key, create_new_pod}

append_nonempty : (s t : String) → is_empty s ≡ false → is_empty (s <> t) ≡ false
append_nonempty s t h =
    ground (arith, eq_iff (s <> t) "", eq_iff s "", append-eq-nil_iff {p = s} {q = t})

marshal_nonempty : (c : Caffe2Config) → is_empty (marshal c) ≡ false
unfolding marshal
marshal_nonempty c = append_nonempty "{\"cluster\":" _ refl

-- The configuration text of a replica is not empty.
config_nonempty :
    (k : Cluster) (job : Caffe2Job) (i : ℕ)
    → i < 2 ^ 31
    → Ends (λ config. is_empty config ≡ false) (gen_caffe2_config_json_str k job "worker" (itoa i))
unfolding gen_caffe2_config_json_str
config_nonempty k job i bound =
    rw (parse_int-itoa 32 i bound, gen_caffe2_config_json_str)
      (Ends-bind (λ config. is_empty config ≡ false) (gen_cluster_spec k job) _
        (λ c. marshal_nonempty _))

module _ (k : Cluster) (job : Caffe2Job) (job_key : String) (i : ℕ) (bound : i < 2 ^ 31) where
  -- If `createNewPod` returns, it has asked for a pod of replica `i`, or it returns an error.
  pub create_new_pod-Fills :
      (spec : Caffe2ReplicaSpec) (w : World)
      → k.key_func job.meta ≡ ok job_key
      → Ends (Fills k job job_key i w) (create_new_pod k job "worker" (itoa i) spec w)
  unfolding create_new_pod create_for_key
  create_new_pod-Fills spec w key =
      rw (key, create_new_pod)
        (Ends-bind (Fills k job job_key i w) (deref spec.template) _ λ t.
          Ends-bind (Fills k job job_key i w) (add_backend_env job spec (itoa i) _) _ λ cs.
            Ends-then (λ config. is_empty config ≡ false) (Fills k job job_key i w)
              (gen_caffe2_config_json_str k job "worker" (itoa i)) _ (config_nonempty k job i bound)
              (λ config text.
                create_configured-Fills k job job_key i (omega arith) t cs config w text))

Memᴰ-append : (c : Call) (new old : List Call) → Memᴰ c old → Memᴰ c (new ++ old)
Memᴰ-append c [] old m = m
Memᴰ-append c (d ∷ new) old m = Memᴰ.tail (Memᴰ-append c new old m)

Memᴰ-before : (c : Call) (new old : List Call) → Memᴰ c new → Memᴰ c (new ++ old)
Memᴰ-before c [] old m = elim m [ ]
Memᴰ-before c (d ∷ new) old (Memᴰ.head e) = Memᴰ.head e
Memᴰ-before c (d ∷ new) old (Memᴰ.tail m) = Memᴰ.tail (Memᴰ-before c new old m)

module _ (job : Caffe2Job) (job_key : String) where
  -- Between the worlds `w₀` and `w` the server has been asked for a worker pod of index `i`.
  pub record Requested (w₀ : World) (i : ℕ) (w : World) : Type 0 where
    pub pod : Pod
    pub worker : IsWorker job job_key i pod
    pub calls : List Call
    pub made : w.calls ≡ calls ++ w₀.calls
    pub sent : Memᴰ (create_pod job.meta.namespace pod) calls

  pub Requested-later :
      (P : Call → Type 0) (w₀ : World) (i : ℕ) (w w' : World)
      → Made P w w'
      → Requested w₀ i w
      → Requested w₀ i w'
  Requested-later P w₀ i w w' m r = record {
    pod = r.pod;
    worker = r.worker;
    calls = m.calls ++ r.calls;
    made = rw (append_assoc, sym r.made) m.made;
    sent = Memᴰ-append _ m.calls r.calls r.sent;
  }

  pub Requested-earlier :
      (P : Call → Type 0) (w₀ w₁ : World) (i : ℕ) (w : World)
      → Made P w₀ w₁
      → Requested w₁ i w
      → Requested w₀ i w
  Requested-earlier P w₀ w₁ i w m r = record {
    pod = r.pod;
    worker = r.worker;
    calls = r.calls ++ m.calls;
    made = rw (append_assoc, sym m.made) r.made;
    sent = Memᴰ-before _ r.calls m.calls r.sent;
  }
