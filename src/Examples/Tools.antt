-- ===== src/Examples/Tools.antt =====
-- The theorems on the fake service control, the informer factory and the utilities, applied.
use caffe2_operator.Prelude.{
  ◌-◌, ◌^◌, ◌==◌, if◌then◌else◌, ◌+◌, ◌*◌, map, ℕ, ◌≤◌, ◌≡◌, refl, some, [], ◌∷◌, List, arith,
}
use caffe2_operator.Prelude.Text.{replace_slashes}
use caffe2_operator.Examples.{get_label, Runs, cluster, job, job-Ready}
use Prim.Native.String.{String}
use caffe2_operator.Controller.Config.{gen_caffe2_config_json_str}
use caffe2_operator.Controller.Config.Reader.{codes}
use caffe2_operator.Controller.Config.Document.{
  read_document, read_document-gen_caffe2_config_json_str,
}
use caffe2_operator.Prelude.Decimal.{itoa}
use caffe2_operator.Prelude.Dict.{lookup, insert}
use caffe2_operator.Go.{returns}
use caffe2_operator.Client.Factory.{
  Request, ask, start_requested, new_shared_informer_factory, start, serve_all, serve, informer_for,
  start_all, start_informer,
}
use caffe2_operator.Client.Factory.Laws.{count, start_runs_once}
use caffe2_operator.Util.Kubernetes.{merge_labels}
use caffe2_operator.Util.Kubernetes.Laws.{either_label, merge_labels-lookup}

abbrev requests : List (Request ℕ)
requests = ask "Caffe2Job" 7 ∷ start_requested ∷ ask "Caffe2Job" 8 ∷ start_requested ∷ []

start_runs_once_example :
    (count "Caffe2Job" (serve_all ℕ requests (new_shared_informer_factory ℕ)).running ≤ 1)
    × (count "Caffe2Job" (start ℕ (serve_all ℕ requests (new_shared_informer_factory ℕ))).running
        ≡ 1)
unfolding serve_all serve informer_for start start_all start_informer new_shared_informer_factory
    lookup insert
start_runs_once_example = start_runs_once ℕ requests "Caffe2Job" 7 refl

read_document-gen_caffe2_config_json_str_example :
    (text : String) × (gen_caffe2_config_json_str (cluster []) job "worker" (itoa 1) ≡ returns text)
    × (read_document 2 text
        ≡ some (
          record {
            cluster = codes "worker";
            hosts_of = map codes ("ns-job-worker-0:2222" ∷ "ns-job-worker-1:2222" ∷ []);
            type = codes "worker";
            index = 1;
          },
          "",
        ))
unfolding cluster job job-Ready replace_slashes itoa
read_document-gen_caffe2_config_json_str_example =
    read_document-gen_caffe2_config_json_str (cluster []) job "ns/job" "worker" job-Ready.spec 2 1
      refl job-Ready.has_spec job-Ready.has_replicas (omega arith)

merge_labels-lookup_example :
    Runs
      (λ l.
        (key : String)
        → get_label key l
          ≡ either_label (("app", "a") ∷ []) (("app", "b") ∷ ("tier", "c") ∷ []) key)
      (merge_labels (some (("app", "a") ∷ [])) (("app", "b") ∷ ("tier", "c") ∷ []))
merge_labels-lookup_example =
    merge_labels-lookup (("app", "a") ∷ []) (("app", "b") ∷ ("tier", "c") ∷ [])

-- The first number is all ones, which are no letters; the second has the letters c, b and a last.
some_source : ℕ → ℕ
some_source i = if i == 0 then 2 ^ 63 - 1 else (10 * 64 + 11) * 64 + 12
