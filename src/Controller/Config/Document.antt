-- ===== src/Controller/Config/Document.antt =====
-- The text of CAFFE2_CONFIG, read again: a reader of JSON without white space, for the shape of
-- `Caffe2Config`.

use caffe2_operator.Api.Types.{caffe2_port, Caffe2Job, Caffe2ReplicaSpec}
use caffe2_operator.Prelude.Text.{replace_slashes, ◌<>◌}
use caffe2_operator.Controller.Labels.{gen_general_name}
use Prim.Native.String.{String}
use caffe2_operator.Prelude.{
  ℕ, zero, suc, ◌+◌, ◌^◌, ◌<◌, ◌≡◌, refl, ap, ◌∙◌, Option, none, some, List, [], ◌∷◌, map, length,
}
use text.Mathlib.TextLemmas.{append_assoc}
use caffe2_operator.Prelude.Int.{pos}
use caffe2_operator.Prelude.Decimal.{itoa, itoa_int}
use caffe2_operator.Prelude.Decimal.RoundTrip.{parse_int-itoa}
use caffe2_operator.Prelude.Decimal.Reading.{read_digits, read_digits-itoa}
use caffe2_operator.Go.{ok, returns}
use caffe2_operator.Controller.Cluster.{Cluster}
use caffe2_operator.Controller.Config.{
  Caffe2Config, json_string, json_strings, json_members, json_cluster, join, marshal, hosts,
  replica_names, cluster_of, gen_cluster_spec, gen_caffe2_config_json_str,
}
use caffe2_operator.Controller.Config.Reader.{codes, read_json_string}
use caffe2_operator.Controller.Config.RoundTrip.{read_json_string-json_string}
use caffe2_operator.Controller.Config.Arrays.{
  Texts, expect, expect-append, read_array, read_array-join,
}

-- What a pod learns of the configuration: the replica type of the cluster with its hosts, and the type
-- and the index of its own task.
pub record Document : Type 0 where
  pub cluster : List ℕ
  pub hosts_of : Texts
  pub type : List ℕ
  pub index : ℕ

infixl 5 ◌>>?◌
abbrev ◌>>?◌ : {A B : Type 0} → Option A → (A → Option B) → Option B
none >>? f = none
some a >>? f = f a

-- A reader of the document, for at most `fuel` hosts.
unfoldable pub read_document : (fuel : ℕ) (text : String) → Option (Document × String)
read_document fuel s = expect "{\"cluster\":" s >>? expect "{" >>? read_json_string >>? λ key.
    expect ":[" key.1 >>? read_array fuel >>? λ names.
    expect "}" names.1 >>? expect ",\"task\":{\"type\":" >>? read_json_string >>? λ type.
    expect ",\"index\":" type.1 >>? λ digits. expect "}}" (read_digits 0 digits).1 >>? λ rest.
    some (
      record {
        cluster = key.0;
        hosts_of = names.0;
        type = type.0;
        index = (read_digits 0 digits).0;
      },
      rest,
    )

config : String → List String → String → ℕ → Caffe2Config
config w names type i = record {
  cluster = some ((w, names) ∷ []);
  task = record { type = type; index = pos i };
}

layout :
    (a b c d e f g h t x n z : String)
    → (a <> ((b <> ((c <> (d <> (e <> f))) <> g)) <> (h <> (t <> (x <> (n <> z))))))
      ≡ a <> (b <> (c <> (d <> (e <> (f <> (g <> (h <> (t <> (x <> (n <> z))))))))))
layout a b c d e f g h t x n z = simp append_assoc refl

then_some :
    {A B : Type 0} (o : Option A) (a : A) (f : A → Option B) (r : Option B)
    → o ≡ some a
    → f a ≡ r
    → (o >>? f) ≡ r
then_some o a f r e h = rw e h

-- The document in front of `rest`, with its parts from left to right.
laid_out : String → List String → String → ℕ → String
laid_out w names type i =
    "{\"cluster\":"
    <> ("{"
        <> (json_string w
            <> (":["
                <> (join (json_strings names)
                    <> ("]"
                        <> ("}"
                            <> (",\"task\":{\"type\":"
                                <> (json_string type <> (",\"index\":" <> (itoa i <> "}}"))))))))))

marshal-laid_out :
    (w : String) (names : List String) (type : String) (i : ℕ)
    → marshal (config w names type i) ≡ laid_out w names type i
unfolding marshal json_cluster json_members config itoa_int join laid_out
marshal-laid_out w names type i =
    layout "{\"cluster\":" "{" (json_string w) ":[" (join (json_strings names)) "]" "}"
      ",\"task\":{\"type\":" (json_string type) ",\"index\":" (itoa i) "}}"

expect_end : expect "}}" "}}" ≡ some ""
unfolding expect
expect_end = refl

read_document-laid_out :
    (w : String) (names : List String) (type : String) (i : ℕ)
    → read_document (length names) (laid_out w names type i)
      ≡ some (
        record { cluster = codes w; hosts_of = map codes names; type = codes type; index = i },
        "",
      )
unfolding read_document laid_out
read_document-laid_out w names type i =
    then_some _ _ _ _
      (then_some _ _ read_json_string _
        (then_some _ _ (expect "{") _ (expect-append "{\"cluster\":" _) (expect-append "{" _))
        (read_json_string-json_string w _))
      (then_some _ _ _ _
        (then_some _ _ (read_array (length names)) _ (expect-append ":[" _)
          (read_array-join names _))
        (then_some _ _ _ _
          (then_some _ _ read_json_string _
            (then_some _ _ (expect ",\"task\":{\"type\":") _ (expect-append "}" _)
              (expect-append ",\"task\":{\"type\":" _))
            (read_json_string-json_string type _))
          (then_some _ _ _ _ (expect-append ",\"index\":" _)
            (rw (read_digits-itoa i "}" "}" refl) (then_some _ _ _ _ expect_end refl)))))

gen_caffe2_config_json_str-marshal :
    (k : Cluster) (job : Caffe2Job) (job_key rtype : String) (spec : Caffe2ReplicaSpec) (n i : ℕ)
    → k.key_func job.meta ≡ ok job_key
    → job.spec.replica_specs ≡ some spec
    → spec.replicas ≡ some (pos n)
    → i < 2 ^ 31
    → gen_caffe2_config_json_str k job rtype (itoa i)
      ≡ returns (marshal (config "worker" (hosts job_key 0 n) rtype i))
unfolding gen_caffe2_config_json_str gen_cluster_spec cluster_of replica_names config
gen_caffe2_config_json_str-marshal k job job_key rtype spec n i key has_spec has_replicas bound =
    rw (parse_int-itoa 32 i bound, gen_caffe2_config_json_str)
      (rw (key, gen_cluster_spec) (rw (has_spec, cluster_of) (rw has_replicas refl)))

-- The host of a replica: the job's key, the type and the index, without slashes, and the port 2222.
abbrev pub host_of : String → ℕ → String
host_of job_key i = replace_slashes (job_key <> "-worker-" <> itoa i) <> ":2222"

-- Those of `n` replicas from index `i` on.
abbrev pub hosts_from : String → ℕ → ℕ → List String
hosts_from job_key i zero = []
hosts_from job_key i (suc n) = host_of job_key i ∷ hosts_from job_key (i + 1) n

regrouped : (a b c x : String) → (a <> (b <> (c <> x))) ≡ (((a <> b) <> c) <> x)
regrouped a b c x = simp append_assoc refl

port_text : itoa caffe2_port ≡ "2222"
unfolding itoa
port_text = refl

hosts-hosts_from : (job_key : String) (i n : ℕ) → hosts job_key i n ≡ hosts_from job_key i n
unfolding hosts gen_general_name
hosts-hosts_from job_key i zero = refl
hosts-hosts_from job_key i (suc n) =
    rw (regrouped "-" "worker" "-" (itoa i), port_text, hosts-hosts_from job_key (i + 1) n) refl

length-hosts_from : (job_key : String) (i n : ℕ) → length (hosts_from job_key i n) ≡ n
length-hosts_from job_key i zero = refl
length-hosts_from job_key i (suc n) = ap suc (length-hosts_from job_key (i + 1) n)

-- For a job with a key and a number of replicas that is not negative, and an index below 2 ^ 31,
-- `genCaffe2ConfigJSONStr` returns a text in which a reader of JSON finds, and nothing after it: the
-- replica type "worker" with the hosts of all replicas in order, each the key, "-worker-" and the index,
-- with dashes for slashes, and the port 2222; and the given type and index.
pub read_document-gen_caffe2_config_json_str :
    (k : Cluster) (job : Caffe2Job) (job_key rtype : String) (spec : Caffe2ReplicaSpec) (n i : ℕ)
    → k.key_func job.meta ≡ ok job_key
    → job.spec.replica_specs ≡ some spec
    → spec.replicas ≡ some (pos n)
    → i < 2 ^ 31
    → (text : String) × (gen_caffe2_config_json_str k job rtype (itoa i) ≡ returns text)
      × (read_document n text
          ≡ some (
            record {
              cluster = codes "worker";
              hosts_of = map codes (hosts_from job_key 0 n);
              type = codes rtype;
              index = i;
            },
            "",
          ))
read_document-gen_caffe2_config_json_str k job job_key rtype spec n i key has_spec has_replicas
      bound =
    (
      marshal (config "worker" (hosts_from job_key 0 n) rtype i),
      rw (hosts-hosts_from job_key 0 n) at (
          gen_caffe2_config_json_str-marshal k job job_key rtype spec n i key has_spec has_replicas
            bound),
      rw (length-hosts_from job_key 0 n) at (
          ap (read_document (length (hosts_from job_key 0 n)))
            (marshal-laid_out "worker" (hosts_from job_key 0 n) rtype i)
          ∙ read_document-laid_out "worker" (hosts_from job_key 0 n) rtype i),
    )
