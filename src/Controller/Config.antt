-- ===== src/Controller/Config.antt =====
-- pkg/controller/config.go: the configuration that a pod gets as CAFFE2_CONFIG. `json.Marshal` is
-- written out for this type, with the escapes of Go's encoder.
pub mod Reader
pub mod RoundTrip
pub mod Arrays
pub mod Document
use Prim.Native.Nat.{ℕ, zero, suc, ◌+◌, ◌/◌, ◌%◌}
use Prim.Native.Char.{Char, code}
use caffe2_operator.Prelude.{
  String, ◌||◌, Option, none, some, List, [], ◌∷◌, if◌then◌else◌, ltb, ◌==◌,
}
use caffe2_operator.Prelude.Int.{ℤ, pos, negsuc}
use caffe2_operator.Prelude.Text.{◌<>◌}
use caffe2_operator.Prelude.Decimal.{digit, itoa, itoa_int, parse_int}
use caffe2_operator.Go.{ok, err, negative_length, Outcome, returns, panics, ◌>>=◌, deref}
use caffe2_operator.Api.Types.{Caffe2Job, caffe2_port}
use caffe2_operator.Controller.Cluster.{Cluster}
use caffe2_operator.Controller.Labels.{gen_general_name}

pub record TaskSpec : Type 0 where
  pub type : String
  pub index : ℤ

-- `ClusterSpec` is a map that may be nil; the program gives it at most one key.
abbrev pub ClusterSpec : Type 0
ClusterSpec = Option (List (String × List String))

pub record Caffe2Config : Type 0 where
  pub cluster : ClusterSpec
  pub task : TaskSpec

unfoldable pub hex_digit : ℕ → Char
unfolding digit
hex_digit d =
    if ltb d 10
    then digit d
    else if d == 10
    then "a"
    else if d == 11
    then "b"
    else if d == 12
    then "c"
    else if d == 13
    then "d"
    else if d == 14
    then "e"
    else "f"

-- `c` as `\u00xy`
unfoldable pub escape_byte : Char → String
unfolding hex_digit
escape_byte c =
    "\\u00" <> String.◌∷◌ (hex_digit (code c / 16)) (String.◌∷◌ (hex_digit (code c % 16)) "")

-- One character in a JSON text: control characters, `"`, `\`, `<`, `>`, `&` and the two Unicode line
-- separators are escaped.
unfoldable pub escape : Char → String
unfolding escape_byte
escape c =
    let n = code c in
    if n == b'"' || n == 92
    then String.◌∷◌ "\\" (String.◌∷◌ c "")
    else if n == 10
    then "\\n"
    else if n == 13
    then "\\r"
    else if n == 9
    then "\\t"
    else if ltb n 32 || n == b'<' || n == b'>' || n == b'&'
    then escape_byte c
    else if n == 0x2028
    then "\\u2028"
    else if n == 0x2029
    then "\\u2029"
    else String.◌∷◌ c ""

unfoldable pub escape_all : String → String
unfolding escape
escape_all String.[] = ""
escape_all (String.◌∷◌ c s) = escape c <> escape_all s

unfoldable pub json_string : String → String
unfolding escape_all
json_string s = "\"" <> escape_all s <> "\""

unfoldable pub join : List String → String
join [] = ""
join (s ∷ []) = s
join (s ∷ t ∷ ss) = s <> "," <> join (t ∷ ss)

unfoldable pub json_strings : List String → List String
unfolding json_string
json_strings [] = []
json_strings (s ∷ ss) = json_string s ∷ json_strings ss

unfoldable pub json_members : List (String × List String) → List String
unfolding json_strings join
json_members [] = []
json_members ((name, hosts) ∷ members) =
    (json_string name <> ":[" <> join (json_strings hosts) <> "]") ∷ json_members members

unfoldable pub json_cluster : ClusterSpec → String
unfolding json_members
json_cluster none = "null"
json_cluster (some members) = "{" <> join (json_members members) <> "}"

-- `json.Marshal` of a `Caffe2Config`, which cannot fail.
unfoldable pub marshal : Caffe2Config → String
unfolding json_cluster
marshal config =
    "{\"cluster\":"
    <> json_cluster config.cluster
    <> ",\"task\":{\"type\":"
    <> json_string config.task.type
    <> ",\"index\":"
    <> itoa_int config.task.index
    <> "}}"

-- The loop of `genClusterSpec`: the hosts from index `i` on, for `count` rounds.
unfoldable pub hosts : String → ℕ → ℕ → List String
hosts job_key i zero = []
hosts job_key i (suc count) =
    (gen_general_name job_key "worker" (itoa i) <> ":" <> itoa caffe2_port)
    ∷ hosts job_key (i + 1) count

-- `make([]string, 0, replicas)` panics on a negative capacity.
unfoldable pub replica_names : String → ℤ → Outcome (List String)
unfolding hosts
replica_names job_key (pos n) = returns (hosts job_key 0 n)
replica_names job_key (negsuc n) = panics negative_length

unfoldable pub cluster_of : Caffe2Job → String → Outcome ClusterSpec
unfolding replica_names
cluster_of job job_key = do
  spec ← deref job.spec.replica_specs
  replicas ← deref spec.replicas
  names ← replica_names job_key replicas
  returns (some (("worker", names) ∷ []))

module _ (k : Cluster) where
  -- `genClusterSpec`
  unfoldable pub gen_cluster_spec : Caffe2Job → Outcome ClusterSpec
  unfolding cluster_of
  gen_cluster_spec job = elim (k.key_func job.meta) [
    | err e ↦ returns none
    | ok job_key ↦ cluster_of job job_key
  ]

  -- `genCaffe2ConfigJSONStr`
  unfoldable pub gen_caffe2_config_json_str : Caffe2Job → String → String → Outcome String
  unfolding gen_cluster_spec
  gen_caffe2_config_json_str job rtype index = elim (parse_int 32 index) [
    | none ↦ returns ""
    | some i ↦ gen_cluster_spec job >>= λ cluster.
        returns (marshal (record { cluster = cluster; task = record { type = rtype; index = i } }))
  ]
