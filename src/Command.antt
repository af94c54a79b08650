-- ===== src/Command.antt =====
-- How the operator starts: pkg/util/k8sutil/k8sutil.go and cmd/caffe2-operator/app/server.go.
pub mod ClusterConfig
pub mod Server
