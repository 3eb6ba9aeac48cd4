-- ===== src/Kubeapi/Standard.antt =====
-- standardResources of internal/kubeapi/resolver.go: the resources that a new resolver knows.
use kube_insight.Prelude.{String, Bool, true, false, List, [], ◌∷◌}
use kube_insight.Kubeapi.{ResourceInfo}

standard : (group version resource kind : String) → (namespaced : Bool) → ResourceInfo
standard group version resource kind namespaced = record {
  group = group;
  version = version;
  resource = resource;
  kind = kind;
  namespaced = namespaced;
  verbs = [];
}

unfoldable pub standard_resources : List ResourceInfo
unfolding standard
standard_resources =
    standard "" "v1" "configmaps" "ConfigMap" true
    ∷ standard "" "v1" "endpoints" "Endpoints" true
    ∷ standard "" "v1" "events" "Event" true
    ∷ standard "" "v1" "namespaces" "Namespace" false
    ∷ standard "" "v1" "nodes" "Node" false
    ∷ standard "" "v1" "persistentvolumeclaims" "PersistentVolumeClaim" true
    ∷ standard "" "v1" "persistentvolumes" "PersistentVolume" false
    ∷ standard "" "v1" "pods" "Pod" true
    ∷ standard "" "v1" "secrets" "Secret" true
    ∷ standard "" "v1" "services" "Service" true
    ∷ standard "" "v1" "serviceaccounts" "ServiceAccount" true
    ∷ standard "admissionregistration.k8s.io" "v1" "mutatingwebhookconfigurations"
        "MutatingWebhookConfiguration" false
    ∷ standard "admissionregistration.k8s.io" "v1" "validatingwebhookconfigurations"
        "ValidatingWebhookConfiguration" false
    ∷ standard "apiextensions.k8s.io" "v1" "customresourcedefinitions" "CustomResourceDefinition"
        false
    ∷ standard "apiregistration.k8s.io" "v1" "apiservices" "APIService" false
    ∷ standard "apps" "v1" "daemonsets" "DaemonSet" true
    ∷ standard "apps" "v1" "deployments" "Deployment" true
    ∷ standard "apps" "v1" "replicasets" "ReplicaSet" true
    ∷ standard "apps" "v1" "statefulsets" "StatefulSet" true
    ∷ standard "autoscaling" "v2" "horizontalpodautoscalers" "HorizontalPodAutoscaler" true
    ∷ standard "batch" "v1" "cronjobs" "CronJob" true
    ∷ standard "batch" "v1" "jobs" "Job" true
    ∷ standard "cert-manager.io" "v1" "certificates" "Certificate" true
    ∷ standard "cert-manager.io" "v1" "certificaterequests" "CertificateRequest" true
    ∷ standard "cert-manager.io" "v1" "clusterissuers" "ClusterIssuer" false
    ∷ standard "cert-manager.io" "v1" "issuers" "Issuer" true
    ∷ standard "acme.cert-manager.io" "v1" "challenges" "Challenge" true
    ∷ standard "acme.cert-manager.io" "v1" "orders" "Order" true
    ∷ standard "discovery.k8s.io" "v1" "endpointslices" "EndpointSlice" true
    ∷ standard "events.k8s.io" "v1" "events" "Event" true
    ∷ standard "gateway.networking.k8s.io" "v1" "gatewayclasses" "GatewayClass" false
    ∷ standard "gateway.networking.k8s.io" "v1" "gateways" "Gateway" true
    ∷ standard "gateway.networking.k8s.io" "v1" "grpcroutes" "GRPCRoute" true
    ∷ standard "gateway.networking.k8s.io" "v1" "httproutes" "HTTPRoute" true
    ∷ standard "gateway.networking.k8s.io" "v1" "tcproutes" "TCPRoute" true
    ∷ standard "gateway.networking.k8s.io" "v1" "tlsroutes" "TLSRoute" true
    ∷ standard "gateway.networking.k8s.io" "v1" "udproutes" "UDPRoute" true
    ∷ standard "networking.k8s.io" "v1" "ingresses" "Ingress" true
    ∷ standard "networking.k8s.io" "v1" "networkpolicies" "NetworkPolicy" true
    ∷ standard "rbac.authorization.k8s.io" "v1" "clusterrolebindings" "ClusterRoleBinding" false
    ∷ standard "rbac.authorization.k8s.io" "v1" "clusterroles" "ClusterRole" false
    ∷ standard "rbac.authorization.k8s.io" "v1" "groups" "Group" false
    ∷ standard "rbac.authorization.k8s.io" "v1" "rolebindings" "RoleBinding" true
    ∷ standard "rbac.authorization.k8s.io" "v1" "roles" "Role" true
    ∷ standard "rbac.authorization.k8s.io" "v1" "users" "User" false
    ∷ standard "scheduling.k8s.io" "v1" "priorityclasses" "PriorityClass" false
    ∷ standard "storage.k8s.io" "v1" "storageclasses" "StorageClass" false
    ∷ []
