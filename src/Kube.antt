-- ===== src/Kube.antt =====
-- The objects of the Kubernetes libraries, with the fields that the program reads or fills.
-- resource.Quantity is not implemented here: it is a parameter, `Quantities`.
use metrics_server.Prelude.{ap, List, GoString, str, Eq, GoString-discrete}
use metrics_server.Prelude.Int.{ℤ}
use metrics_server.Prelude.Dict.{Dict}
use metrics_server.Go.Time.{Time, Duration}

pub record NamespacedName : Type 0 where
  pub namespace : GoString
  pub name : GoString

unfoldable pub NamespacedName-discrete : Discrete NamespacedName
unfolding GoString-discrete
NamespacedName-discrete a b = elim (GoString-discrete a.namespace b.namespace) [
  | yes p ↦ elim (GoString-discrete a.name b.name) [
    | yes q ↦ yes (λ i. record { namespace = p i; name = q i })
    | no q ↦ no (λ e. q (ap (λ (r : NamespacedName). r.name) e))
  ]
  | no p ↦ no (λ e. p (ap (λ (r : NamespacedName). r.namespace) e))
]

instance unfoldable pub namespaced_name_eq : Eq NamespacedName
unfolding NamespacedName-discrete GoString-discrete
namespaced_name_eq = record { dec = NamespacedName-discrete }

abbrev pub Labels : Type 0
Labels = Dict GoString GoString

-- corev1.NodeAddress
pub record NodeAddress : Type 0 where
  pub type : GoString
  pub address : GoString

-- *corev1.Node. `kubelet_port` is Status.DaemonEndpoints.KubeletEndpoint.Port.
pub record Node : Type 0 where
  pub name : GoString
  pub labels : Labels
  pub addresses : List NodeAddress
  pub kubelet_port : ℤ

-- *metav1.PartialObjectMetadata
pub record PartialObjectMetadata : Type 0 where
  pub name : GoString
  pub namespace : GoString
  pub labels : Labels

-- resource.Format
pub data Format : Type 0 where
  decimal_si binary_si : Format

-- resource.Quantity: its constructor, the assignment of its field Format, Add and String.
pub record Quantities (Q : Type 0) : Type 0 where
  pub new_scaled_quantity : ℤ → ℤ → Q
  pub with_format : Q → Format → Q
  pub zero_quantity : Q
  pub add : Q → Q → Q
  pub to_string : Q → GoString

abbrev pub resource_cpu : GoString
resource_cpu = str "cpu"

abbrev pub resource_memory : GoString
resource_memory = str "memory"

-- corev1.ResourceList
abbrev pub ResourceList : Type 0 → Type 0
ResourceList Q = Dict GoString Q

-- metrics.NodeMetrics
pub record NodeMetrics (Q : Type 0) : Type 0 where
  pub name : GoString
  pub labels : Labels
  pub creation_timestamp : Time
  pub timestamp : Time
  pub window : Duration
  pub usage : ResourceList Q

-- metrics.ContainerMetrics
pub record ContainerMetrics (Q : Type 0) : Type 0 where
  pub name : GoString
  pub usage : ResourceList Q

-- metrics.PodMetrics
pub record PodMetrics (Q : Type 0) : Type 0 where
  pub name : GoString
  pub namespace : GoString
  pub labels : Labels
  pub creation_timestamp : Time
  pub timestamp : Time
  pub window : Duration
  pub containers : List (ContainerMetrics Q)
