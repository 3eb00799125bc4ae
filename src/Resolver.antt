-- ===== src/Resolver.antt =====
-- pkg/utils/address_resolver.go: the address by which a node is reached.
pub mod Preferred
use metrics_server.Prelude.{
  Option, none, some, List, [], ◌∷◌, Bool, true, false, GoString, gostring_eq, str, ◌==◌,
  if◌then◌else◌,
}
use metrics_server.Go.Result.{Result, ok, err}
use metrics_server.Kube.{NodeAddress, Node}

-- corev1.NodeAddressType
abbrev pub AddressType : Type 0
AddressType = GoString

abbrev pub default_address_type_priority : List AddressType
default_address_type_priority =
    str "Hostname"
    ∷ str "InternalDNS"
    ∷ str "InternalIP"
    ∷ str "ExternalDNS"
    ∷ str "ExternalIP"
    ∷ []

-- "no address matched types ..."
pub data AddressError : Type 0 where
  no_address_matched : List AddressType → AddressError

-- The inner loop: the first address of the type.
first_of_type : AddressType → List NodeAddress → Option GoString
first_of_type type [] = none
first_of_type type (addr ∷ addresses) =
    let rest = first_of_type type addresses in if addr.type == type then some addr.address else rest

-- The outer loop; `all` is the priority list that the error names.
search_types : List AddressType → List AddressType → List NodeAddress → Result AddressError GoString
unfolding first_of_type
search_types all [] addresses = err (no_address_matched all)
search_types all (type ∷ types) addresses =
    let rest = search_types all types addresses in
    elim (first_of_type type addresses) [ none ↦ rest | some address ↦ ok address ]

unfoldable pub node_address : List AddressType → Node → Result AddressError GoString
unfolding search_types
node_address priority node = search_types priority priority node.addresses
