-- ===== src/Resolver/Preferred.antt =====
-- Which address NodeAddress of pkg/utils/address_resolver.go chooses.
use metrics_server.Prelude.{
  ◌≡◌, inl, inr, refl, ap, none, some, List, [], ◌∷◌, ◌++◌, true, false, arith, GoString,
  gostring_eq, ◌==◌, All, Option-cases, Bool-cases,
}
use metrics_server.Go.Result.{ok, err}
use metrics_server.Kube.{NodeAddress, Node}
use metrics_server.Resolver.{
  AddressType, AddressError, no_address_matched, first_of_type, search_types, node_address,
}

-- No address has the type.
abbrev pub Unused : List NodeAddress → AddressType → Type 0
Unused addresses type = All (λ (a : NodeAddress). (a.type == type) ≡ false) addresses

-- The address is the first of its type, and no type of higher priority is in use.
pub record IsPreferred (priority : List AddressType) (addresses : List NodeAddress)
    (address : GoString) : Type 0 where
  pub higher : List AddressType
  pub type : AddressType
  pub lower : List AddressType
  pub in_order : priority ≡ higher ++ type ∷ lower
  pub higher_unused : All (Unused addresses) higher
  pub before : List NodeAddress
  pub found : NodeAddress
  pub after : List NodeAddress
  pub on_node : addresses ≡ before ++ found ∷ after
  pub first : Unused before type
  pub of_type : (found.type == type) ≡ true
  pub is_address : address ≡ found.address

first_of_type_none :
    (type : AddressType) (addresses : List NodeAddress)
    → first_of_type type addresses ≡ none
    → Unused addresses type
unfolding first_of_type
first_of_type_none type [] h = tt
first_of_type_none type (a ∷ addresses) h = elim (Bool-cases (a.type == type)) [
  | inl e ↦ absurd (ground arith)
  | inr e ↦ (e, first_of_type_none type addresses (ground arith))
]

FoundIn : AddressType → List NodeAddress → GoString → Type 0
FoundIn type addresses address =
    (before : List NodeAddress) × (found : NodeAddress) × (after : List NodeAddress) × (addresses
      ≡ before ++ found ∷ after)
    × Unused before type
    × ((found.type == type) ≡ true)
    × (address ≡ found.address)

first_of_type_found :
    (type : AddressType) (addresses : List NodeAddress) (address : GoString)
    → first_of_type type addresses ≡ some address
    → FoundIn type addresses address
unfolding first_of_type FoundIn
first_of_type_found type [] address h = absurd (ground arith)
first_of_type_found type (a ∷ addresses) address h = elim (Bool-cases (a.type == type)) [
  | inl e ↦ ([], a, addresses, refl, tt, e, ground arith)
  | inr e ↦
      let (before, found, after, split, unused, same, out) =
        first_of_type_found type addresses address (ground arith) in
      (a ∷ before, found, after, ap (◌∷◌ a) split, (e, unused), same, out)
]

search_types-IsPreferred :
    (all types : List AddressType) (addresses : List NodeAddress) (address : GoString)
    → search_types all types addresses ≡ ok address
    → IsPreferred types addresses address
unfolding search_types FoundIn
search_types-IsPreferred all [] addresses address h = absurd (ground arith)
search_types-IsPreferred all (type ∷ types) addresses address h =
    elim (Option-cases (first_of_type type addresses)) [
      | inl none_here ↦
          let r = search_types-IsPreferred all types addresses address (ground arith) in
          record {
            higher = type ∷ r.higher;
            type = r.type;
            lower = r.lower;
            in_order = ap (◌∷◌ type) r.in_order;
            higher_unused = (first_of_type_none type addresses none_here, r.higher_unused);
            before = r.before;
            found = r.found;
            after = r.after;
            on_node = r.on_node;
            first = r.first;
            of_type = r.of_type;
            is_address = r.is_address;
          }
      | inr (b, here) ↦
          let (before, found, after, split, unused, same, out) =
            first_of_type_found type addresses b here in
          record {
            higher = [];
            type = type;
            lower = types;
            in_order = refl;
            higher_unused = tt;
            before = before;
            found = found;
            after = after;
            on_node = split;
            first = unused;
            of_type = same;
            is_address = ground arith;
          }
    ]

search_types-err :
    (all types : List AddressType) (addresses : List NodeAddress) (e : AddressError)
    → search_types all types addresses ≡ err e
    → (e ≡ no_address_matched all) × All (Unused addresses) types
unfolding search_types
search_types-err all [] addresses e h = (ground arith, tt)
search_types-err all (type ∷ types) addresses e h =
    elim (Option-cases (first_of_type type addresses)) [
      | inl none_here ↦
          let (same, unused) = search_types-err all types addresses e (ground arith) in
          (same, (first_of_type_none type addresses none_here, unused))
      | inr (b, here) ↦ absurd (ground arith)
    ]

-- The address is of the first type of the priority list that the node uses, and the first of that
-- type on the node; no type is in use if there is an error.
pub node_address-IsPreferred :
    (priority : List AddressType) (node : Node)
    → ((address : GoString)
        → node_address priority node ≡ ok address
        → IsPreferred priority node.addresses address)
      × ((e : AddressError)
          → node_address priority node ≡ err e
          → (e ≡ no_address_matched priority) × All (Unused node.addresses) priority)
unfolding node_address
node_address-IsPreferred priority node = (
  search_types-IsPreferred priority priority node.addresses,
  search_types-err priority priority node.addresses,
)
