-- ===== src/Api.antt =====
-- pkg/api: the answers to list and get requests, from what the listers of the informers find and
-- what a storage of metrics serves. The listers and the selectors are parameters.
pub mod Freshness
pub mod Install
pub mod Measured
pub mod Node
pub mod Pod
pub mod Sorted
pub mod Stored
pub mod Table
use metrics_server.Prelude.{◌≡◌, Option, none, some, List, map, keep, Bool, ◌>>=?◌, GoString}
use metrics_server.Go.Result.{Result, ok}

-- PodMetricsGetter and NodeMetricsGetter: what is served for a list of objects, and which of them
-- have metrics. Items are named as the objects they are of.
pub record MetricsGetter (E O M K : Type 0) (object_key : O → K) (item_key : M → K) : Type 0 where
  pub get : List O → Result E (List M)
  pub serves : O → Bool
  pub get-keys :
      (objects : List O) (ms : List M)
      → get objects ≡ ok ms
      → map item_key ms ≡ map object_key (keep serves objects)

-- labels.Selector (`S`, of requirements `R`) and fields.Selector (`T`), matched with the set
-- that generic.AddObjectMetaFieldsSet makes of an object `O`.
pub record Selectors (S R T O : Type 0) : Type 0 where
  pub everything : S
  pub add : S → List R → S
  pub matches : T → O → Bool

-- The client-go lister `L` of the objects `O`; Get may return a nil object with no error.
pub record Lister (E S O : Type 0) : Type 0 where
  pub list : S → Result E (List O)
  pub get : GoString → Result E (Option O)
  pub is_not_found : E → Bool

-- metainternalversion.ListOptions, where it is not nil.
pub record ListOptions (S T : Type 0) : Type 0 where
  pub label_selector : Option S
  pub field_selector : Option T

pub data ApiError (E : Type 0) : Type 0 where
  listing_failed : E → ApiError E
  getting_failed : E → ApiError E
  reading_failed : E → ApiError E
  not_found : GoString → ApiError E
  -- the lister's own not-found error
  unknown : E → ApiError E

-- filterNodes and filterPartialObjectMetadata
unfoldable pub filter_objects : {S R T O : Type 0} → Selectors S R T O → T → List O → List O
filter_objects selectors selector objects = keep (selectors.matches selector) objects

unfoldable pub label_selector_of :
    {S R T O : Type 0} → Selectors S R T O → Option (ListOptions S T) → S
label_selector_of selectors none = selectors.everything
label_selector_of selectors (some options) = elim options.label_selector [
  | none ↦ selectors.everything
  | some selector ↦ selector
]

unfoldable pub filter_listed :
    {S R T O : Type 0} → Selectors S R T O → Option (ListOptions S T) → List O → List O
unfolding filter_objects
filter_listed selectors none objects = objects
filter_listed selectors (some options) objects = elim options.field_selector [
  | none ↦ objects
  | some selector ↦ filter_objects selectors selector objects
]
