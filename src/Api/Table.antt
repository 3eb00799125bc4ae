-- ===== src/Api/Table.antt =====
-- pkg/api/table.go: the tables of items that a client prints.
pub mod Filled
pub mod Converted
pub mod Printed
pub mod Summed
use metrics_server.Prelude.{
  Option, none, some, List, [], ◌∷◌, ◌++◌, map, GoString, gostring_eq, str,
}
use metrics_server.Prelude.Dict.{lookup, insert, keys}
use metrics_server.Go.Time.{Duration}
use metrics_server.Go.Sort.{string_lt, sort_slice}
use metrics_server.Kube.{Quantities, ResourceList, NodeMetrics, PodMetrics, ContainerMetrics}

-- metav1beta1.TableColumnDefinition
pub record Column : Type 0 where
  pub name : GoString
  pub type : GoString
  pub format : GoString
  pub description : GoString

pub record Row (M : Type 0) : Type 0 where
  pub cells : List GoString
  pub object : M

pub record Table (M : Type 0) : Type 0 where
  pub columns : List Column
  pub rows : List (Row M)

abbrev pub empty_table : {M : Type 0} → Table M
empty_table = record { columns = []; rows = [] }

abbrev pub quantity_column : GoString → Column
quantity_column name = record {
  name = name;
  type = str "string";
  format = str "quantity";
  description = [];
}

abbrev pub window_column : Column
window_column = record {
  name = str "Window";
  type = str "string";
  format = str "duration";
  description = [];
}

abbrev pub column_definitions : List GoString → List Column
column_definitions names =
    record {
      name = str "Name";
      type = str "string";
      format = str "name";
      description = str "Name of the resource";
    }
      ∷ map quantity_column names
    ++ window_column ∷ []

-- What an item of the loop is turned into.
pub record Item (Q : Type 0) : Type 0 where
  pub name : GoString
  pub usage : ResourceList Q
  pub window : Duration

-- `names`, if it is not nil, and otherwise the sorted resources of the item.
unfoldable pub names_after : {Q : Type 0} → List GoString → ResourceList Q → List GoString
names_after [] usage = sort_slice string_lt (keys usage)
names_after (name ∷ names) usage = name ∷ names

unfoldable pub columns_after : List GoString → List GoString → List Column → List Column
columns_after [] new columns = column_definitions new
columns_after (name ∷ names) new columns = columns

-- `duration_string` is Duration.String.
module _ {Q : Type 0} (qs : Quantities Q) (duration_string : Duration → GoString) where
  open qs use {zero_quantity, add, to_string}

  -- `usage[name]`, the zero quantity where the resource is missing
  abbrev pub quantity_of : ResourceList Q → GoString → Q
  quantity_of usage name = elim (lookup name usage) [ none ↦ zero_quantity | some v ↦ v ]

  abbrev pub cell_of : Item Q → GoString → GoString
  cell_of item name = to_string (quantity_of item.usage name)

  abbrev pub cells_of : Item Q → List GoString → List GoString
  cells_of item names = item.name ∷ map (cell_of item) names ++ duration_string item.window ∷ []

  module _ {M : Type 0} (item_of : M → Item Q) where
    -- The loop over the items, with the variable `names`.
    pub add_items : List M → List GoString → Table M → Table M
    unfolding names_after columns_after
    add_items [] names table = table
    add_items (m ∷ ms) names table =
        let new = names_after names (item_of m).usage in
        add_items ms new (record {
          columns = columns_after names new table.columns;
          rows = table.rows ++ record { cells = cells_of (item_of m) new; object = m } ∷ [];
        })

  abbrev pub node_item : NodeMetrics Q → Item Q
  node_item m = record { name = m.name; usage = m.usage; window = m.window }

  unfoldable pub add_node_metrics_to_table :
      Table (NodeMetrics Q) → List (NodeMetrics Q) → Table (NodeMetrics Q)
  unfolding add_items
  add_node_metrics_to_table table nodes = add_items node_item nodes [] table

  -- The loop over one container's usage.
  unfoldable pub add_usage : ResourceList Q → ResourceList Q → ResourceList Q
  add_usage [] usage = usage
  add_usage ((k, v) ∷ more) usage = add_usage more (insert k (add (quantity_of usage k) v) usage)

  unfoldable pub pod_total : List (ContainerMetrics Q) → ResourceList Q → ResourceList Q
  unfolding add_usage
  pod_total [] usage = usage
  pod_total (c ∷ containers) usage = pod_total containers (add_usage c.usage usage)

  abbrev pub pod_item : PodMetrics Q → Item Q
  pod_item m = record { name = m.name; usage = pod_total m.containers []; window = m.window }

  unfoldable pub add_pod_metrics_to_table :
      Table (PodMetrics Q) → List (PodMetrics Q) → Table (PodMetrics Q)
  unfolding add_items
  add_pod_metrics_to_table table pods = add_items pod_item pods [] table
