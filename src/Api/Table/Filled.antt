-- ===== src/Api/Table/Filled.antt =====
-- The shape of the tables of pkg/api/table.go.
use mathlib.Core.List.{append_assoc, append-nil}
use metrics_server.Prelude.{
  suc, ◌+◌, ◌<◌, ◌≡◌, refl, ap, sym, ◌∙◌, List, [], ◌∷◌, ◌++◌, map, All, length, GoString, arith,
  length-append,
}
use metrics_server.Prelude.Dict.{Dict, keys}
use metrics_server.Go.Time.{Duration}
use metrics_server.Go.Sort.{string_lt, sort_slice}
use metrics_server.Go.Sort.Laws.{length-sort_slice}
use metrics_server.Kube.{Quantities, NodeMetrics, PodMetrics}
use metrics_server.Api.Table.{
  quantity_column, window_column, cell_of, Row, Table, Item, empty_table, column_definitions,
  names_after, columns_after, cells_of, add_items, node_item, add_node_metrics_to_table, pod_item,
  pod_total, add_pod_metrics_to_table,
}

length-map : {A B : Type 0} (f : A → B) (xs : List A) → length (map f xs) ≡ length xs
length-map f [] = refl
length-map f (x ∷ xs) = ap suc (length-map f xs)

pub length-keys : {V : Type 0} (d : Dict GoString V) → length (keys d) ≡ length d
length-keys [] = refl
length-keys ((k, v) ∷ d) = ap suc (length-keys d)

length-columns : (names : List GoString) → length (column_definitions names) ≡ length names + 2
length-columns names = omega (
  arith,
  length-append (map quantity_column names) (window_column ∷ []),
  length-map quantity_column names,
)

module _ {Q : Type 0} (qs : Quantities Q) (duration_string : Duration → GoString) {M : Type 0}
    (item_of : M → Item Q) where
  -- Rows of the items in their order, below columns for these resources.
  pub record IsTableOf (names : List GoString) (ms : List M) (table : Table M) : Type 0 where
    pub columns_exact : table.columns ≡ column_definitions names
    pub rows_exact :
        table.rows
        ≡ map (λ m. record { cells = cells_of qs duration_string (item_of m) names; object = m }) ms
    -- each row has a cell for each column
    pub aligned : All (λ row. length row.cells ≡ length table.columns) table.rows

  -- Once the loop has its names, it keeps the columns and adds a row for each item.
  add_items-columns :
      (ms : List M) (names : List GoString) (table : Table M)
      → 0 < length names
      → (add_items qs duration_string item_of ms names table).columns ≡ table.columns
  unfolding add_items names_after columns_after
  add_items-columns [] names table h = refl
  add_items-columns (m ∷ ms) [] table h = absurd (omega arith)
  add_items-columns (m ∷ ms) (name ∷ names) table h = add_items-columns ms (name ∷ names) _ h

  abbrev pub row_of : List GoString → M → Row M
  row_of names m = record { cells = cells_of qs duration_string (item_of m) names; object = m }

  add_items-rows :
      (ms : List M) (names : List GoString) (table : Table M)
      → 0 < length names
      → (add_items qs duration_string item_of ms names table).rows
        ≡ table.rows ++ map (row_of names) ms
  unfolding add_items names_after
  add_items-rows [] names table h = sym (append-nil table.rows)
  add_items-rows (m ∷ ms) [] table h = absurd (omega arith)
  add_items-rows (m ∷ ms) (name ∷ names) table h =
      add_items-rows ms (name ∷ names) _ h
      ∙ append_assoc table.rows (row_of (name ∷ names) m ∷ []) (map (row_of (name ∷ names)) ms)

  length-cells :
      (names : List GoString) (m : M)
      → length (cells_of qs duration_string (item_of m) names) ≡ length names + 2
  length-cells names m = omega (
    arith,
    length-append (map (cell_of qs duration_string (item_of m)) names)
        (duration_string (item_of m).window ∷ []),
    length-map (cell_of qs duration_string (item_of m)) names,
  )

  aligned-map :
      (names : List GoString) (ms : List M)
      → All (λ row. length row.cells ≡ length (column_definitions names)) (map (row_of names) ms)
  aligned-map names [] = tt
  aligned-map names (m ∷ ms) =
      (omega (arith, length-cells names m, length-columns names), aligned-map names ms)

  table_of :
      (names : List GoString) (ms : List M) (table : Table M)
      → table.columns ≡ column_definitions names
      → table.rows ≡ map (row_of names) ms
      → IsTableOf names ms table
  table_of names ms table columns rows = record {
    columns_exact = columns;
    rows_exact = rows;
    aligned = rw (rows, columns) (aligned-map names ms);
  }

  -- The table of items of which the first has a resource: the resources of the first, sorted, give
  -- the columns.
  pub add_items-IsTableOf :
      (m : M) (ms : List M)
      → 0 < length (item_of m).usage
      → IsTableOf
          (sort_slice string_lt (keys (item_of m).usage))
          (m ∷ ms)
          (add_items qs duration_string item_of (m ∷ ms) [] empty_table)
  unfolding add_items names_after columns_after
  add_items-IsTableOf m ms h =
      let names = sort_slice string_lt (keys (item_of m).usage) in
      let some_name : 0 < length names = omega (
        arith,
        length-sort_slice string_lt (keys (item_of m).usage),
        length-keys (item_of m).usage,
      ) in
      table_of names (m ∷ ms) _ (add_items-columns ms names _ some_name)
        (add_items-rows ms names _ some_name)

module _ {Q : Type 0} (qs : Quantities Q) (duration_string : Duration → GoString) where
  -- The table of nodes whose first has a resource has the sorted resources of the first, between
  -- name and window, for columns; it has one row for each node in order, with a cell for each
  -- column.
  pub add_node_metrics_to_table-IsTableOf :
      (m : NodeMetrics Q) (ms : List (NodeMetrics Q))
      → 0 < length m.usage
      → IsTableOf qs duration_string
          (node_item qs duration_string)
          (sort_slice string_lt (keys m.usage))
          (m ∷ ms)
          (add_node_metrics_to_table qs duration_string empty_table (m ∷ ms))
  unfolding add_node_metrics_to_table
  add_node_metrics_to_table-IsTableOf m ms h =
      add_items-IsTableOf qs duration_string (node_item qs duration_string) m ms h

  -- The table of pods of which a container of the first has a resource: the sorted resources of the
  -- containers of the first, between name and window, are the columns. It has one row for each pod
  -- in order, with a cell for each column, which is that of pod_item.
  pub add_pod_metrics_to_table-IsTableOf :
      (m : PodMetrics Q) (ms : List (PodMetrics Q))
      → 0 < length (pod_total qs duration_string m.containers [])
      → IsTableOf qs duration_string
          (pod_item qs duration_string)
          (sort_slice string_lt (keys (pod_total qs duration_string m.containers [])))
          (m ∷ ms)
          (add_pod_metrics_to_table qs duration_string empty_table (m ∷ ms))
  unfolding add_pod_metrics_to_table
  add_pod_metrics_to_table-IsTableOf m ms h =
      add_items-IsTableOf qs duration_string (pod_item qs duration_string) m ms h
