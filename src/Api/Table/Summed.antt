-- ===== src/Api/Table/Summed.antt =====
-- The table of pods of pkg/api/table.go, with the sums over the containers of a pod.
use metrics_server.Prelude.{
  ◌<◌, ◌≡◌, refl, ap, sym, ◌∙◌, List, [], ◌∷◌, ◌++◌, map, All, length, length-append, Option-cases,
  GoString, gostring_eq, arith, ltb, if◌then◌else◌, ◌==◌, true, ==_iff, Bool-cases, inl, inr,
}
use metrics_server.Prelude.Dict.{
  keys, lookup, contains, insert, lookup-insert, contains-insert, lookup_nonempty,
}
use metrics_server.Go.Time.{Duration}
use metrics_server.Go.Sort.{string_lt, sort_slice}
use metrics_server.Kube.{Quantities, ResourceList, PodMetrics, ContainerMetrics}
use metrics_server.Api.Table.{
  Row, Table, empty_table, column_definitions, quantity_of, cell_of, cells_of, add_usage, pod_total,
  pod_item, add_pod_metrics_to_table,
}
use metrics_server.Api.Table.Filled.{add_pod_metrics_to_table-IsTableOf}

map_same :
    {A B : Type 0} (f g : A → B) → ((x : A) → f x ≡ g x) → (xs : List A) → map f xs ≡ map g xs
map_same f g e [] = refl
map_same f g e (x ∷ xs) = ap (λ y. y ∷ map f xs) (e x) ∙ ap (λ ys. g x ∷ ys) (map_same f g e xs)

module _ {Q : Type 0} where
  -- The values of a resource in the usage of one container, and in those of all.
  abbrev pub values_in : GoString → ResourceList Q → List Q
  values_in name [] = []
  values_in name ((k, v) ∷ usage) =
      let rest = values_in name usage in if name == k then v ∷ rest else rest

  abbrev pub values_of : GoString → List (ContainerMetrics Q) → List Q
  values_of name [] = []
  values_of name (c ∷ containers) = values_in name c.usage ++ values_of name containers

module _ {Q : Type 0} (qs : Quantities Q) (duration_string : Duration → GoString) where
  abbrev pub sum_from : Q → List Q → Q
  sum_from q [] = q
  sum_from q (v ∷ vs) = sum_from (qs.add q v) vs

  sum_from-append : (q : Q) (vs ws : List Q) → sum_from q (vs ++ ws) ≡ sum_from (sum_from q vs) ws
  sum_from-append q [] ws = refl
  sum_from-append q (v ∷ vs) ws = sum_from-append (qs.add q v) vs ws

  quantity-insert :
      (name k : GoString) (q : Q) (usage : ResourceList Q)
      → quantity_of qs duration_string (insert k q usage) name
        ≡ (if name == k then q else quantity_of qs duration_string usage name)
  quantity-insert name k q usage = ground (arith, lookup-insert name k q usage)

  quantity-add_usage :
      (name : GoString) (more usage : ResourceList Q)
      → quantity_of qs duration_string (add_usage qs duration_string more usage) name
        ≡ sum_from (quantity_of qs duration_string usage name) (values_in name more)
  unfolding add_usage
  quantity-add_usage name [] usage = refl
  quantity-add_usage name ((k, v) ∷ more) usage =
      let old = quantity_of qs duration_string usage k in
      quantity-add_usage name more (insert k (qs.add old v) usage)
      ∙ ap (λ q. sum_from q (values_in name more)) (quantity-insert name k (qs.add old v) usage)
      ∙ elim (Bool-cases (name == k)) [
        | inl own ↦ rw own (
            ap
              (λ j.
                sum_from (qs.add (quantity_of qs duration_string usage j) v) (values_in name more))
              (sym ((==_iff name k).0 own)))
        | inr apart ↦ rw apart refl
      ]

  quantity-pod_total :
      (name : GoString) (containers : List (ContainerMetrics Q)) (usage : ResourceList Q)
      → quantity_of qs duration_string (pod_total qs duration_string containers usage) name
        ≡ sum_from (quantity_of qs duration_string usage name) (values_of name containers)
  unfolding pod_total
  quantity-pod_total name [] usage = refl
  quantity-pod_total name (c ∷ containers) usage =
      quantity-pod_total name containers (add_usage qs duration_string c.usage usage)
      ∙ ap (λ q. sum_from q (values_of name containers)) (quantity-add_usage name c.usage usage)
      ∙ sym (sum_from-append _ (values_in name c.usage) (values_of name containers))

  contains-add_usage :
      (name : GoString) (more usage : ResourceList Q)
      → contains name (add_usage qs duration_string more usage)
        ≡ (if contains name usage then true else ltb 0 (length (values_in name more)))
  unfolding add_usage
  contains-add_usage name [] usage = ground arith
  contains-add_usage name ((k, v) ∷ more) usage =
      let q = qs.add (quantity_of qs duration_string usage k) v in
      ground
        (arith, contains-add_usage name more (insert k q usage), contains-insert name k q usage)

  contains-pod_total :
      (name : GoString) (containers : List (ContainerMetrics Q)) (usage : ResourceList Q)
      → contains name (pod_total qs duration_string containers usage)
        ≡ (if contains name usage then true else ltb 0 (length (values_of name containers)))
  unfolding pod_total
  contains-pod_total name [] usage = ground arith
  contains-pod_total name (c ∷ containers) usage = ground (
    arith,
    contains-pod_total name containers (add_usage qs duration_string c.usage usage),
    contains-add_usage name c.usage usage,
    length-append (values_in name c.usage) (values_of name containers),
  )

  has_total :
      (name : GoString) (containers : List (ContainerMetrics Q))
      → contains name (pod_total qs duration_string containers [])
        ≡ ltb 0 (length (values_of name containers))
  unfolding contains lookup
  has_total name containers = contains-pod_total name containers []

  some_total :
      (name : GoString) (containers : List (ContainerMetrics Q))
      → 0 < length (values_of name containers)
      → 0 < length (pod_total qs duration_string containers [])
  unfolding contains
  some_total name containers h =
      let total = pod_total qs duration_string containers [] in
      let has = has_total name containers in
      elim (Option-cases (lookup name total)) [
        | inl e ↦ absurd (ground arith)
        | inr (v, e) ↦ lookup_nonempty name total v e
      ]

  -- The text of the sum of all values of a resource in the containers of a pod.
  abbrev pub sum_cell : PodMetrics Q → GoString → GoString
  sum_cell m name = qs.to_string (sum_from qs.zero_quantity (values_of name m.containers))

  cell_of-pod_item :
      (m : PodMetrics Q) (name : GoString)
      → cell_of qs duration_string (pod_item qs duration_string m) name ≡ sum_cell m name
  unfolding lookup
  cell_of-pod_item m name = ap qs.to_string (quantity-pod_total name m.containers [])

  abbrev pub summed_row : List GoString → PodMetrics Q → Row (PodMetrics Q)
  summed_row names m = record {
    cells = m.name ∷ map (sum_cell m) names ++ duration_string m.window ∷ [];
    object = m;
  }

  pub record IsSummedTable (names : List GoString) (ms : List (PodMetrics Q))
      (table : Table (PodMetrics Q)) : Type 0 where
    pub columns_exact : table.columns ≡ column_definitions names
    pub rows_exact : table.rows ≡ map (summed_row names) ms
    -- each row has a cell for each column
    pub aligned : All (λ row. length row.cells ≡ length table.columns) table.rows

  row_of-summed_row :
      (names : List GoString) (m : PodMetrics Q)
      → record {
        cells = cells_of qs duration_string (pod_item qs duration_string m) names;
        object = m;
      }
        ≡ summed_row names m
  row_of-summed_row names m =
      ap
        (λ (cells : List GoString). record {
          cells = m.name ∷ cells ++ duration_string m.window ∷ [];
          object = m;
        })
        (map_same _ (sum_cell m) (cell_of-pod_item m) names)

  -- The table of pods of which a container of the first has a resource: the sorted resources of the
  -- containers of the first, between name and window, are the columns. It has one row for each pod
  -- in order, with a cell for each column, where a resource's cell is the sum of its values in all
  -- containers of the pod. A resource is one of the first pod exactly if a container has a value of it.
  pub add_pod_metrics_to_table-IsSummedTable :
      (m : PodMetrics Q) (ms : List (PodMetrics Q)) (name : GoString)
      → 0 < length (values_of name m.containers)
      → let total = pod_total qs duration_string m.containers [] in
        IsSummedTable
          (sort_slice string_lt (keys total))
          (m ∷ ms)
          (add_pod_metrics_to_table qs duration_string empty_table (m ∷ ms))
        × ((k : GoString) → contains k total ≡ ltb 0 (length (values_of k m.containers)))
  add_pod_metrics_to_table-IsSummedTable m ms name h =
      let t =
        add_pod_metrics_to_table-IsTableOf qs duration_string m ms
          (some_total name m.containers h) in
      (
        record {
          columns_exact = t.columns_exact;
          rows_exact = t.rows_exact ∙ map_same _ (summed_row _) (row_of-summed_row _) (m ∷ ms);
          aligned = t.aligned;
        },
        λ k. has_total k m.containers,
      )
