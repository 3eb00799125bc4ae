-- ===== src/Api/Sorted.antt =====
-- The order of the items of a list answer (pkg/api/node.go and pod.go).
use mathlib.Core.List.{Perm}
use mathlib.Core.List.Perm
use metrics_server.Prelude.{
  ◌≡◌, refl, List, [], ◌∷◌, map, keep, Bool, true, false, GoString, gostring_eq, ◌==◌, not,
  if◌then◌else◌, arith, sym, ◌⊎◌, inl, inr,
}
use metrics_server.Go.Result.{ok}
use metrics_server.Go.Sort.{string_lt, sort_slice, IsSorted}
use metrics_server.Go.Sort.Laws.{
  IsStrictOrder, sort_slice-perm, sort_slice-IsSorted, string_lt-IsStrictOrder, string_lt_total,
}
use metrics_server.Api.{MetricsGetter}

module _ {E O M K : Type 0} {object_key : O → K} {item_key : M → K}
    (getter : MetricsGetter E O M K object_key item_key) where
  -- In order, and one item for each object that is served.
  abbrev pub IsReading : (M → M → Bool) → List O → List M → Type 0
  IsReading less objects items =
      IsSorted less items × Perm (map item_key items) (map object_key (keep getter.serves objects))

  pub sorted-IsReading :
      (less : M → M → Bool)
      → IsStrictOrder less
      → (objects : List O) (ms : List M) → getter.get objects ≡ ok ms
      → IsReading less objects (sort_slice less ms)
  sorted-IsReading less order objects ms e = (
    sort_slice-IsSorted order ms,
    rw (sym (getter.get-keys objects ms e)) (Perm.map item_key (sort_slice-perm less ms)),
  )

  -- What is read for one object: nothing, or one item of it.
  pub read_one :
      (object : O) (ms : List M)
      → getter.get (object ∷ []) ≡ ok ms
      → ((getter.serves object ≡ false) × (ms ≡ []))
        ⊎ ((item : M) × (getter.serves object ≡ true)
            × (item_key item ≡ object_key object)
            × (ms ≡ item ∷ []))
  read_one object [] e = let k = getter.get-keys (object ∷ []) [] e in inl (ground arith, refl)
  read_one object (m ∷ []) e =
      let k = getter.get-keys (object ∷ []) (m ∷ []) e in inr (m, ground arith, ground arith, refl)
  read_one object (m ∷ n ∷ ms) e =
      let k = getter.get-keys (object ∷ []) (m ∷ n ∷ ms) e in absurd (ground arith)

pub by_key-IsStrictOrder :
    {M : Type 0} (key : M → GoString) → IsStrictOrder (λ (a b : M). string_lt (key a) (key b))
by_key-IsStrictOrder key = record {
  asymm = λ x y. string_lt-IsStrictOrder.asymm (key x) (key y);
  trans = λ x y z. string_lt-IsStrictOrder.trans (key x) (key y) (key z);
}

-- Two keys, the second compared where the first are equal.
abbrev pub pair_lt : GoString → GoString → GoString → GoString → Bool
pair_lt a b c d = if not (a == c) then string_lt a c else string_lt b d

pub by_keys-IsStrictOrder :
    {M : Type 0} (k l : M → GoString) → IsStrictOrder (λ (a b : M). pair_lt (k a) (l a) (k b) (l b))
by_keys-IsStrictOrder k l = record {
  asymm = λ x y h.
      ground (
        arith,
        string_lt-IsStrictOrder.asymm (k x) (k y),
        string_lt-IsStrictOrder.asymm (l x) (l y),
      );
  trans = λ x y z g h. ground (
    arith,
    string_lt-IsStrictOrder.trans (k x) (k y) (k z),
    string_lt-IsStrictOrder.trans (l x) (l y) (l z),
    string_lt_total (k x) (k y),
    string_lt_total (k y) (k z),
    string_lt-IsStrictOrder.asymm (k x) (k y),
    string_lt-IsStrictOrder.asymm (k y) (k z),
  );
}
