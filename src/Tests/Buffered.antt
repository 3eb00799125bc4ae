-- ===== src/Tests/Buffered.antt =====
-- Two requests that use the buffers of the pool at the same time.
use metrics_server.Prelude.{ℕ, ◌+◌, ◌≤◌, refl, [], ◌∷◌}
use metrics_server.Client.Buffers.{
  Pool, new_pool, got, got_new, copied, put_back, Reachable, start, next, get_free, get_new, copy,
  put,
}
use metrics_server.Client.Buffers.Counted.{count}
use metrics_server.Client.Buffers.Owned.{HoldsOwn, numbers, Reachable-HoldsOwn}

abbrev two_taken : Pool
two_taken = got_new (got_new new_pool)

abbrev one_read : Pool
one_read = copied two_taken 1 (7 ∷ []) ((1, 7 ∷ []) ∷ (0, []) ∷ [])

abbrev both_read : Pool
both_read = copied one_read 0 (8 ∷ 9 ∷ []) ((1, 7 ∷ []) ∷ (0, 8 ∷ 9 ∷ []) ∷ [])

abbrev one_done : Pool
one_done = put_back both_read 1 ((0, 8 ∷ 9 ∷ []) ∷ [])

-- The buffer of the first response is taken again while the second is in use.
abbrev taken_again : Pool
taken_again = got one_done 1 []

taken_again-Reachable : Reachable taken_again
taken_again-Reachable =
    next one_done taken_again
      (next both_read one_done
        (next one_read both_read
          (next two_taken one_read
            (next (got_new new_pool) two_taken
              (next new_pool (got_new new_pool) start (get_new new_pool))
              (get_new (got_new new_pool)))
            (copy two_taken [] 1 [] (7 ∷ []) ((0, []) ∷ []) refl))
          (copy one_read ((1, 7 ∷ []) ∷ []) 0 [] (8 ∷ 9 ∷ []) [] refl))
        (put both_read [] 1 (7 ∷ []) ((0, 8 ∷ 9 ∷ []) ∷ []) refl))
      (get_free one_done [] 1 [] refl)

Reachable-HoldsOwn_example :
    HoldsOwn taken_again.contents taken_again.held
    × ((i : ℕ) → count i taken_again.free + count i (numbers taken_again.held) ≤ 1)
Reachable-HoldsOwn_example = Reachable-HoldsOwn taken_again taken_again-Reachable
