-- ===== src/Tests/Agreed.antt =====
-- Two schedules of a scrape of two nodes, of which one fails.
use metrics_server.Prelude.{◌≡◌, refl, List, [], ◌∷◌, ◌++◌, GoString, gostring_eq, true, arith}
use metrics_server.Prelude.Dict.{lookup}
use metrics_server.Kube.{NamespacedName, namespaced_name_eq, Node}
use metrics_server.Scraper.{collect_node}
use metrics_server.Scraper.Merged.{node_of, pod_of}
use metrics_server.Scraper.Goroutines.{
  Scrape, begin, send, receive, sends, receives, closes, Reachable, start, next,
}
use metrics_server.Scraper.Goroutines.Agreed.{closed-same_points}
use metrics_server.Tests.Data.{node_a, node_b}
use metrics_server.Tests.Scraped.{get, no_requests, one_answer}

abbrev nodes : List Node
nodes = node_a ∷ node_b ∷ []

-- The first of two nodes sends, then the other; both answers are received after that.
module _ (xs : List Node) (x y : Node) (ys : List Node) where
  abbrev both_sent : Scrape
  both_sent = send get (send get (begin (xs ++ x ∷ ys) no_requests) x (y ∷ [])) y []

  abbrev one_received : Scrape
  one_received =
      receive get both_sent (collect_node (get x) no_requests).0
        ((collect_node (get y) (collect_node (get x) no_requests).1).0 ∷ []) 1

  abbrev both_received : Scrape
  both_received =
      receive get one_received (collect_node (get y) (collect_node (get x) no_requests).1).0 [] 0

  abbrev scraped : Scrape
  scraped = record both_received { closed = true }

a_first-Reachable : Reachable get nodes no_requests (scraped [] node_a node_b (node_b ∷ []))
unfolding send
a_first-Reachable =
    next (both_received [] node_a node_b (node_b ∷ [])) _
      (next (one_received [] node_a node_b (node_b ∷ [])) _
        (next (both_sent [] node_a node_b (node_b ∷ [])) _
          (next (send get (begin nodes no_requests) node_a (node_b ∷ [])) _
            (next (begin nodes no_requests) _ start
              (sends (begin nodes no_requests) [] node_a (node_b ∷ []) refl (omega arith) refl))
            (sends _ [] node_b [] refl (omega arith) refl))
          (receives _ _ _ 1 refl refl))
        (receives _ _ [] 0 refl refl))
      (closes _ refl refl)

b_first-Reachable : Reachable get nodes no_requests (scraped (node_a ∷ []) node_b node_a [])
unfolding send
b_first-Reachable =
    next (both_received (node_a ∷ []) node_b node_a []) _
      (next (one_received (node_a ∷ []) node_b node_a []) _
        (next (both_sent (node_a ∷ []) node_b node_a []) _
          (next (send get (begin nodes no_requests) node_b (node_a ∷ [])) _
            (next (begin nodes no_requests) _ start
              (sends (begin nodes no_requests) (node_a ∷ []) node_b [] refl (omega arith) refl))
            (sends _ [] node_a [] refl (omega arith) refl))
          (receives _ _ _ 1 refl refl))
        (receives _ _ [] 0 refl refl))
      (closes _ refl refl)

closed-same_points_example :
    ((name : GoString)
      → lookup name (scraped [] node_a node_b (node_b ∷ [])).res.nodes
        ≡ lookup name (scraped (node_a ∷ []) node_b node_a []).res.nodes)
    × ((ref : NamespacedName)
        → lookup ref (scraped [] node_a node_b (node_b ∷ [])).res.pods
          ≡ lookup ref (scraped (node_a ∷ []) node_b node_a []).res.pods)
unfolding send
closed-same_points_example =
    closed-same_points get nodes no_requests (scraped [] node_a node_b (node_b ∷ []))
      (scraped (node_a ∷ []) node_b node_a []) a_first-Reachable b_first-Reachable refl refl
      (λ name. one_answer (node_of name) refl) (λ ref. one_answer (pod_of ref) refl)
