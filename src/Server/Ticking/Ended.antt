-- ===== src/Server/Ticking/Ended.antt =====
-- The scrape loop of pkg/server/server.go, taken apart into steps, against its run in one piece.
use mathlib.Core.List.{append-nil}
use metrics_server.Prelude.{
  ◌<◌, ◌≡◌, refl, sym, ap, ◌∙◌, true, false, Option, none, some, List, [], ◌∷◌, ◌++◌, map, arith,
  length,
}
use metrics_server.Go.Time.{Time}
use metrics_server.Storage.Types.{MetricsBatch}
use metrics_server.Server.{
  Server, Event, ticked, done, begin_tick, finish_tick, tick, scrape_loop, run_scrape,
}
use metrics_server.Server.Ticking.{
  Loop, begun_tick, finished_tick, Step, begins, finishes, cancels, ends, Reachable, start, next,
}

-- A tick that has finished: its start, and the batch that its scrape has returned.
abbrev pub Tick : Type 0
Tick = Time × MetricsBatch

abbrev pub ticks : List Tick → Server → Server
ticks [] x = x
ticks ((t, batch) ∷ rest) x = ticks rest (tick x t batch)

ticks_last :
    (xs : List Tick) (t : Time) (batch : MetricsBatch) (x : Server)
    → ticks (xs ++ (t, batch) ∷ []) x ≡ tick (ticks xs x) t batch
ticks_last [] t batch x = refl
ticks_last ((u, b) ∷ xs) t batch x = ticks_last xs t batch (tick x u b)

map_last :
    {A B : Type 0} (f : A → B) (xs : List A) (x : A) → map f (xs ++ x ∷ []) ≡ map f xs ++ f x ∷ []
map_last f [] x = refl
map_last f (y ∷ xs) x = ap (λ ys. f y ∷ ys) (map_last f xs x)

abbrev pub under_way : Option Time → Server → Server
under_way none x = x
under_way (some t) x = begin_tick x t

abbrev pub started : Option Time → List Time
started none = []
started (some t) = t ∷ []

-- The ticks that have finished, and the one that is under way.
pub record IsRun (first : Server) (s : Loop) : Type 0 where
  pub finished : List Tick
  pub begun_exact : s.begun ≡ map (λ (t, _). t) finished ++ started s.scraping
  pub stored_exact : s.stored ≡ map (λ (_, batch). batch) finished
  pub server_exact : s.server ≡ under_way s.scraping (ticks finished first)
  pub idle_at_end : s.ended ≡ true → s.scraping ≡ none
  pub begun_at_end : s.ended ≡ true → 0 < length s.begun

module _ (first : Server) where
  begins-IsRun :
      (s : Loop) (t : Time)
      → s.scraping ≡ none
      → s.ended ≡ false
      → IsRun first s
      → IsRun first (begun_tick s t)
  unfolding begun_tick begin_tick
  begins-IsRun s t idle going inv = record {
    finished = inv.finished;
    begun_exact =
        ap (λ ts. ts ++ t ∷ []) (rw idle at inv.begun_exact)
        ∙ ap (λ ts. ts ++ t ∷ []) (append-nil (map (λ (t, _). t) inv.finished));
    stored_exact = inv.stored_exact;
    server_exact = ap (λ x. begin_tick x t) (rw idle at inv.server_exact);
    idle_at_end = λ e. absurd (cc);
    begun_at_end = λ e. absurd (cc);
  }

  finishes-IsRun :
      (s : Loop) (t : Time) (batch : MetricsBatch)
      → s.scraping ≡ some t
      → IsRun first s
      → IsRun first (finished_tick s batch)
  unfolding finished_tick finish_tick tick
  finishes-IsRun s t batch busy inv =
      let f = inv.finished in
      record {
        finished = f ++ (t, batch) ∷ [];
        begun_exact =
            (rw busy at inv.begun_exact)
            ∙ sym (map_last (λ (t, _). t) f (t, batch))
            ∙ sym (append-nil (map (λ (t, _). t) (f ++ (t, batch) ∷ [])));
        stored_exact =
            ap (λ bs. bs ++ batch ∷ []) inv.stored_exact
            ∙ sym (map_last (λ (_, batch). batch) f (t, batch));
        server_exact =
            ap (λ x. finish_tick x batch) (rw busy at inv.server_exact)
            ∙ sym (ticks_last f t batch first);
        idle_at_end = λ e. refl;
        begun_at_end = inv.begun_at_end;
      }

  Step-IsRun : (s t : Loop) → Step s t → IsRun first s → IsRun first t
  Step-IsRun _ _ (begins s t idle going) inv = begins-IsRun s t idle going inv
  Step-IsRun _ _ (finishes s t batch busy) inv = finishes-IsRun s t batch busy inv
  Step-IsRun _ _ (cancels s) inv = record {
    finished = inv.finished;
    begun_exact = inv.begun_exact;
    stored_exact = inv.stored_exact;
    server_exact = inv.server_exact;
    idle_at_end = inv.idle_at_end;
    begun_at_end = inv.begun_at_end;
  }
  Step-IsRun _ _ (ends s idle over some_tick) inv = record {
    finished = inv.finished;
    begun_exact = inv.begun_exact;
    stored_exact = inv.stored_exact;
    server_exact = inv.server_exact;
    idle_at_end = λ e. idle;
    begun_at_end = λ e. some_tick;
  }

  Reachable-IsRun : (s : Loop) → Reachable first s → IsRun first s
  Reachable-IsRun _ start = record {
    finished = [];
    begun_exact = refl;
    stored_exact = refl;
    server_exact = refl;
    idle_at_end = λ e. absurd (cc);
    begun_at_end = λ e. absurd (cc);
  }
  Reachable-IsRun _ (next s t r step) = Step-IsRun s t step (Reachable-IsRun s r)

abbrev pub event_of : Tick → Event
event_of (t, batch) = ticked t batch

scrape_loop-ticks :
    (xs : List Tick) (after : List Event) (x : Server)
    → scrape_loop x (map event_of xs ++ done ∷ after) ≡ ticks xs x
unfolding scrape_loop
scrape_loop-ticks [] after x = refl
scrape_loop-ticks ((t, batch) ∷ xs) after x = scrape_loop-ticks xs after (tick x t batch)

-- A loop that has ended, against `run_scrape` with the same ticks.
pub record IsEnded (first : Server) (after : List Event) (s : Loop) : Type 0 where
  pub start_time : Time
  pub batch : MetricsBatch
  pub later : List Tick
  pub begun_exact : s.begun ≡ start_time ∷ map (λ (t, _). t) later
  pub stored_exact : s.stored ≡ batch ∷ map (λ (_, batch). batch) later
  pub same : s.server ≡ run_scrape first start_time batch (map event_of later ++ done ∷ after)

ticks-IsEnded :
    (first : Server) (after : List Event) (s : Loop) (xs : List Tick)
    → 0 < length s.begun
    → s.begun ≡ map (λ (t, _). t) xs
    → s.stored ≡ map (λ (_, batch). batch) xs
    → s.server ≡ ticks xs first
    → IsEnded first after s
unfolding run_scrape
ticks-IsEnded first after s [] h b c e = absurd (let l = ap length b in omega arith)
ticks-IsEnded first after s ((t, batch) ∷ xs) h b c e = record {
  start_time = t;
  batch = batch;
  later = xs;
  begun_exact = b;
  stored_exact = c;
  same = e ∙ sym (scrape_loop-ticks xs after (tick first t batch));
}

-- A loop that has ended, after any steps, has made the ticks of a run of `run_scrape`: each tick that
-- has begun has stored its batch, in the order of their starts, also one that was under way when the
-- context was cancelled, or that the `select` took after that; and whatever the ticker would still
-- have sent has no effect.
pub Reachable-run_scrape :
    (first : Server) (s : Loop) (after : List Event)
    → Reachable first s
    → s.ended ≡ true
    → IsEnded first after s
Reachable-run_scrape first s after r e =
    let inv = Reachable-IsRun first s r in
    let idle = inv.idle_at_end e in
    ticks-IsEnded first after s inv.finished (inv.begun_at_end e)
      ((rw idle at inv.begun_exact) ∙ append-nil (map (λ (t, _). t) inv.finished)) inv.stored_exact
      (rw idle at inv.server_exact)
