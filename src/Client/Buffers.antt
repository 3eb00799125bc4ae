-- ===== src/Client/Buffers.antt =====
-- The pool of buffers of pkg/scraper/client/resource/client.go, shared by the requests that run at
-- the same time: Get, Reset, io.Copy and the deferred Put as steps in any order. A buffer that
-- grows stays with its request, and keeps its number.
pub mod Counted
pub mod Owned
use metrics_server.Prelude.{ℕ, suc, ◌≡◌, List, [], ◌∷◌, ◌++◌, GoString, if◌then◌else◌, eqb}

-- `contents` is the memory of the buffers, by their number. A request that holds a buffer is paired
-- with what it has read of its own response.
pub record Pool : Type 0 where
  pub free : List ℕ
  pub held : List (ℕ × GoString)
  pub allocated : ℕ
  pub contents : ℕ → GoString

abbrev pub new_pool : Pool
new_pool = record { free = []; held = []; allocated = 0; contents = λ i. [] }

unfoldable pub write : (ℕ → GoString) → ℕ → GoString → ℕ → GoString
write contents i bytes j = if eqb i j then bytes else contents j

-- buffers.Get with an item of the pool, and the Reset that follows
abbrev pub got : Pool → ℕ → List ℕ → Pool
got s i free = record s { free = free; held = (i, []) ∷ s.held; contents = write s.contents i [] }

-- buffers.Get that calls New, and the Reset that follows
abbrev pub got_new : Pool → Pool
got_new s = record s {
  held = (s.allocated, []) ∷ s.held;
  allocated = suc s.allocated;
  contents = write s.contents s.allocated [];
}

-- A Write of io.Copy to the buffer of one of the requests
abbrev pub copied : Pool → ℕ → GoString → List (ℕ × GoString) → Pool
copied s i chunk held = record s {
  held = held;
  contents = write s.contents i (s.contents i ++ chunk);
}

-- The deferred Put
abbrev pub put_back : Pool → ℕ → List (ℕ × GoString) → Pool
put_back s i held = record s { free = i ∷ s.free; held = held }

-- Get may take any item or none, and the pool may drop items at any time.
pub data Step : Pool → Pool → Type 0 where
  get_free :
      (s : Pool) (xs : List ℕ) (i : ℕ) (ys : List ℕ)
      → s.free ≡ xs ++ i ∷ ys
      → Step s (got s i (xs ++ ys))
  get_new : (s : Pool) → Step s (got_new s)
  copy :
      (s : Pool) (xs : List (ℕ × GoString)) (i : ℕ) (read chunk : GoString)
      (ys : List (ℕ × GoString))
      → s.held ≡ xs ++ (i, read) ∷ ys
      → Step s (copied s i chunk (xs ++ (i, read ++ chunk) ∷ ys))
  put :
      (s : Pool) (xs : List (ℕ × GoString)) (i : ℕ) (read : GoString) (ys : List (ℕ × GoString))
      → s.held ≡ xs ++ (i, read) ∷ ys
      → Step s (put_back s i (xs ++ ys))
  drop_free :
      (s : Pool) (xs : List ℕ) (i : ℕ) (ys : List ℕ)
      → s.free ≡ xs ++ i ∷ ys
      → Step s (record s { free = xs ++ ys })

pub data Reachable : Pool → Type 0 where
  start : Reachable new_pool
  next : (s t : Pool) → Reachable s → Step s t → Reachable t
