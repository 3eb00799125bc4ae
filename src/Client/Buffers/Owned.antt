-- ===== src/Client/Buffers/Owned.antt =====
-- Who holds the buffers of the pool of the kubelet client.
use mathlib.Core.Path.{subst}
use metrics_server.Prelude.{
  ℕ, ◌+◌, ◌≤◌, ◌≡◌, refl, ap, sym, ◌∙◌, List, [], ◌∷◌, ◌++◌, All, map, Bool-cases, inl, inr, true,
  false, GoString, eqb, arith,
}
use metrics_server.Client.Buffers.Counted.{
  count, count-middle, count_self, count-cons, count-other, count-one, eqb-count,
}
use metrics_server.Client.Buffers.{
  Pool, write, got, got_new, copied, put_back, Step, get_free, get_new, copy, put, drop_free,
  Reachable, start, next,
}

abbrev pub numbers : List (ℕ × GoString) → List ℕ
numbers held = map (λ (i, read). i) held

numbers-append : (xs ys : List (ℕ × GoString)) → numbers (xs ++ ys) ≡ numbers xs ++ numbers ys
numbers-append [] ys = refl
numbers-append ((i, read) ∷ xs) ys = ap (◌∷◌ i) (numbers-append xs ys)

-- What each request has read is in its buffer.
abbrev pub HoldsOwn : (ℕ → GoString) → List (ℕ × GoString) → Type 0
HoldsOwn contents held = All (λ (i, read). contents i ≡ read) held

record IsGood (s : Pool) : Type 0 where
  once : (i : ℕ) → count i s.free + count i (numbers s.held) ≤ 1
  fresh : (i : ℕ) → s.allocated ≤ i → count i s.free + count i (numbers s.held) ≡ 0
  own : HoldsOwn s.contents s.held

-- A write to a buffer is not seen by the requests that do not hold it.
write-other :
    (contents : ℕ → GoString) (i : ℕ) (bytes : GoString) (held : List (ℕ × GoString))
    → count i (numbers held) ≡ 0
    → HoldsOwn contents held
    → HoldsOwn (write contents i bytes) held
unfolding count write
write-other contents i bytes [] h own = tt
write-other contents i bytes ((j, read) ∷ held) h (here, own) =
    let differ : eqb i j ≡ false = ground arith in
    (rw differ here, write-other contents i bytes held (ground arith) own)

own-without :
    (contents : ℕ → GoString) (i : ℕ) (read : GoString) (xs ys : List (ℕ × GoString))
    → HoldsOwn contents (xs ++ (i, read) ∷ ys)
    → (contents i ≡ read) × HoldsOwn contents (xs ++ ys)
own-without contents i read [] ys own = own
own-without contents i read (x ∷ xs) ys (here, own) =
    let (e, rest) = own-without contents i read xs ys own in (e, (here, rest))

own-with :
    (contents : ℕ → GoString) (i : ℕ) (read : GoString) (xs ys : List (ℕ × GoString))
    → contents i ≡ read
    → HoldsOwn contents (xs ++ ys)
    → HoldsOwn contents (xs ++ (i, read) ∷ ys)
own-with contents i read [] ys e own = (e, own)
own-with contents i read (x ∷ xs) ys e (here, own) = (here, own-with contents i read xs ys e own)

-- How often a number is held, with one of the buffers taken out
count-held :
    (i j : ℕ) (read : GoString) (xs ys : List (ℕ × GoString))
    → count i (numbers (xs ++ (j, read) ∷ ys)) ≡ count i (j ∷ []) + count i (numbers (xs ++ ys))
count-held i j read xs ys =
    rw (numbers-append xs ((j, read) ∷ ys), numbers-append xs ys)
      (count-middle i j (numbers xs) (numbers ys))

write_self : (contents : ℕ → GoString) (i : ℕ) (bytes : GoString) → write contents i bytes i ≡ bytes
unfolding write
write_self contents i bytes = let e : eqb i i ≡ true = ground arith in rw e refl

got-IsGood :
    (s : Pool) (xs : List ℕ) (i : ℕ) (ys : List ℕ)
    → s.free ≡ xs ++ i ∷ ys
    → IsGood s
    → IsGood (got s i (xs ++ ys))
got-IsGood s xs i ys e good =
    let moved : (j : ℕ)
        → count j (xs ++ ys) + count j (i ∷ numbers s.held)
          ≡ count j s.free + count j (numbers s.held) =
      λ j.
        let a = count-cons j i (numbers s.held) in
        let b = count-middle j i xs ys in let c = ap (count j) e in omega arith in
    let unheld : count i (numbers s.held) ≡ 0 =
      let a = count_self i in
      let b = count-middle i i xs ys in
      let c = ap (count i) e in let d = good.once i in omega arith in
    record {
      once = λ j. rw (moved j) (good.once j);
      fresh = λ j h. rw (moved j) (good.fresh j h);
      own = (write_self s.contents i [], write-other s.contents i [] s.held unheld good.own);
    }

got_new-IsGood : (s : Pool) → IsGood s → IsGood (got_new s)
got_new-IsGood s good =
    let i = s.allocated in
    let unheld : count i (numbers s.held) ≡ 0 = let h = good.fresh i (omega arith) in omega arith in
    record {
      once = λ j.
          let a = count-cons j i (numbers s.held) in
          elim (Bool-cases (eqb j i)) [
            | inl same ↦
                let e : j ≡ i = ground arith in
                let b = count-one j i in let c = good.fresh j (omega arith) in omega arith
            | inr differ ↦ let b = count-other j i differ in let c = good.once j in omega arith
          ];
      fresh = λ j h.
          let a = count-cons j i (numbers s.held) in
          let b = eqb-count j i h in let c = good.fresh j (omega arith) in omega arith;
      own = (write_self s.contents i [], write-other s.contents i [] s.held unheld good.own);
    }

copied-IsGood :
    (s : Pool) (xs : List (ℕ × GoString)) (i : ℕ) (read chunk : GoString) (ys : List (ℕ × GoString))
    → s.held ≡ xs ++ (i, read) ∷ ys
    → IsGood s
    → IsGood (copied s i chunk (xs ++ (i, read ++ chunk) ∷ ys))
copied-IsGood s xs i read chunk ys e good =
    let same : (j : ℕ)
        → count j (numbers (xs ++ (i, read ++ chunk) ∷ ys)) ≡ count j (numbers s.held) =
      λ j.
        count-held j i (read ++ chunk) xs ys
        ∙ sym (count-held j i read xs ys)
        ∙ ap (λ held. count j (numbers held)) (sym e) in
    let unheld : count i (numbers (xs ++ ys)) ≡ 0 =
      let a = count_self i in
      let b = count-held i i read xs ys in
      let c = ap (λ held. count i (numbers held)) e in let d = good.once i in omega arith in
    let (mine, others) =
      own-without s.contents i read xs ys (subst (HoldsOwn s.contents) e good.own) in
    let contents = write s.contents i (s.contents i ++ chunk) in
    record {
      once = λ j. rw (same j) (good.once j);
      fresh = λ j h. rw (same j) (good.fresh j h);
      own =
          own-with contents i (read ++ chunk) xs ys
            (write_self s.contents i (s.contents i ++ chunk) ∙ ap (λ bs. bs ++ chunk) mine)
            (write-other s.contents i (s.contents i ++ chunk) (xs ++ ys) unheld others);
    }

put_back-IsGood :
    (s : Pool) (xs : List (ℕ × GoString)) (i : ℕ) (read : GoString) (ys : List (ℕ × GoString))
    → s.held ≡ xs ++ (i, read) ∷ ys
    → IsGood s
    → IsGood (put_back s i (xs ++ ys))
put_back-IsGood s xs i read ys e good =
    let moved : (j : ℕ)
        → count j (i ∷ s.free) + count j (numbers (xs ++ ys))
          ≡ count j s.free + count j (numbers s.held) =
      λ j.
        let a = count-cons j i s.free in
        let b = count-held j i read xs ys in
        let c = ap (λ held. count j (numbers held)) e in omega arith in
    record {
      once = λ j. rw (moved j) (good.once j);
      fresh = λ j h. rw (moved j) (good.fresh j h);
      own = (own-without s.contents i read xs ys (subst (HoldsOwn s.contents) e good.own)).1;
    }

dropped-IsGood :
    (s : Pool) (xs : List ℕ) (i : ℕ) (ys : List ℕ)
    → s.free ≡ xs ++ i ∷ ys
    → IsGood s
    → IsGood (record s { free = xs ++ ys })
dropped-IsGood s xs i ys e good =
    let fewer : (j : ℕ) → count j (xs ++ ys) ≤ count j s.free =
      λ j. let b = count-middle j i xs ys in let c = ap (count j) e in omega arith in
    record {
      once = λ j. let a = fewer j in let b = good.once j in omega arith;
      fresh = λ j h. let a = fewer j in let b = good.fresh j h in omega arith;
      own = good.own;
    }

Step-IsGood : (s t : Pool) → Step s t → IsGood s → IsGood t
Step-IsGood _ _ (get_free s xs i ys e) good = got-IsGood s xs i ys e good
Step-IsGood _ _ (get_new s) good = got_new-IsGood s good
Step-IsGood _ _ (copy s xs i read chunk ys e) good = copied-IsGood s xs i read chunk ys e good
Step-IsGood _ _ (put s xs i read ys e) good = put_back-IsGood s xs i read ys e good
Step-IsGood _ _ (drop_free s xs i ys e) good = dropped-IsGood s xs i ys e good

Reachable-IsGood : (s : Pool) → Reachable s → IsGood s
unfolding count
Reachable-IsGood _ start = record { once = λ i. omega arith; fresh = λ i h. refl; own = tt }
Reachable-IsGood _ (next s t r step) = Step-IsGood s t step (Reachable-IsGood s r)

-- Whatever the order in which the requests take buffers, read and put them back, each request
-- finds in its buffer what it has read of its own response, and a buffer that is held is neither
-- in the pool nor held by another request.
pub Reachable-HoldsOwn :
    (s : Pool)
    → Reachable s
    → HoldsOwn s.contents s.held × ((i : ℕ) → count i s.free + count i (numbers s.held) ≤ 1)
Reachable-HoldsOwn s r = let good = Reachable-IsGood s r in (good.own, good.once)
