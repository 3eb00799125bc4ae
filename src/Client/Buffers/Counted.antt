-- ===== src/Client/Buffers/Counted.antt =====
-- How often a number is in a list of the buffers of the kubelet client.
use metrics_server.Prelude.{
  ℕ, suc, ◌+◌, ◌≤◌, ◌≡◌, List, [], ◌∷◌, ◌++◌, false, if◌then◌else◌, eqb, arith, refl,
}

-- How often a number is in a list.
unfoldable pub count : ℕ → List ℕ → ℕ
count i [] = 0
count i (j ∷ js) = let rest = count i js in if eqb i j then suc rest else rest

count-append : (i : ℕ) (xs ys : List ℕ) → count i (xs ++ ys) ≡ count i xs + count i ys
unfolding count
count-append i [] ys = omega arith
count-append i (x ∷ xs) ys = let e = count-append i xs ys in ground arith

pub count-middle :
    (i j : ℕ) (xs ys : List ℕ) → count i (xs ++ j ∷ ys) ≡ count i (j ∷ []) + count i (xs ++ ys)
unfolding count
count-middle i j xs ys =
    let e = count-append i xs ys in let e' = count-append i xs (j ∷ ys) in ground arith

pub count_self : (i : ℕ) → count i (i ∷ []) ≡ 1
unfolding count
count_self i = ground arith

pub count-cons : (i j : ℕ) (js : List ℕ) → count i (j ∷ js) ≡ count i (j ∷ []) + count i js
count-cons i j js = count-middle i j [] js

pub count-other : (i j : ℕ) → eqb i j ≡ false → count i (j ∷ []) ≡ 0
unfolding count
count-other i j h = rw h refl

pub count-one : (i j : ℕ) → count i (j ∷ []) ≤ 1
unfolding count
count-one i j = ground arith

pub eqb-count : (i j : ℕ) → suc j ≤ i → count i (j ∷ []) ≡ 0
unfolding count
eqb-count i j h = ground arith
