-- ===== src/Decode/Switch.antt =====
-- The switch on the name of a series (pkg/scraper/client/resource/decode.go).
use metrics_server.Prelude.{
  ◌≡◌, Option, some, Bool, true, false, arith, GoString, gostring_eq, if◌then◌else◌, every, not,
  eqb, ◌==◌, ==_iff, Bool-cases, inl, inr,
}
use metrics_server.Bytes.Laws.{Lacks-of_check}
use metrics_server.Series.{timeseries_matches_name}
use metrics_server.Decode.Names.{timeseries_matches_name_unique}
use metrics_server.Decode.{Decoding}

-- A series is of one metric at most.
pub unmatched :
    (ts m n : GoString)
    → every (λ c. not (eqb c b'{')) m ≡ true
    → every (λ c. not (eqb c b'{')) n ≡ true
    → (m == n) ≡ false
    → timeseries_matches_name ts m ≡ true
    → timeseries_matches_name ts n ≡ false
unmatched ts m n hm hn differ h = elim (Bool-cases (timeseries_matches_name ts n)) [
  | inl both ↦
      let same =
        timeseries_matches_name_unique ts m n (Lacks-of_check b'{' m hm) (Lacks-of_check b'{' n hn)
          h both in
      absurd (ground (arith, ==_iff m n))
  | inr no_match ↦ no_match
]

-- What holds after both branches of a test holds after the test.
pub either :
    (b : Bool) (P : Decoding → Type 0) (x y : Option Decoding) (d : Decoding)
    → (x ≡ some d → P d)
    → (y ≡ some d → P d)
    → (if b then x else y) ≡ some d
    → P d
either true P x y d f g e = f e
either false P x y d f g e = g e
