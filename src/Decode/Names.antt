-- ===== src/Decode/Names.antt =====
-- timeseriesMatchesName of pkg/scraper/client/resource/decode.go: which series have a metric's name.
use metrics_server.Prelude.{ℕ, ◌≡◌, ◌↔◌, ◌⊎◌, inl, inr, refl, [], ◌∷◌, ◌++◌, true, arith, GoString}
use metrics_server.Bytes.{has_prefix}
use metrics_server.Bytes.Laws.{Lacks}
use metrics_server.Series.{timeseries_matches_name}

-- The text of a series of this metric: the bare name, or the name before a list of labels.
abbrev pub IsSeriesOf : GoString → GoString → Type 0
IsSeriesOf ts name = (ts ≡ name) ⊎ ((labels : GoString) × (ts ≡ name ++ b'{' ∷ labels))

IsSeriesOf-cons :
    (c b : ℕ) (ts name : GoString) → c ≡ b → IsSeriesOf ts name → IsSeriesOf (c ∷ ts) (b ∷ name)
IsSeriesOf-cons c b ts name p (inl e) = inl (cc)
IsSeriesOf-cons c b ts name p (inr (labels, e)) = inr (labels, cc)

matches-tail :
    (c b : ℕ) (ts name : GoString)
    → timeseries_matches_name (c ∷ ts) (b ∷ name) ≡ true
    → (c ≡ b) × (timeseries_matches_name ts name ≡ true)
unfolding timeseries_matches_name has_prefix
matches-tail c b ts name h = ground arith

matches-cons :
    (c : ℕ) (ts name : GoString)
    → timeseries_matches_name ts name ≡ true
    → timeseries_matches_name (c ∷ ts) (c ∷ name) ≡ true
unfolding timeseries_matches_name has_prefix
matches-cons c ts name h = ground arith

matches_sound : (ts name : GoString) → timeseries_matches_name ts name ≡ true → IsSeriesOf ts name
unfolding timeseries_matches_name has_prefix
matches_sound [] [] h = inl refl
matches_sound [] (b ∷ name) h = cc
matches_sound (c ∷ ts) [] h = inr (ts, ground arith)
matches_sound (c ∷ ts) (b ∷ name) h =
    let (p, q) = matches-tail c b ts name h in
    IsSeriesOf-cons c b ts name p (matches_sound ts name q)

matches_bare : (name : GoString) → timeseries_matches_name name name ≡ true
unfolding timeseries_matches_name has_prefix
matches_bare [] = refl
matches_bare (c ∷ name) = matches-cons c name name (matches_bare name)

matches_labelled :
    (name labels : GoString) → timeseries_matches_name (name ++ b'{' ∷ labels) name ≡ true
unfolding timeseries_matches_name has_prefix
matches_labelled [] labels = ground arith
matches_labelled (c ∷ name) labels =
    matches-cons c (name ++ b'{' ∷ labels) name (matches_labelled name labels)

matches_complete :
    (ts name : GoString) → IsSeriesOf ts name → timeseries_matches_name ts name ≡ true
matches_complete ts name (inl e) = rw e (matches_bare name)
matches_complete ts name (inr (labels, e)) = rw e (matches_labelled name labels)

-- A series matches a metric's name exactly if its text is the name, alone or before labels; a
-- longer name with the same beginning does not match.
pub timeseries_matches_name_iff :
    (ts name : GoString) → (timeseries_matches_name ts name ≡ true) ↔ IsSeriesOf ts name
timeseries_matches_name_iff ts name = (matches_sound ts name, matches_complete ts name)

-- A series matches one name at most, among names that have no brace: the order of the cases of
-- the switch does not matter.
pub timeseries_matches_name_unique :
    (ts m n : GoString)
    → Lacks b'{' m
    → Lacks b'{' n
    → timeseries_matches_name ts m ≡ true
    → timeseries_matches_name ts n ≡ true
    → m ≡ n
unfolding timeseries_matches_name has_prefix
timeseries_matches_name_unique ts [] [] hm hn p q = refl
timeseries_matches_name_unique [] [] (b ∷ n) hm hn p q = cc
timeseries_matches_name_unique (c ∷ ts) [] (b ∷ n) hm hn p q = absurd (ground arith)
timeseries_matches_name_unique [] (a ∷ m) n hm hn p q = cc
timeseries_matches_name_unique (c ∷ ts) (a ∷ m) [] hm hn p q = absurd (ground arith)
timeseries_matches_name_unique (c ∷ ts) (a ∷ m) (b ∷ n) hm hn p q = ground (
  arith,
  matches-tail c a ts m p,
  matches-tail c b ts n q,
  timeseries_matches_name_unique ts m n hm.1 hn.1,
)
