-- ===== src/Go.antt =====
-- What the program uses of Go's own types and standard library: instants and durations of package
-- time, the double type float64, and calls that return a value or an error.
pub mod Time
pub mod Float
pub mod Result
pub mod Sort
