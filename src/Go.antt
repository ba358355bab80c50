-- ===== src/Go.antt =====
-- What the program uses of Go's standard library: encoding/hex, numbers as text, strings, sort.Slice,
-- files of JSON objects, and the ends of a function.
pub mod Hex
pub mod File
pub mod Number
pub mod Sort
pub mod Attempt
pub mod Text
