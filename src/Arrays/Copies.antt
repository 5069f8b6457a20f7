-- ===== src/Arrays/Copies.antt =====
-- The copies of homework1's array.c, sort.c and main.c in linux_c_development: each function is the
-- one of Arrays, since the text is the same, and array.c of homework3/array tests `len == 0` where the
-- others test `len <= 0`, which is the same of a size_t. main of homework3/array is another program.
pub mod Static
pub mod Dynamic
pub mod File
