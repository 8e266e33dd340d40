-- ===== src/Flamegraph.antt =====
-- internal/agent/util/flamegraph: the script flamegraph.pl, its options, and the choice of a grapher.
pub mod Options
pub mod Grapher
pub mod Width
