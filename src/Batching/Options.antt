-- ===== src/Batching/Options.antt =====
-- internal/platform/batching/pipeline.go: `withDefaults` and `validateOptions`. The numbers are
-- natural here; `runtime.NumCPU` is a parameter.
use send_flow_backend.Prelude.{ℕ, if◌then◌else◌, ◌==◌, ltb, leb}
use send_flow_backend.Effect.{failure, Result, ok, err}
use Prim.Native.Nat.{min}

pub record Options : Type 0 where
  pub shard_id : ℕ
  pub total_shards : ℕ
  pub buffered_items_size : ℕ
  pub write_batch_size : ℕ
  pub processor_concurrency : ℕ
  pub max_inflight : ℕ

abbrev pub or_default : ℕ → ℕ → ℕ
or_default n d = if n == 0 then d else n

unfoldable pub with_defaults : ℕ → Options → Options
with_defaults num_cpu o = record {
  shard_id = o.shard_id;
  total_shards = or_default o.total_shards 1;
  buffered_items_size = or_default o.buffered_items_size 5000;
  write_batch_size = or_default o.write_batch_size 500;
  processor_concurrency = or_default o.processor_concurrency (min num_cpu 8);
  max_inflight = or_default o.max_inflight 10000;
}

unfoldable pub validate_options : Options → Result (Unit {0})
validate_options o =
    if o.total_shards == 0
    then err (failure "batching: total shards must be > 0")
    else if leb o.total_shards o.shard_id
    then err (failure "batching: shard id must be in [0,total)")
    else if o.buffered_items_size == 0
    then err (failure "batching: buffered items size must be > 0")
    else if o.write_batch_size == 0
    then err (failure "batching: write batch size must be > 0")
    else if o.processor_concurrency == 0
    then err (failure "batching: processor concurrency must be > 0")
    else if ltb o.max_inflight o.write_batch_size
    then err (failure "batching: max inflight must be >= write batch size")
    else ok tt
