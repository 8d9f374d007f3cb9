-- ===== src/Batching/Tests.antt =====
-- A run of the pipeline over two items, of which one is filtered out.
use send_flow_backend.Prelude.{
  ℕ, ◌+◌, ◌≤◌, ◌≡◌, refl, true, List, [], ◌∷◌, Option, none, some, arith, ◌==◌, if◌then◌else◌,
}
use send_flow_backend.Effect.{ok}
use send_flow_backend.Batching.Options.{Options, validate_options, with_defaults}
use send_flow_backend.Batching.Pipeline.{
  counting_batch, State, start, Step, read_item, acquire, send_item, count_read, close_input,
  keep_item, drop_item, release_dropped, put_item, count_processed, collect, write_full,
  count_written, release_written, end_release, finish, Steps, none_taken, one_more,
}
use send_flow_backend.Batching.Invariant.{IsBalanced, run-IsBalanced}
use send_flow_backend.Batching.Progress.{run_steps, steps_taken, run_ends}
use send_flow_backend.Batching.Conservation.{count, count_outputs, run_writes_all}

abbrev given : Options
given = record {
  shard_id = 0;
  total_shards = 1;
  buffered_items_size = 2;
  write_batch_size = 1;
  processor_concurrency = 1;
  max_inflight = 2;
}

-- Only what is left at 0 takes its default.
default_options :
    with_defaults 4 (record given { max_inflight = 0 }) ≡ record given { max_inflight = 10000 }
unfolding with_defaults
default_options = refl

given_valid : validate_options given ≡ ok tt
unfolding validate_options
given_valid = refl

abbrev doubled_ones : ℕ → Option ℕ
doubled_ones n = if n == 1 then some (n + n) else none

abbrev items : List ℕ
items = 1 ∷ 2 ∷ []

abbrev begun : State ℕ ℕ
begun = start items

-- The first item has been read, and is in the input channel.
abbrev after_one : State ℕ ℕ
after_one = record begun { source = 2 ∷ []; input = 1 ∷ []; tokens = 1; items_read = 1 }

one_read : Steps given doubled_ones begun after_one
one_read =
    one_more
      (one_more
        (one_more (one_more none_taken (read_item 1 (2 ∷ []) refl refl))
          (acquire 1 refl (omega arith)))
        (send_item 1 refl (omega arith)))
      (count_read refl)

-- The output of the first item has been written, and the second item is in the input channel.
abbrev after_write : State ℕ ℕ
after_write = record begun {
  source = [];
  input = 2 ∷ [];
  tokens = 2;
  written = 2 ∷ [];
  writer = counting_batch 1;
  items_read = 2;
  items_processed = 1;
}

one_written : Steps given doubled_ones begun after_write
one_written =
    one_more
      (one_more
        (one_more
          (one_more
            (one_more
              (one_more
                (one_more
                  (one_more (one_more one_read (keep_item 1 [] 2 refl (omega arith) refl))
                    (read_item 2 [] refl refl))
                  (acquire 2 refl (omega arith)))
                (put_item [] [] 2 refl (omega arith)))
              (count_processed 0 refl))
            (send_item 2 refl (omega arith)))
          (count_read refl))
        (collect 2 [] refl refl (omega arith)))
      (write_full 2 [] refl refl (omega arith))

abbrev ended : State ℕ ℕ
ended = record begun {
  source = [];
  written = 2 ∷ [];
  closed = true;
  done = true;
  items_read = 2;
  items_processed = 1;
  items_written = 1;
}

whole_run : Steps given doubled_ones begun ended
whole_run =
    one_more
      (one_more
        (one_more
          (one_more
            (one_more
              (one_more (one_more one_written (count_written 1 refl)) (release_written 0 refl))
              (end_release refl))
            (drop_item 2 [] refl (omega arith) refl))
          (release_dropped 0 refl))
        (close_input refl refl refl))
      (finish refl refl refl refl refl refl refl refl refl)

run-IsBalanced_example : IsBalanced given after_write
run-IsBalanced_example = run-IsBalanced given doubled_ones items after_write one_written

run_steps_example : (t : State ℕ ℕ) × Step given doubled_ones after_write t
run_steps_example = run_steps given doubled_ones items after_write given_valid one_written refl

run_ends_example : steps_taken given doubled_ones whole_run ≤ 26
run_ends_example = run_ends given doubled_ones items ended whole_run

run_writes_all_example :
    count (λ n. n == 2) (2 ∷ []) ≡ count_outputs doubled_ones (λ n. n == 2) items
run_writes_all_example = run_writes_all given doubled_ones items ended whole_run refl (λ n. n == 2)
