-- ===== src/Batching/Invariant.antt =====
-- The places in flight are those of the items between the reader and the writer.
use send_flow_backend.Prelude.{
  ℕ, ◌+◌, ◌≤◌, ◌≡◌, refl, ap, List, [], ◌∷◌, Option, length, length-append, arith,
}
use send_flow_backend.Batching.Options.{Options}
use send_flow_backend.Batching.Pipeline.{
  Reader, reading, waiting, sending, counting, Writer, gathering, counting_batch, releasing, State,
  start, Step, read_item, acquire, send_item, count_read, close_input, keep_item, drop_item,
  release_dropped, put_item, count_processed, collect, write_full, write_rest, count_written,
  release_written, end_release, finish, Steps, none_taken, one_more,
}

abbrev pub held : {I : Type 0} → Reader I → ℕ
held reading = 0
held (waiting i) = 0
held (sending i) = 1
held counting = 0

-- The places that the writer has yet to give back, and the items that it has yet to count.
abbrev pub owed : Writer → ℕ
owed gathering = 0
owed (counting_batch n) = n
owed (releasing n) = n

abbrev pub uncounted : Writer → ℕ
uncounted gathering = 0
uncounted (counting_batch n) = n
uncounted (releasing n) = 0

module _ {I O : Type 0} (opts : Options) where
  pub record IsBalanced (s : State I O) : Type 0 where
    pub places :
        s.tokens
        ≡ held s.reader
          + length s.input
          + length s.busy
          + s.dropped
          + length s.output
          + length s.buffer
          + owed s.writer
    pub buffer_room : length s.buffer ≤ opts.write_batch_size
    pub bounded : s.tokens ≤ opts.max_inflight
    pub input_bounded : length s.input ≤ opts.buffered_items_size
    pub output_bounded : length s.output ≤ opts.buffered_items_size
    pub busy_bounded : length s.busy + s.dropped + s.sent ≤ opts.processor_concurrency
    pub counted :
        s.items_processed + s.sent
        ≡ s.items_written + uncounted s.writer + length s.buffer + length s.output

  pub start-IsBalanced : (items : List I) → IsBalanced (start items)
  start-IsBalanced items = record {
    places = refl;
    buffer_room = omega arith;
    bounded = omega arith;
    input_bounded = omega arith;
    output_bounded = omega arith;
    busy_bounded = omega arith;
    counted = refl;
  }

  module _ (process : I → Option O) where
    pub Step-IsBalanced : {s t : State I O} → Step opts process s t → IsBalanced s → IsBalanced t
    Step-IsBalanced {s} (read_item i rest e f) b =
        let r = ap held e in
        record {
          places = omega (arith, b.places, r);
          buffer_room = b.buffer_room;
          bounded = b.bounded;
          input_bounded = b.input_bounded;
          output_bounded = b.output_bounded;
          busy_bounded = b.busy_bounded;
          counted = b.counted;
        }
    Step-IsBalanced {s} (acquire i e h) b =
        let r = ap held e in
        record {
          places = omega (arith, b.places, r);
          buffer_room = b.buffer_room;
          bounded = omega (arith, h);
          input_bounded = b.input_bounded;
          output_bounded = b.output_bounded;
          busy_bounded = b.busy_bounded;
          counted = b.counted;
        }
    Step-IsBalanced {s} (send_item i e h) b =
        let r = ap held e in
        let n = length-append s.input (i ∷ []) in
        record {
          places = omega (arith, b.places, r, n);
          buffer_room = b.buffer_room;
          bounded = b.bounded;
          input_bounded = omega (arith, n, h);
          output_bounded = b.output_bounded;
          busy_bounded = b.busy_bounded;
          counted = b.counted;
        }
    Step-IsBalanced {s} (count_read e) b =
        let r = ap held e in
        record {
          places = omega (arith, b.places, r);
          buffer_room = b.buffer_room;
          bounded = b.bounded;
          input_bounded = b.input_bounded;
          output_bounded = b.output_bounded;
          busy_bounded = b.busy_bounded;
          counted = b.counted;
        }
    Step-IsBalanced {s} (close_input e f g) b = record {
      places = b.places;
      buffer_room = b.buffer_room;
      bounded = b.bounded;
      input_bounded = b.input_bounded;
      output_bounded = b.output_bounded;
      busy_bounded = b.busy_bounded;
      counted = b.counted;
    }
    Step-IsBalanced {s} (keep_item i rest o e h f) b =
        let n = ap length e in
        record {
          places = omega (arith, b.places, n);
          buffer_room = b.buffer_room;
          bounded = b.bounded;
          input_bounded = omega (arith, b.input_bounded, n);
          output_bounded = b.output_bounded;
          busy_bounded = omega (arith, h);
          counted = b.counted;
        }
    Step-IsBalanced {s} (drop_item i rest e h f) b =
        let n = ap length e in
        record {
          places = omega (arith, b.places, n);
          buffer_room = b.buffer_room;
          bounded = b.bounded;
          input_bounded = omega (arith, b.input_bounded, n);
          output_bounded = b.output_bounded;
          busy_bounded = omega (arith, h);
          counted = b.counted;
        }
    Step-IsBalanced {s} (release_dropped n e) b = record {
      places = omega (arith, b.places, e);
      buffer_room = b.buffer_room;
      bounded = omega (arith, b.bounded);
      input_bounded = b.input_bounded;
      output_bounded = b.output_bounded;
      busy_bounded = omega (arith, b.busy_bounded, e);
      counted = b.counted;
    }
    Step-IsBalanced {s} (put_item before after o e h) b =
        let n = ap length e in
        let k = length-append before (o ∷ after) in
        let l = length-append before after in
        let q = length-append s.output (o ∷ []) in
        record {
          places = omega (arith, b.places, n, k, l, q);
          buffer_room = b.buffer_room;
          bounded = b.bounded;
          input_bounded = b.input_bounded;
          output_bounded = omega (arith, q, h);
          busy_bounded = omega (arith, b.busy_bounded, n, k, l);
          counted = omega (arith, b.counted, q);
        }
    Step-IsBalanced {s} (count_processed n e) b = record {
      places = b.places;
      buffer_room = b.buffer_room;
      bounded = b.bounded;
      input_bounded = b.input_bounded;
      output_bounded = b.output_bounded;
      busy_bounded = omega (arith, b.busy_bounded, e);
      counted = omega (arith, b.counted, e);
    }
    Step-IsBalanced {s} (collect o rest w e h) b =
        let n = ap length e in
        let k = length-append s.buffer (o ∷ []) in
        record {
          places = omega (arith, b.places, n, k);
          buffer_room = omega (arith, h, k);
          bounded = b.bounded;
          input_bounded = b.input_bounded;
          output_bounded = omega (arith, b.output_bounded, n);
          busy_bounded = b.busy_bounded;
          counted = omega (arith, b.counted, n, k);
        }
    Step-IsBalanced {s} (write_full o rest w m h) b =
        let v = ap owed w in
        let c = ap uncounted w in
        record {
          places = omega (arith, b.places, v);
          buffer_room = omega arith;
          bounded = b.bounded;
          input_bounded = b.input_bounded;
          output_bounded = b.output_bounded;
          busy_bounded = b.busy_bounded;
          counted = omega (arith, b.counted, c);
        }
    Step-IsBalanced {s} (write_rest o rest w a e f g k l m) b =
        let v = ap owed w in
        let c = ap uncounted w in
        record {
          places = omega (arith, b.places, v);
          buffer_room = omega arith;
          bounded = b.bounded;
          input_bounded = b.input_bounded;
          output_bounded = b.output_bounded;
          busy_bounded = b.busy_bounded;
          counted = omega (arith, b.counted, c);
        }
    Step-IsBalanced {s} (count_written n w) b =
        let v = ap owed w in
        let c = ap uncounted w in
        record {
          places = omega (arith, b.places, v);
          buffer_room = b.buffer_room;
          bounded = b.bounded;
          input_bounded = b.input_bounded;
          output_bounded = b.output_bounded;
          busy_bounded = b.busy_bounded;
          counted = omega (arith, b.counted, c);
        }
    Step-IsBalanced {s} (release_written n w) b =
        let v = ap owed w in
        let c = ap uncounted w in
        record {
          places = omega (arith, b.places, v);
          buffer_room = b.buffer_room;
          bounded = omega (arith, b.bounded);
          input_bounded = b.input_bounded;
          output_bounded = b.output_bounded;
          busy_bounded = b.busy_bounded;
          counted = omega (arith, b.counted, c);
        }
    Step-IsBalanced {s} (end_release w) b =
        let v = ap owed w in
        let c = ap uncounted w in
        record {
          places = omega (arith, b.places, v);
          buffer_room = b.buffer_room;
          bounded = b.bounded;
          input_bounded = b.input_bounded;
          output_bounded = b.output_bounded;
          busy_bounded = b.busy_bounded;
          counted = omega (arith, b.counted, c);
        }
    Step-IsBalanced {s} (finish w a e f g k l m d) b = record {
      places = b.places;
      buffer_room = b.buffer_room;
      bounded = b.bounded;
      input_bounded = b.input_bounded;
      output_bounded = b.output_bounded;
      busy_bounded = b.busy_bounded;
      counted = b.counted;
    }

    Steps-IsBalanced : {s t : State I O} → Steps opts process s t → IsBalanced s → IsBalanced t
    Steps-IsBalanced none_taken b = b
    Steps-IsBalanced (one_more run h) b = Step-IsBalanced h (Steps-IsBalanced run b)

-- Whatever the order of the goroutines' steps, and however many are taken: the number of places in
-- flight is that of the items between the reader and the writer, of the filtered items whose place
-- a processor is to give back, and of the written items whose place the writer is to give back; it
-- is at most `MaxInflight`. The channels and the writer's buffer stay within their sizes. The items
-- counted as processed, and those that processors have sent and are to count, are the items counted
-- as written, those written and to be counted, those in the writer's buffer and those in the output
-- channel.
pub run-IsBalanced :
    {I O : Type 0} (opts : Options) (process : I → Option O) (items : List I) (s : State I O)
    → Steps opts process (start items) s
    → IsBalanced opts s
run-IsBalanced opts process items s run =
    Steps-IsBalanced opts process run (start-IsBalanced opts items)
