-- ===== src/Batching/Progress.antt =====
-- The pipeline never blocks for good.
use send_flow_backend.Prelude.{
  ℕ, zero, suc, ◌+◌, ◌*◌, ◌≤◌, ◌<◌, ◌≡◌, refl, ap, Bool, true, false, List, [], ◌∷◌, Option, none,
  some, length, length-append, arith, leb,
}
use send_flow_backend.Effect.{ok}
use send_flow_backend.Batching.Options.{Options, validate_options}
use send_flow_backend.Batching.Pipeline.{
  Reader, reading, waiting, sending, counting, Writer, gathering, counting_batch, releasing, State,
  start, Step, read_item, acquire, send_item, count_read, close_input, keep_item, drop_item,
  release_dropped, put_item, count_processed, collect, write_full, write_rest, count_written,
  release_written, end_release, finish, Steps, none_taken, one_more,
}
use send_flow_backend.Batching.Invariant.{IsBalanced, held, owed, run-IsBalanced}

-- The sizes that `validateOptions` lets through.
pub record IsValid (o : Options) : Type 0 where
  pub some_room : 1 ≤ o.buffered_items_size
  pub some_batch : 1 ≤ o.write_batch_size
  pub some_processor : 1 ≤ o.processor_concurrency
  pub batch_fits : o.write_batch_size ≤ o.max_inflight

pub validate_options-IsValid : (o : Options) → validate_options o ≡ ok tt → IsValid o
unfolding validate_options
validate_options-IsValid o h = record {
  some_room = ground arith;
  some_batch = ground arith;
  some_processor = ground arith;
  batch_fits = ground arith;
}

module _ {I O : Type 0} (opts : Options) (process : I → Option O) (valid : IsValid opts)
    (s : State I O) (b : IsBalanced opts s) (open' : s.done ≡ false) where
  abbrev CanStep : Type 0
  CanStep = (t : State I O) × Step opts process s t

  -- The writer is at hand with room in its buffer, and what else does not go on by itself.
  record IsIdle : Type 0 where
    gathers : s.writer ≡ gathering
    no_output : s.output ≡ []
    room : length s.buffer < opts.write_batch_size
    none_sent : s.sent ≡ 0
    none_dropped : s.dropped ≡ 0
    none_busy : s.busy ≡ []

  step_of_rest : (u : List O) → s.buffer ≡ u → s.closed ≡ true → s.input ≡ [] → IsIdle → CanStep
  step_of_rest [] u c i k =
      (_, finish k.gathers c i k.none_busy k.none_dropped k.none_sent k.no_output u open')
  step_of_rest (x ∷ xs) u c i k =
      (_, write_rest x xs k.gathers c i k.none_busy k.none_dropped k.none_sent k.no_output u)

  step_at_end :
      (c : Bool)
      → s.closed ≡ c
      → s.source ≡ []
      → s.reader ≡ reading
      → s.input ≡ []
      → IsIdle
      → CanStep
  step_at_end false c x r i k = (_, close_input r x c)
  step_at_end true c x r i k = step_of_rest s.buffer refl c i k

  step_of_source :
      (x : List I) → s.source ≡ x → s.reader ≡ reading → s.input ≡ [] → IsIdle → CanStep
  step_of_source [] x r i k = step_at_end s.closed refl x r i k
  step_of_source (y ∷ ys) x r i k = (_, read_item y ys r x)

  step_of_reader : (r : Reader I) → s.reader ≡ r → s.input ≡ [] → IsIdle → CanStep
  step_of_reader reading r i k = step_of_source s.source refl r i k
  step_of_reader (waiting y) r i k =
      let few : s.tokens < opts.max_inflight = omega (
        arith,
        b.places,
        k.room,
        valid.batch_fits,
        ap held r,
        ap length i,
        ap length k.none_busy,
        ap length k.no_output,
        ap owed k.gathers,
        k.none_dropped,
      ) in
      (_, acquire y r few)
  step_of_reader (sending y) r i k =
      let room : length s.input < opts.buffered_items_size =
        omega (arith, valid.some_room, ap length i) in
      (_, send_item y r room)
  step_of_reader counting r i k = (_, count_read r)

  step_of_item :
      (y : I) (ys : List I) (q : Option O) → process y ≡ q → s.input ≡ y ∷ ys → IsIdle → CanStep
  step_of_item y ys q h i k = go q h
    where
      idle : length s.busy + s.dropped + s.sent < opts.processor_concurrency
      idle = omega (arith, valid.some_processor, ap length k.none_busy, k.none_dropped, k.none_sent)

      go : (q : Option O) → process y ≡ q → CanStep
      go none h = (_, drop_item y ys i idle h)
      go (some x) h = (_, keep_item y ys x i idle h)

  step_of_input : (i : List I) → s.input ≡ i → IsIdle → CanStep
  step_of_input [] i k = step_of_reader s.reader refl i k
  step_of_input (y ∷ ys) i k = step_of_item y ys (process y) refl i k

  step_of_busy :
      (u : List O)
      → s.busy ≡ u
      → s.writer ≡ gathering
      → s.output ≡ []
      → length s.buffer < opts.write_batch_size
      → s.sent ≡ 0
      → s.dropped ≡ 0
      → CanStep
  step_of_busy [] u w o l n m = step_of_input s.input refl (record {
    gathers = w;
    no_output = o;
    room = l;
    none_sent = n;
    none_dropped = m;
    none_busy = u;
  })
  step_of_busy (y ∷ ys) u w o l n m =
      let room : length s.output < opts.buffered_items_size =
        omega (arith, valid.some_room, ap length o) in
      (_, put_item [] ys y u room)

  step_of_dropped :
      (m : ℕ)
      → s.dropped ≡ m
      → s.writer ≡ gathering
      → s.output ≡ []
      → length s.buffer < opts.write_batch_size
      → s.sent ≡ 0
      → CanStep
  step_of_dropped zero m w o l n = step_of_busy s.busy refl w o l n m
  step_of_dropped (suc k) m w o l n = (_, release_dropped k m)

  step_of_sent :
      (n : ℕ)
      → s.sent ≡ n
      → s.writer ≡ gathering
      → s.output ≡ []
      → length s.buffer < opts.write_batch_size
      → CanStep
  step_of_sent zero n w o l = step_of_dropped s.dropped refl w o l n
  step_of_sent (suc k) n w o l = (_, count_processed k n)

  step_of_output :
      (o : List O)
      → s.output ≡ o
      → s.writer ≡ gathering
      → length s.buffer < opts.write_batch_size
      → CanStep
  step_of_output [] o w l = step_of_sent s.sent refl w o l
  step_of_output (y ∷ ys) o w l = (_, collect y ys w o l)

  step_of_full :
      (u : List O)
      → s.buffer ≡ u
      → s.writer ≡ gathering
      → opts.write_batch_size ≤ length s.buffer
      → CanStep
  step_of_full [] u w h = absurd (omega (arith, valid.some_batch, ap length u))
  step_of_full (y ∷ ys) u w h = (_, write_full y ys w u h)

  step_of_writer : (w : Writer) → s.writer ≡ w → CanStep
  step_of_writer gathering w = gathered (leb opts.write_batch_size (length s.buffer)) refl
    where
      gathered : (full : Bool) → leb opts.write_batch_size (length s.buffer) ≡ full → CanStep
      gathered true h = step_of_full s.buffer refl w (ground arith)
      gathered false h = step_of_output s.output refl w (ground arith)
  step_of_writer (counting_batch n) w = (_, count_written n w)
  step_of_writer (releasing zero) w = (_, end_release w)
  step_of_writer (releasing (suc n)) w = (_, release_written n w)

-- No deadlock: with options that `validateOptions` accepts, every state that a run can reach has a
-- next step, unless the writer has returned.
pub run_steps :
    {I O : Type 0} (opts : Options) (process : I → Option O) (items : List I) (s : State I O)
    → validate_options opts ≡ ok tt
    → Steps opts process (start items) s
    → s.done ≡ false
    → (t : State I O) × Step opts process s t
run_steps opts process items s h run open' =
    let valid = validate_options-IsValid opts h in
    step_of_writer opts process valid s (run-IsBalanced opts process items s run) open' s.writer
      refl

-- How far a state is from the end: an item has twelve steps at most before it, and the reader and
-- the writer one each.
abbrev reader_weight : {I : Type 0} → Reader I → ℕ
reader_weight reading = 0
reader_weight (waiting i) = 11
reader_weight (sending i) = 10
reader_weight counting = 1

abbrev writer_weight : Writer → ℕ
writer_weight gathering = 0
writer_weight (counting_batch n) = n + 2
writer_weight (releasing n) = n + 1

abbrev open_weight : Bool → ℕ
open_weight true = 0
open_weight false = 1

abbrev pub weight : {I O : Type 0} → State I O → ℕ
weight s =
    12 * length s.source
    + reader_weight s.reader
    + 8 * length s.input
    + 7 * length s.busy
    + s.dropped
    + s.sent
    + 5 * length s.output
    + 4 * length s.buffer
    + writer_weight s.writer
    + open_weight s.closed
    + open_weight s.done

module _ {I O : Type 0} (opts : Options) (process : I → Option O) where
  abbrev pub steps_taken : {s t : State I O} → Steps opts process s t → ℕ
  steps_taken none_taken = 0
  steps_taken (one_more run h) = suc (steps_taken run)

module _ {I O : Type 0} (opts : Options) (process : I → Option O) where
  Step-weight : {s t : State I O} → Step opts process s t → weight t < weight s
  Step-weight {s} (read_item i rest e f) = omega (arith, ap reader_weight e, ap length f)
  Step-weight {s} (acquire i e h) = omega (arith, ap reader_weight e)
  Step-weight {s} (send_item i e h) =
      omega (arith, ap reader_weight e, length-append s.input (i ∷ []))
  Step-weight {s} (count_read e) = omega (arith, ap reader_weight e)
  Step-weight {s} (close_input e f g) = omega (arith, ap open_weight g)
  Step-weight {s} (keep_item i rest o e h f) = omega (arith, ap length e)
  Step-weight {s} (drop_item i rest e h f) = omega (arith, ap length e)
  Step-weight {s} (release_dropped n e) = omega (arith, e)
  Step-weight {s} (put_item before after o e h) = omega (
    arith,
    ap length e,
    length-append before (o ∷ after),
    length-append before after,
    length-append s.output (o ∷ []),
  )
  Step-weight {s} (count_processed n e) = omega (arith, e)
  Step-weight {s} (collect o rest w e h) =
      omega (arith, ap length e, length-append s.buffer (o ∷ []))
  Step-weight {s} (write_full o rest w m h) = omega (arith, ap writer_weight w, ap length m)
  Step-weight {s} (write_rest o rest w a e f g k l m) =
      omega (arith, ap writer_weight w, ap length m)
  Step-weight {s} (count_written n w) = omega (arith, ap writer_weight w)
  Step-weight {s} (release_written n w) = omega (arith, ap writer_weight w)
  Step-weight {s} (end_release w) = omega (arith, ap writer_weight w)
  Step-weight {s} (finish w a e f g k l m d) = omega (arith, ap open_weight d)

  steps_weight :
      {s t : State I O} (run : Steps opts process s t)
      → steps_taken opts process run + weight t ≤ weight s
  steps_weight none_taken = omega arith
  steps_weight (one_more run h) = omega (arith, Step-weight h, steps_weight run)

-- Every run ends: in whatever order the goroutines go on, at most twelve steps per item and two more
-- are taken.
pub run_ends :
    {I O : Type 0} (opts : Options) (process : I → Option O) (items : List I) (s : State I O)
    (run : Steps opts process (start items) s)
    → steps_taken opts process run ≤ 12 * length items + 2
run_ends opts process items s run = omega (arith, steps_weight opts process run)
