-- ===== src/Batching/Pipeline.antt =====
-- internal/platform/batching/pipeline.go: the goroutines of `Run`, as steps on their shared state, in
-- every order. The reader, the processor and the writer of the caller succeed, and nothing cancels.
use send_flow_backend.Prelude.{
  ℕ, suc, ◌+◌, ◌-◌, ◌≤◌, ◌<◌, ◌≡◌, Bool, true, false, List, [], ◌∷◌, ◌++◌, Option, none, some,
  length,
}
use send_flow_backend.Batching.Options.{Options}

-- Where `runReader` stands: before a read, with an item that needs a place in flight, with an item
-- that has one, or before it counts an item that it has sent.
pub data Reader (I : Type 0) : Type 0 where
  reading : Reader I
  waiting : I → Reader I
  sending : I → Reader I
  counting : Reader I

-- Where `runWriter` stands: before a receive or a write, before it counts a batch of that size that
-- it has written, or with so many places to give back.
pub data Writer : Type 0 where
  gathering : Writer
  counting_batch : ℕ → Writer
  releasing : ℕ → Writer

-- `source` is what the reader has yet to yield; `busy` the outputs that processors have at hand,
-- `dropped` is the number of processors that are to give back the place of an item they filtered
-- out, and `sent` that of those that have sent an output and are to count it. The
-- channels are `input` and `output`, `tokens` is the number in `inflight`. `closed` is the end of the
-- reader, and `done` that of the writer.
pub record State (I O : Type 0) : Type 0 where
  pub source : List I
  pub reader : Reader I
  pub input : List I
  pub busy : List O
  pub dropped : ℕ
  pub sent : ℕ
  pub output : List O
  pub buffer : List O
  pub writer : Writer
  pub tokens : ℕ
  pub written : List O
  pub closed : Bool
  pub done : Bool
  pub items_read : ℕ
  pub items_processed : ℕ
  pub items_written : ℕ

abbrev pub start : {I O : Type 0} → List I → State I O
start items = record {
  source = items;
  reader = reading;
  input = [];
  busy = [];
  dropped = 0;
  sent = 0;
  output = [];
  buffer = [];
  writer = gathering;
  tokens = 0;
  written = [];
  closed = false;
  done = false;
  items_read = 0;
  items_processed = 0;
  items_written = 0;
}

module _ {I O : Type 0} (opts : Options) (process : I → Option O) where
  -- One step of one goroutine. `process` is the caller's processor, `none` an item that it filters
  -- out.
  pub data Step (s : State I O) : State I O → Type 0 where
    read_item :
        (i : I) (rest : List I)
        → s.reader ≡ reading
        → s.source ≡ i ∷ rest
        → Step s (record s { reader = waiting i; source = rest })
    acquire :
        (i : I)
        → s.reader ≡ waiting i
        → s.tokens < opts.max_inflight
        → Step s (record s { reader = sending i; tokens = s.tokens + 1 })
    send_item :
        (i : I)
        → s.reader ≡ sending i
        → length s.input < opts.buffered_items_size
        → Step s (record s { reader = counting; input = s.input ++ i ∷ [] })
    count_read :
        s.reader ≡ counting → Step s (record s { reader = reading; items_read = s.items_read + 1 })
    close_input :
        s.reader ≡ reading → s.source ≡ [] → s.closed ≡ false → Step s (record s { closed = true })
    keep_item :
        (i : I) (rest : List I) (o : O)
        → s.input ≡ i ∷ rest
        → length s.busy + s.dropped + s.sent < opts.processor_concurrency
        → process i ≡ some o
        → Step s (record s { input = rest; busy = o ∷ s.busy })
    drop_item :
        (i : I) (rest : List I)
        → s.input ≡ i ∷ rest
        → length s.busy + s.dropped + s.sent < opts.processor_concurrency
        → process i ≡ none
        → Step s (record s { input = rest; dropped = s.dropped + 1 })
    release_dropped :
        (n : ℕ) → s.dropped ≡ suc n → Step s (record s { dropped = n; tokens = s.tokens - 1 })
    put_item :
        (before after : List O) (o : O)
        → s.busy ≡ before ++ o ∷ after
        → length s.output < opts.buffered_items_size
        → Step s
            (record s { busy = before ++ after; sent = s.sent + 1; output = s.output ++ o ∷ [] })
    count_processed :
        (n : ℕ)
        → s.sent ≡ suc n
        → Step s (record s { sent = n; items_processed = s.items_processed + 1 })
    collect :
        (o : O) (rest : List O)
        → s.writer ≡ gathering
        → s.output ≡ o ∷ rest
        → length s.buffer < opts.write_batch_size
        → Step s (record s { output = rest; buffer = s.buffer ++ o ∷ [] })
    write_full :
        (o : O) (rest : List O)
        → s.writer ≡ gathering
        → s.buffer ≡ o ∷ rest
        → opts.write_batch_size ≤ length s.buffer
        → Step s (record s {
          buffer = [];
          written = s.written ++ s.buffer;
          writer = counting_batch (length s.buffer);
        })
    -- The output channel is closed once the processors have drained the input and returned.
    write_rest :
        (o : O) (rest : List O)
        → s.writer ≡ gathering
        → s.closed ≡ true
        → s.input ≡ []
        → s.busy ≡ []
        → s.dropped ≡ 0
        → s.sent ≡ 0
        → s.output ≡ []
        → s.buffer ≡ o ∷ rest
        → Step s (record s {
          buffer = [];
          written = s.written ++ s.buffer;
          writer = counting_batch (length s.buffer);
        })
    count_written :
        (n : ℕ)
        → s.writer ≡ counting_batch n
        → Step s (record s { writer = releasing n; items_written = s.items_written + n })
    release_written :
        (n : ℕ)
        → s.writer ≡ releasing (suc n)
        → Step s (record s { writer = releasing n; tokens = s.tokens - 1 })
    end_release : s.writer ≡ releasing 0 → Step s (record s { writer = gathering })
    finish :
        s.writer ≡ gathering
        → s.closed ≡ true
        → s.input ≡ []
        → s.busy ≡ []
        → s.dropped ≡ 0
        → s.sent ≡ 0
        → s.output ≡ []
        → s.buffer ≡ []
        → s.done ≡ false
        → Step s (record s { done = true })

  -- A run: steps one after the other.
  pub data Steps (s : State I O) : State I O → Type 0 where
    none_taken : Steps s s
    one_more : {t u : State I O} → Steps s t → Step t u → Steps s u
