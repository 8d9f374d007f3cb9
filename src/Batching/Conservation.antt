-- ===== src/Batching/Conservation.antt =====
-- What the pipeline writes, and how long it runs.
use send_flow_backend.Prelude.{
  ℕ, ◌+◌, ◌≡◌, refl, sym, ap, ◌∙◌, Bool, true, List, [], ◌∷◌, ◌++◌, Option, none, some, arith,
  if◌then◌else◌,
}
use send_flow_backend.Batching.Options.{Options}
use send_flow_backend.Batching.Pipeline.{
  Reader, reading, waiting, sending, counting, State, start, Step, read_item, acquire, send_item,
  count_read, close_input, keep_item, drop_item, release_dropped, put_item, count_processed,
  collect, write_full, write_rest, count_written, release_written, end_release, finish, Steps,
  none_taken, one_more,
}

module _ {A : Type 0} (test : A → Bool) where
  abbrev pub one : A → ℕ
  one a = if test a then 1 else 0

  -- How many elements pass the test.
  abbrev pub count : List A → ℕ
  count [] = 0
  count (a ∷ as') = one a + count as'

  count-append : (xs ys : List A) → count (xs ++ ys) ≡ count xs + count ys
  count-append [] ys = omega arith
  count-append (x ∷ xs) ys = omega (arith, count-append xs ys)

module _ {I O : Type 0} (process : I → Option O) (test : O → Bool) where
  abbrev pub count_kept : Option O → ℕ
  count_kept none = 0
  count_kept (some o) = one test o

  -- How many items are kept by the processor, with outputs that pass the test.
  abbrev pub count_outputs : List I → ℕ
  count_outputs [] = 0
  count_outputs (i ∷ rest) = count_kept (process i) + count_outputs rest

  count_outputs-append :
      (xs ys : List I) → count_outputs (xs ++ ys) ≡ count_outputs xs + count_outputs ys
  count_outputs-append [] ys = omega arith
  count_outputs-append (x ∷ xs) ys = omega (arith, count_outputs-append xs ys)

  abbrev count_reader : Reader I → ℕ
  count_reader reading = 0
  count_reader (waiting i) = count_kept (process i)
  count_reader (sending i) = count_kept (process i)
  count_reader counting = 0

  -- The outputs written, and those still to be written.
  abbrev tally : State I O → ℕ
  tally s =
      count test s.written
      + count test s.buffer
      + count test s.output
      + count test s.busy
      + count_outputs s.input
      + count_reader s.reader
      + count_outputs s.source

  module _ (opts : Options) where
    Step-tally : {s t : State I O} → Step opts process s t → tally t ≡ tally s
    Step-tally {s} (read_item i rest e f) = omega (arith, ap count_reader e, ap count_outputs f)
    Step-tally {s} (acquire i e h) = omega (arith, ap count_reader e)
    Step-tally {s} (send_item i e h) =
        omega (arith, ap count_reader e, count_outputs-append s.input (i ∷ []))
    Step-tally {s} (count_read e) = omega (arith, ap count_reader e)
    Step-tally {s} (close_input e f g) = refl
    Step-tally {s} (keep_item i rest o e h f) = omega (arith, ap count_outputs e, ap count_kept f)
    Step-tally {s} (drop_item i rest e h f) = omega (arith, ap count_outputs e, ap count_kept f)
    Step-tally {s} (release_dropped n e) = refl
    Step-tally {s} (put_item before after o e h) = omega (
      arith,
      ap (count test) e,
      count-append test before (o ∷ after),
      count-append test before after,
      count-append test s.output (o ∷ []),
    )
    Step-tally {s} (count_processed n e) = refl
    Step-tally {s} (collect o rest w e h) =
        omega (arith, ap (count test) e, count-append test s.buffer (o ∷ []))
    Step-tally {s} (write_full o rest w m h) = omega (arith, count-append test s.written s.buffer)
    Step-tally {s} (write_rest o rest w a e f g k l m) =
        omega (arith, count-append test s.written s.buffer)
    Step-tally {s} (count_written n w) = refl
    Step-tally {s} (release_written n w) = refl
    Step-tally {s} (end_release w) = refl
    Step-tally {s} (finish w a e f g k l m d) = refl

    steps_tally : {s t : State I O} → Steps opts process s t → tally t ≡ tally s
    steps_tally none_taken = refl
    steps_tally (one_more run h) = Step-tally h ∙ steps_tally run

nonempty : {A : Type 0} {x : A} {xs : List A} → [] ≡ x ∷ xs → ⊥
nonempty h = cc

not_in_middle : {A : Type 0} (x : A) (before after : List A) → [] ≡ before ++ x ∷ after → ⊥
not_in_middle x [] after h = nonempty h
not_in_middle x (y ∷ before) after h = nonempty h

moving : {I : Type 0} {i : I} → reading ≡ waiting i → ⊥
moving h = cc

sent : {I : Type 0} {i : I} → reading ≡ sending i → ⊥
sent h = cc

-- Where nothing is left to do.
pub record IsSettled {I O : Type 0} (s : State I O) : Type 0 where
  pub closed_source : s.closed ≡ true → s.source ≡ []
  pub closed_reader : s.closed ≡ true → s.reader ≡ reading
  pub done_closed : s.done ≡ true → s.closed ≡ true
  pub done_input : s.done ≡ true → s.input ≡ []
  pub done_busy : s.done ≡ true → s.busy ≡ []
  pub done_output : s.done ≡ true → s.output ≡ []
  pub done_buffer : s.done ≡ true → s.buffer ≡ []

module _ {I O : Type 0} (opts : Options) (process : I → Option O) where
  start-IsSettled : (items : List I) → IsSettled {I = I} {O = O} (start items)
  start-IsSettled items = record {
    closed_source = λ h. cc;
    closed_reader = λ h. cc;
    done_closed = λ h. cc;
    done_input = λ h. refl;
    done_busy = λ h. refl;
    done_output = λ h. refl;
    done_buffer = λ h. refl;
  }

  Step-IsSettled : {s t : State I O} → Step opts process s t → IsSettled s → IsSettled t
  Step-IsSettled {s} (read_item i rest e f) b = record {
    closed_source = λ h. absurd (nonempty (sym (b.closed_source h) ∙ f));
    closed_reader = λ h. absurd (nonempty (sym (b.closed_source h) ∙ f));
    done_closed = b.done_closed;
    done_input = b.done_input;
    done_busy = b.done_busy;
    done_output = b.done_output;
    done_buffer = b.done_buffer;
  }
  Step-IsSettled {s} (acquire i e h) b = record {
    closed_source = b.closed_source;
    closed_reader = λ c. absurd (moving (sym (b.closed_reader c) ∙ e));
    done_closed = b.done_closed;
    done_input = b.done_input;
    done_busy = b.done_busy;
    done_output = b.done_output;
    done_buffer = b.done_buffer;
  }
  Step-IsSettled {s} (send_item i e h) b = record {
    closed_source = b.closed_source;
    closed_reader = λ c. absurd (sent (sym (b.closed_reader c) ∙ e));
    done_closed = b.done_closed;
    done_input = λ d. absurd (sent (sym (b.closed_reader (b.done_closed d)) ∙ e));
    done_busy = b.done_busy;
    done_output = b.done_output;
    done_buffer = b.done_buffer;
  }
  Step-IsSettled {s} (count_read e) b = record {
    closed_source = b.closed_source;
    closed_reader = λ c. refl;
    done_closed = b.done_closed;
    done_input = b.done_input;
    done_busy = b.done_busy;
    done_output = b.done_output;
    done_buffer = b.done_buffer;
  }
  Step-IsSettled {s} (close_input e f g) b = record {
    closed_source = λ c. f;
    closed_reader = λ c. e;
    done_closed = λ d. refl;
    done_input = b.done_input;
    done_busy = b.done_busy;
    done_output = b.done_output;
    done_buffer = b.done_buffer;
  }
  Step-IsSettled {s} (keep_item i rest o e h f) b = record {
    closed_source = b.closed_source;
    closed_reader = b.closed_reader;
    done_closed = b.done_closed;
    done_input = λ d. absurd (nonempty (sym (b.done_input d) ∙ e));
    done_busy = λ d. absurd (nonempty (sym (b.done_input d) ∙ e));
    done_output = b.done_output;
    done_buffer = b.done_buffer;
  }
  Step-IsSettled {s} (drop_item i rest e h f) b = record {
    closed_source = b.closed_source;
    closed_reader = b.closed_reader;
    done_closed = b.done_closed;
    done_input = λ d. absurd (nonempty (sym (b.done_input d) ∙ e));
    done_busy = b.done_busy;
    done_output = b.done_output;
    done_buffer = b.done_buffer;
  }
  Step-IsSettled {s} (release_dropped n e) b = record {
    closed_source = b.closed_source;
    closed_reader = b.closed_reader;
    done_closed = b.done_closed;
    done_input = b.done_input;
    done_busy = b.done_busy;
    done_output = b.done_output;
    done_buffer = b.done_buffer;
  }
  Step-IsSettled {s} (put_item before after o e h) b = record {
    closed_source = b.closed_source;
    closed_reader = b.closed_reader;
    done_closed = b.done_closed;
    done_input = b.done_input;
    done_busy = λ d. absurd (not_in_middle o before after (sym (b.done_busy d) ∙ e));
    done_output = λ d. absurd (not_in_middle o before after (sym (b.done_busy d) ∙ e));
    done_buffer = b.done_buffer;
  }
  Step-IsSettled {s} (count_processed n e) b = record {
    closed_source = b.closed_source;
    closed_reader = b.closed_reader;
    done_closed = b.done_closed;
    done_input = b.done_input;
    done_busy = b.done_busy;
    done_output = b.done_output;
    done_buffer = b.done_buffer;
  }
  Step-IsSettled {s} (collect o rest w e h) b = record {
    closed_source = b.closed_source;
    closed_reader = b.closed_reader;
    done_closed = b.done_closed;
    done_input = b.done_input;
    done_busy = b.done_busy;
    done_output = λ d. absurd (nonempty (sym (b.done_output d) ∙ e));
    done_buffer = λ d. absurd (nonempty (sym (b.done_output d) ∙ e));
  }
  Step-IsSettled {s} (write_full o rest w m h) b = record {
    closed_source = b.closed_source;
    closed_reader = b.closed_reader;
    done_closed = b.done_closed;
    done_input = b.done_input;
    done_busy = b.done_busy;
    done_output = b.done_output;
    done_buffer = λ d. refl;
  }
  Step-IsSettled {s} (write_rest o rest w a e f g k l m) b = record {
    closed_source = b.closed_source;
    closed_reader = b.closed_reader;
    done_closed = b.done_closed;
    done_input = b.done_input;
    done_busy = b.done_busy;
    done_output = b.done_output;
    done_buffer = λ d. refl;
  }
  Step-IsSettled {s} (count_written n w) b = record {
    closed_source = b.closed_source;
    closed_reader = b.closed_reader;
    done_closed = b.done_closed;
    done_input = b.done_input;
    done_busy = b.done_busy;
    done_output = b.done_output;
    done_buffer = b.done_buffer;
  }
  Step-IsSettled {s} (release_written n w) b = record {
    closed_source = b.closed_source;
    closed_reader = b.closed_reader;
    done_closed = b.done_closed;
    done_input = b.done_input;
    done_busy = b.done_busy;
    done_output = b.done_output;
    done_buffer = b.done_buffer;
  }
  Step-IsSettled {s} (end_release w) b = record {
    closed_source = b.closed_source;
    closed_reader = b.closed_reader;
    done_closed = b.done_closed;
    done_input = b.done_input;
    done_busy = b.done_busy;
    done_output = b.done_output;
    done_buffer = b.done_buffer;
  }
  Step-IsSettled {s} (finish w a e f g k l m d) b = record {
    closed_source = b.closed_source;
    closed_reader = b.closed_reader;
    done_closed = λ _. a;
    done_input = λ _. e;
    done_busy = λ _. f;
    done_output = λ _. l;
    done_buffer = λ _. m;
  }

  Steps-IsSettled : {s t : State I O} → Steps opts process s t → IsSettled s → IsSettled t
  Steps-IsSettled none_taken b = b
  Steps-IsSettled (one_more run h) b = Step-IsSettled h (Steps-IsSettled run b)

-- Once the writer has returned, it has written every output that the processor kept, exactly as often
-- as the items give it, and nothing else, in whatever order the goroutines went: for every test, as
-- many of the written outputs pass it as of the outputs of the items.
pub run_writes_all :
    {I O : Type 0} (opts : Options) (process : I → Option O) (items : List I) (s : State I O)
    → Steps opts process (start items) s
    → s.done ≡ true
    → (test : O → Bool) → count test s.written ≡ count_outputs process test items
run_writes_all opts process items s run d test =
    let b = Steps-IsSettled opts process run (start-IsSettled opts process items) in
    let c = b.done_closed d in
    omega (
      arith,
      steps_tally process test opts run,
      ap (count test) (b.done_buffer d),
      ap (count test) (b.done_output d),
      ap (count test) (b.done_busy d),
      ap (count_outputs process test) (b.done_input d),
      ap (count_reader process test) (b.closed_reader c),
      ap (count_outputs process test) (b.closed_source c),
    )
