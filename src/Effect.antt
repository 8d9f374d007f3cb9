-- ===== src/Effect.antt =====
-- Handlers as the modules under internal/modules write them: a chain of calls to ports, each of
-- which may fail, with transactions (internal/platform/transaction).
-- The database is a value of the component's own type, `Db`. The environment decides, call by call,
-- which call fails and with what error; it supplies identifiers and the clock's readings. A call
-- has an index, its place in the run.
pub mod Rules
pub mod Outcomes
pub mod Leaves
use send_flow_backend.Prelude.{
  ℕ, suc, String, ◌≡◌, Bool, true, false, List, [], ◌∷◌, Option, none, some, if◌then◌else◌, ◌||◌,
}
use send_flow_backend.Prelude.Text.{str_eq, joined}

-- A Go error: a sentinel of the program, told by its text, any other failure, an error that is
-- marked as one not to be retried, one that `fmt.Errorf` put a text and `%w` around, or one that it
-- made of two with `%w: %w`.
pub data Error : Type 0 where
  sentinel : String → Error
  failure : String → Error
  non_retryable : Error → Error
  wrapped : String → Error → Error
  explained : Error → Error → Error

-- `errors.Is`.
unfoldable pub is_error : Error → String → Bool
is_error (sentinel s) t = str_eq s t
is_error (failure s) t = false
is_error (non_retryable e) t = is_error e t
is_error (wrapped w e) t = is_error e t
is_error (explained a b) t = is_error a t || is_error b t

-- `Error()`.
unfoldable pub error_text : Error → String
error_text (sentinel s) = s
error_text (failure s) = s
error_text (non_retryable e) = error_text e
error_text (wrapped w e) = joined (joined w ": ") (error_text e)
error_text (explained a b) = joined (joined (error_text a) ": ") (error_text b)

pub data Result {ℓ} (A : Type ℓ) : Type ℓ where
  ok : A → Result A
  err : Error → Result A

pub record Env : Type 0 where
  -- The failure of the call of that index, if it fails before it does anything.
  pub fault : ℕ → Option Error
  -- Whether a commit that answers an error, as the call of that index, was done all the same: its
  -- answer may be what was lost.
  pub kept : ℕ → Bool
  pub new_id : ℕ → Result String
  pub now : ℕ → ℕ

pub record Sys (Db : Type 0) : Type 0 where
  pub db : Db
  pub calls : ℕ

abbrev pub tick : {Db : Type 0} → Sys Db → Sys Db
tick s = record s { calls = suc s.calls }

abbrev pub M : Type 0 → Type 0 → Type 0
M Db A = Sys Db → Result A × Sys Db

abbrev pub and_then : {Db A B : Type 0} → Result A × Sys Db → (A → M Db B) → Result B × Sys Db
and_then (ok a, s) f = f a s
and_then (err e, s) f = (err e, s)

unfoldable pub return : {Db A : Type 0} → A → M Db A
return a s = (ok a, s)

unfoldable pub throw : {Db A : Type 0} → Error → M Db A
throw e s = (err e, s)

unfoldable pub lift : {Db A : Type 0} → Result A → M Db A
lift r s = (r, s)

-- The result of a call whose error the caller looks at, or logs and drops.
unfoldable pub attempt : {Db A : Type 0} → M Db A → M Db (Result A)
attempt m s = (ok (m s).0, (m s).1)

abbrev pub finish_call : {Db A : Type 0} → Sys Db → Result A × Db → Result A × Sys Db
finish_call s (r, d) = (r, record { db = d; calls = suc s.calls })

-- An error that the caller logs and drops.
unfoldable pub ignore_error : {Db A : Type 0} → M Db A → M Db (Unit {0})
ignore_error m s = (ok tt, (m s).1)

-- A call of a port.
abbrev pub answer : {Db A : Type 0} → Option Error → (Db → Result A × Db) → M Db A
answer (some e) op s = (err e, tick s)
answer none op s = finish_call s (op s.db)

unfoldable pub call : {Db A : Type 0} → Env → (Db → Result A × Db) → M Db A
call env op s = answer (env.fault s.calls) op s

unfoldable pub id_gen : {Db : Type 0} → Env → M Db String
id_gen env s = (env.new_id s.calls, tick s)

unfoldable pub clock : {Db : Type 0} → Env → M Db ℕ
clock env s = (ok (env.now s.calls), tick s)

-- The end of a transaction, with the fault of its commit, whether a commit that fails was done all
-- the same, and what is left of the body's database if it was not.
abbrev pub commit :
    {Db A : Type 0} → Option Error → Bool → (Db → Db) → A → Sys Db → Result A × Sys Db
commit (some e) true rolled_back a s = (err e, tick s)
commit (some e) false rolled_back a s =
    (err e, record { db = rolled_back s.db; calls = suc s.calls })
commit none kept rolled_back a s = (ok a, tick s)

abbrev pub end_tx : {Db A : Type 0} → Env → (Db → Db) → Result A × Sys Db → Result A × Sys Db
end_tx env rolled_back (err e, s) = (err e, record s { db = rolled_back s.db })
end_tx env rolled_back (ok a, s) = commit (env.fault s.calls) (env.kept s.calls) rolled_back a s

abbrev pub begin_tx : {Db A : Type 0} → Option Error → Env → (Db → Db) → M Db A → M Db A
begin_tx (some e) env rolled_back body s = (err e, tick s)
begin_tx none env rolled_back body s = end_tx env rolled_back (body (tick s))

-- `WithinTx` around a body that also writes past the transaction: `rolled_back` makes what a rollback
-- leaves from the database at the transaction's start and the one that the body left. If the body
-- fails, what it wrote in the transaction is undone; if only the commit does, it is undone unless the
-- commit was done all the same.
unfoldable pub within_tx_leaving : {Db A : Type 0} → (Db → Db → Db) → Env → M Db A → M Db A
within_tx_leaving rolled_back env body s =
    begin_tx (env.fault s.calls) env (rolled_back s.db) body s

-- What a rollback leaves where all of the body's writes are in the transaction.
abbrev pub all_undone : {Db : Type 0} → Db → Db → Db
all_undone before after = before

-- `WithinTx` around a body all of whose writes are in the transaction.
unfoldable pub within_tx : {Db A : Type 0} → Env → M Db A → M Db A
unfolding within_tx_leaving
within_tx env body s = within_tx_leaving all_undone env body s

infixl 5 ◌>>=◌ ◌>>◌
unfoldable pub ◌>>◌ : {Db B : Type 0} → M Db (Unit {0}) → M Db B → M Db B
◌>>◌ m k s = and_then (m s) (λ _. k)

-- To unfold `>>=` is to unfold all that chains are made of.
unfoldable pub ◌>>=◌ : {Db A B : Type 0} → M Db A → (A → M Db B) → M Db B
unfolding ◌>>◌ return throw lift attempt ignore_error call id_gen clock within_tx_leaving within_tx
◌>>=◌ m f s = and_then (m s) f
