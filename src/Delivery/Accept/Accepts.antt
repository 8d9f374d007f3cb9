-- ===== src/Delivery/Accept/Accepts.antt =====
-- A request that fails (delivery/app/send/accept.go) leaves nothing.
use send_flow_backend.Prelude.{◌≡◌, Bool, true, false, if◌then◌else◌}
use send_flow_backend.Effect.{Error, Result, ok, err, Sys, M, throw}
use send_flow_backend.Effect.Rules.{err_answer, CommitsTold}
use send_flow_backend.Delivery.Store.{Db}
use send_flow_backend.Delivery.Accept.Data.{Input, Accepted, AcceptPorts}
use send_flow_backend.Delivery.Accept.Write.{Draft}
use send_flow_backend.Delivery.Accept.Handler.{execute}
use send_flow_backend.Delivery.Accept.Settled.{Record}
use send_flow_backend.Delivery.Accept.Whole.{Undone, Ended, execute-Leaves}

-- Nothing is told about an acceptance.
abbrev anything : (p : AcceptPorts) → Draft → Record p
anything p draft = record {
  Rel = λ d a e. Unit;
  before = λ a b x c h r. tt;
  after = λ a x b c h r. tt;
}

-- Where a commit that answers an error has not been done: a request that `Execute` answers with an error
-- has changed no table, and the units that it consumed, if any, have been asked back: neither a
-- request nor a message, an event or an attachment is left.
pub execute_undoes :
    (p : AcceptPorts) (raw : Input) (s : Sys Db) {e : Error}
    → CommitsTold p.env
    → (execute p raw s).0 ≡ err e
    → Undone s.db (execute p raw s).1.db
execute_undoes p raw s {e} told = go (execute p raw s).0 (
    (execute-Leaves p raw Unit (anything p) (λ draft id manifests s a t h. tt)
        (λ w k c l n s a t h. tt) (λ w k c l s a t h. tt)).leaves
      s)
  where
    go :
        (r : Result Accepted)
        → Ended p raw Unit (anything p) s.db r (execute p raw s).1.db
        → r ≡ err e
        → Undone s.db (execute p raw s).1.db
    go (err x) h k = h told
    go (ok a) h k = absurd cc

pub either_of :
    {A : Type 0} {P : Type 0} (b : Bool) (m n : M Db A) (s : Sys Db) (r : Result A × Sys Db)
    → (m s ≡ r → P)
    → (n s ≡ r → P)
    → (if b then m else n) s ≡ r
    → P
either_of true m n s r f g h = f h
either_of false m n s r f g h = g h

pub thrown : {A : Type 0} {a : A} {t : Sys Db} (e : Error) (s : Sys Db) → throw e s ≡ (ok a, t) → ⊥
unfolding throw
thrown e s h = err_answer h
