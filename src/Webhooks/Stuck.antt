-- ===== src/Webhooks/Stuck.antt =====
-- A delivery that a worker took, and whose processing then failed (process.go, `Execute`).
use send_flow_backend.Prelude.{◌≡◌}
use send_flow_backend.Effect.{Result, ok, err}
use send_flow_backend.Effect.Leaves.{Leaves}
use send_flow_backend.Webhooks.Store.{Db}
use send_flow_backend.Webhooks.Valid.{Valid}

-- After an error the deliveries are as they were.
abbrev Undone : {A : Type 0} → Db → Result A → Db → Type 0
Undone d (ok a) e = Unit
Undone d (err x) e = e.deliveries ≡ d.deliveries
