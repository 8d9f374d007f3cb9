-- ===== src/Delivery/Insert/Nulls.antt =====
-- `CreateMany` (delivery/infrastructure/postgres/repository.go) binds the time of the bounce to the
-- column of the message's type.
use send_flow_backend.Prelude.{
  String, ◌≡◌, refl, subst, inl, inr, true, List, ◌∷◌, none, Bool-cases, any,
}
use send_flow_backend.Prelude.Text.{str_eq}
use send_flow_backend.Effect.{Error, Result, ok, err}
use send_flow_backend.Delivery.Message.{Message}
use send_flow_backend.Delivery.Store.{Db}
use send_flow_backend.Delivery.Insert.{
  Server, MessageRow, message_row, message_args, message_rows, encoded_row, and_row, send_rows,
  create_many, lacks_value,
}

-- The server refuses rows that lack a value where a column must have one, and stores nothing then.
abbrev pub RefusesNulls : Server → Type 0
RefusesNulls server =
    (rows : List MessageRow) (d : Db)
    → any lacks_value rows ≡ true
    → (e : Error) × (server.insert rows d ≡ (err e, d))

untyped_row :
    (m : Message) (snapshot headers : String)
    → m.bounced_at ≡ none
    → lacks_value (message_row m snapshot headers) ≡ true
unfolding message_row message_args
untyped_row m snapshot headers h = elim (Bool-cases (str_eq m.sender_domain_id "")) [
  | inl e ↦ rw e
  | inr e ↦ rw (e, h)
]

ok_inj : {A : Type 0} {a b : A} → ok a ≡ ok b → a ≡ b
ok_inj h = cc

module _ (server : Server) (refuses : RefusesNulls server) where
  refused_rows :
      (m : Message) (row : Result MessageRow) (rest : Result (List MessageRow)) (d : Db)
      → ((r : MessageRow) → row ≡ ok r → lacks_value r ≡ true)
      → (e : Error) × (send_rows server (and_row row rest) d ≡ (err e, d))
  refused_rows m (err e) rest d h = (e, refl)
  refused_rows m (ok r) (err e) d h = (e, refl)
  refused_rows m (ok r) (ok rows) d h = refuses (r ∷ rows) d (rw (h r refl))

  encoded_untyped :
      (m : Message) (snapshot headers : Result String)
      → m.bounced_at ≡ none
      → (r : MessageRow) → encoded_row m snapshot headers ≡ ok r
      → lacks_value r ≡ true
  encoded_untyped m (err e) headers h r k = absurd cc
  encoded_untyped m (ok s) (err e) h r k = absurd cc
  encoded_untyped m (ok s) (ok t) h r k =
      subst (λ x. lacks_value x ≡ true) (ok_inj k) (untyped_row m s t h)

  -- `CreateMany` fails and stores nothing for every list that begins with a message that has not
  -- bounced, as a message has that is new: the row lacks its type, which may not be null.
  pub create_many_refuses :
      (m : Message) (rest : List Message) (d : Db)
      → m.bounced_at ≡ none
      → (e : Error) × (create_many server (m ∷ rest) d ≡ (err e, d))
  unfolding create_many
  create_many_refuses m rest d h =
      refused_rows m
        (encoded_row m (server.encode_snapshot m.recipient_snapshot)
          (server.encode_headers m.headers))
        (message_rows server rest) d (encoded_untyped m _ _ h)
