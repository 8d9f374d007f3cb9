-- ===== src/Delivery/Due/Exclusive.antt =====
-- Two claims share no message.
use send_flow_backend.Prelude.{
  take, ℕ, String, ◌≡◌, refl, ap, ◌∙◌, subst, Bool, true, false, ◌&&◌, ◌||◌, not, List, [], ◌∷◌,
  map, All, Bool-cases, inl, inr, arith,
}
use send_flow_backend.Prelude.Text.{str_eq}
use send_flow_backend.Prelude.Keys.{All-take}
use send_flow_backend.Effect.{ok}
use send_flow_backend.Delivery.Status.{status_eq}
use send_flow_backend.Delivery.Message.{Message}
use send_flow_backend.Delivery.Store.{Db}
use send_flow_backend.Delivery.Due.Claim.{
  comes_first, insert_due, is_due, sorted_due, claimed, has_id_of, claim_rows, claim_due_messages,
  scheduled_by,
}

module _ (P : Message → Type 0) where
  insert_due-All : (m : Message) (ms : List Message) → P m → All P ms → All P (insert_due m ms)
  insert_due-All m [] h k = (h, tt)
  insert_due-All m (n ∷ ns) h k = elim (Bool-cases (comes_first m n)) [
    | inl e ↦ rw e (h, k)
    | inr e ↦ rw e (k.0, insert_due-All m ns h k.1)
  ]

  -- Of rows that have a property where they are due, the due ones have it.
  sorted_due-All :
      (due locked : Message → Bool) (rows : List Message)
      → All (λ r. due r ≡ true → P r) rows
      → All P (sorted_due due locked rows)
  sorted_due-All due locked [] h = tt
  sorted_due-All due locked (r ∷ rows) h = elim (Bool-cases (due r && not (locked r))) [
    | inl e ↦ rw e (insert_due-All r _ (h.0 (ground arith)) (sorted_due-All due locked rows h.1))
    | inr e ↦ rw e (sorted_due-All due locked rows h.1)
  ]

-- A row that was claimed is not due.
claimed_not_due :
    (workspace_id message_type : String) (now then' : ℕ) (row : Message)
    → is_due workspace_id message_type now (claimed then' row) ≡ true
    → ⊥
unfolding status_eq
claimed_not_due workspace_id message_type now then' row h =
    go (str_eq row.workspace_id workspace_id) (str_eq row.message_type message_type)
      (scheduled_by row.scheduled_at now) h
  where
    go : (a b c : Bool) → a && false && b && c ≡ true → ⊥
    go a b c h = ground arith

rows_left :
    (workspace_id message_type : String) (now then' : ℕ) (picked rows : List Message)
    → All
        (λ r. is_due workspace_id message_type now r ≡ true → has_id_of picked r ≡ false)
        (claim_rows then' picked rows)
rows_left workspace_id message_type now then' picked [] = tt
rows_left workspace_id message_type now then' picked (row ∷ rows) =
    elim (Bool-cases (has_id_of picked row)) [
      | inl e ↦ rw e (
        (λ h. absurd (claimed_not_due workspace_id message_type now then' row h)),
        rows_left workspace_id message_type now then' picked rows,
      )
      | inr e ↦ rw e ((λ h. e), rows_left workspace_id message_type now then' picked rows)
    ]

has_id_of-claimed :
    (now then' : ℕ) (ms : List Message) (row : Message)
    → has_id_of (map (claimed then') ms) (claimed now row) ≡ has_id_of ms row
has_id_of-claimed now then' [] row = refl
has_id_of-claimed now then' (m ∷ ms) row =
    ap (λ b. str_eq row.id m.id || b) (has_id_of-claimed now then' ms row)

claimed-All :
    (now then' : ℕ) (ms ns : List Message)
    → All (λ n. has_id_of ms n ≡ false) ns
    → All (λ n. has_id_of (map (claimed then') ms) n ≡ false) (map (claimed now) ns)
claimed-All now then' ms [] h = tt
claimed-All now then' ms (n ∷ ns) h =
    (has_id_of-claimed now then' ms n ∙ h.0, claimed-All now then' ms ns h.1)

-- No message is claimed twice: where one claim directly follows another, for whatever workspaces, types, limits
-- and times, no message that the second returns has the identifier of one that the first returned.
pub claim_due_messages_exclusive :
    (first_locked second_locked : Message → Bool) (first_workspace second_workspace : String)
    (first_type second_type : String) (first_limit second_limit first_now second_now : ℕ) (d : Db)
    (ms ns : List Message)
    → (claim_due_messages first_locked first_workspace first_type first_limit first_now d).0 ≡ ok ms
    → (claim_due_messages second_locked second_workspace second_type second_limit second_now
        (claim_due_messages first_locked first_workspace first_type first_limit first_now d).1).0
      ≡ ok ns
    → All (λ n. has_id_of ms n ≡ false) ns
unfolding claim_due_messages
claim_due_messages_exclusive locked1 locked2 w1 w2 t1 t2 l1 l2 now1 now2 d ms ns h k =
    let picked = take l1 (sorted_due (is_due w1 t1 now1) locked1 d.messages) in
    let rows = claim_rows now1 picked d.messages in
    let again = take l2 (sorted_due (is_due w2 t2 now2) locked2 rows) in
    let apart : All (λ n. has_id_of picked n ≡ false) again = All-take _ l2 _ (
      sorted_due-All _ (is_due w2 t2 now2) locked2 rows
        (rows_left w2 t2 now2 now1 picked d.messages)) in
    let same_ms : map (claimed now1) picked ≡ ms = cc in
    let same_ns : map (claimed now2) again ≡ ns = cc in
    subst (λ x. All (λ n. has_id_of x n ≡ false) ns) same_ms
      (subst (λ y. All (λ n. has_id_of (map (claimed now1) picked) n ≡ false) y) same_ns
        (claimed-All now2 now1 picked again apart))
