-- ===== src/Webhooks/Handlers.antt =====
-- The calls of the handlers of app/delivery that leave the stored deliveries as they are.
use send_flow_backend.Prelude.{String, ◌≡◌, refl, Option, none, some}
use send_flow_backend.Effect.{Error, Result, ok, err, call}
use send_flow_backend.Effect.Rules.{
  Keeps, Keeps-return, Keeps-throw, Keeps-lift, Keeps-if, Keeps-bind, Keeps-attempt, Keeps-call,
  Keeps-id_gen, Keeps-clock,
}
use send_flow_backend.Events.{OutboxEvent}
use send_flow_backend.Webhooks.{WebhookDeliveryAttempt}
use send_flow_backend.Webhooks.Store.{
  Db, shown, DeliveryHttpRequest, find_delivery, find_config, create_attempt, attempted, save,
}
use send_flow_backend.Webhooks.Deliver.{WebhookPorts, DeliverCommand, post, deliver}
use send_flow_backend.Webhooks.Process.{announce, wrap}
use send_flow_backend.Webhooks.Valid.{undelivered}

module _ (p : WebhookPorts) where
  save-Keeps : (e : OutboxEvent) → Keeps undelivered (call p.env (save e))
  unfolding save
  save-Keeps e = Keeps-call undelivered p.env (save e) (λ d. refl)

  pub announce-Keeps : (event : String → OutboxEvent) → Keeps undelivered (announce p event)
  unfolding announce
  announce-Keeps event =
      Keeps-if undelivered p.uses_outbox
        (Keeps-bind undelivered (Keeps-id_gen undelivered p.env) λ id. save-Keeps (event id))
        (Keeps-return undelivered tt)

  attempted-deliveries :
      (o : Option Error) (a : WebhookDeliveryAttempt) (d : Db)
      → (attempted o a d).1.deliveries ≡ d.deliveries
  attempted-deliveries none a d = refl
  attempted-deliveries (some e) a d = refl

  pub create_attempt-Keeps :
      (a : WebhookDeliveryAttempt)
      → Keeps undelivered (call p.env (create_attempt p.refuses_attempt a))
  unfolding create_attempt
  create_attempt-Keeps a =
      Keeps-call undelivered p.env (create_attempt p.refuses_attempt a)
        λ d. attempted-deliveries (p.refuses_attempt a d.attempts) a d

  post-Keeps : (r : DeliveryHttpRequest) → Keeps undelivered (call p.env (post p.answers r))
  unfolding post
  post-Keeps r = Keeps-call undelivered p.env (post p.answers r) (λ d. refl)

  pub deliver-Keeps : (cmd : DeliverCommand) → Keeps undelivered (deliver p cmd)
  unfolding deliver
  deliver-Keeps cmd = Keeps-bind undelivered (Keeps-clock undelivered p.env) λ now.
      Keeps-bind undelivered (Keeps-lift undelivered _) λ body.
        Keeps-bind undelivered (Keeps-attempt undelivered (post-Keeps _)) λ r.
          Keeps-bind undelivered (Keeps-id_gen undelivered p.env) λ id. Keeps-return undelivered _

  pub find_config-Keeps :
      (w id : String) → Keeps undelivered (call p.env (shown p.read_pool (find_config w id)))
  find_config-Keeps w id = Keeps-call undelivered p.env _ λ d. refl

  pub find_delivery-Keeps :
      (w id : String) → Keeps undelivered (call p.env (shown p.read_pool (find_delivery w id)))
  find_delivery-Keeps w id = Keeps-call undelivered p.env _ λ d. refl

  pub wrap-Keeps : {A : Type 0} (w : String) (r : Result A) → Keeps undelivered (wrap w r)
  wrap-Keeps w (ok a) = Keeps-return undelivered a
  wrap-Keeps w (err e) = Keeps-throw undelivered _
