-- ===== src/Metrics/Tests.antt =====
-- The theorems on metrics at concrete inputs, with a registry that keeps the list of counted events.
use korder.Prelude.{ℕ, ◌≡◌, refl, ◌+◌, some, List, [], ◌∷◌, ◌&&◌, length, countb, ◌==◌, ==_iff}
use korder.Prelude.Int.{pos}
use korder.Prelude.Text.{Text, codes, text_eq}
use korder.Api.Meta.{Key}
use korder.Api.Order.{Order, RefreshPolicy}
use korder.Client.Sample.{sample_server, order_with}
use korder.OrderController.Reconcile as order
use korder.TicketController.Reconcile as ticket
use korder.QuotaController.Reconcile as quota
use korder.Metrics.Prometheus.{Prometheus, IsDocumented, texts_eq}
use korder.Metrics.Requests.{Request, perform_all, Event, tells}
use korder.Metrics.Counts.{shown, perform_all-shown}
use korder.Metrics.Timed.{
  order_reconcile, ticket_reconcile, quota_reconcile, Succeeds, reconcile-Succeeds,
}
use korder.Metrics.Accounts.{Accounts, create_all_Accounts}

abbrev counting : Prometheus
counting = record {
  Store = List (Text × List Text);
  labelled = λ v vs. length vs == length v.labels;
  inc = λ v vs s. (v.name, vs) ∷ s;
  set = λ v vs x s. s;
  observe = λ v vs x s. (v.name, vs) ∷ s;
  total = λ s name ws. countb (λ e. text_eq e.0 name && texts_eq ws e.1) s;
  seconds = λ d. codes "1";
}

counting-IsDocumented : IsDocumented counting
counting-IsDocumented = record {
  labelled_count = λ v vs e. (==_iff _ _).1 e;
  total-inc = λ v vs s name ws. refl;
  total-observe = λ v vs x s name ws. refl;
  total-set = λ v vs x s name ws other. refl;
}

abbrev two_requests : List Request
two_requests =
    Request.ticket_created (codes "prod") (codes "Pending")
    ∷ Request.reserved (codes "prod") (codes "cpu") (codes "cores") (codes "2")
    ∷ []

abbrev key : Key
key = record { namespace = codes "prod"; name = codes "web" }

abbrev three : Order
three = order_with RefreshPolicy.always (some (pos 3))

perform_all-shown_example :
    (s : List (Text × List Text)) × (perform_all counting two_requests [] ≡ some s)
    × ((e : Event)
        → shown counting counting-IsDocumented s e
          ≡ shown counting counting-IsDocumented [] e + countb (tells e) two_requests)
perform_all-shown_example = perform_all-shown counting counting-IsDocumented two_requests []

reconcile-Succeeds_example :
    Succeeds counting sample_server
      (codes "order")
      (order.reconcile sample_server key)
      []
      []
      (order_reconcile counting sample_server key [] [])
    × Succeeds counting sample_server
        (codes "ticket")
        (ticket.reconcile sample_server 3 key)
        []
        []
        (ticket_reconcile counting sample_server 3 key [] [])
    × Succeeds counting sample_server
        (codes "quota")
        (quota.reconcile sample_server key)
        []
        []
        (quota_reconcile counting sample_server key [] [])
reconcile-Succeeds_example =
    reconcile-Succeeds counting counting-IsDocumented sample_server 3 key [] []

create_all_Accounts_example :
    (n : ℕ) × (m : ℕ) × Accounts counting sample_server three 2 (pos 0) [] [] n m
create_all_Accounts_example =
    create_all_Accounts counting counting-IsDocumented sample_server three 2 (pos 0) [] []
