-- ===== src/Metrics/Accounts.antt =====
-- What the metrics show after the loop that creates the tickets of an order
-- (internal/controller/order_controller.go, internal/metrics/metrics.go).
use korder.Prelude.{
  ℕ, zero, suc, ◌+◌, ◌<◌, ◌≤◌, ◌≡◌, refl, ap, ◌⊎◌, inl, inr, Option, none, some, ◌∷◌, arith, length,
}
use korder.Prelude.Int.{ℤ, pos, ◌+ℤ◌, wrap32}
use korder.Api.Order.{Order}
use korder.Client.{Cluster, Trace, Error, Call}
use korder.OrderController.Tickets.{create_ticket, create_tickets}
use korder.Metrics.Prometheus.{Prometheus, IsDocumented}
use korder.Metrics.Created.{create_reported, create_all_reported}
use korder.Metrics.Ways.{Grows, create_reported_cases}

module _ (p : Prometheus) (env : Cluster) (order : Order) where
  -- A run of the loop, of which the reports show n tickets and m failures.
  pub record Accounts (rounds : ℕ) (index : ℤ) (tr : Trace) (store : p.Store) (n m : ℕ)
      : Type 0 where
    pub same : create_tickets env order rounds index tr ≡ (
      some (create_all_reported p env order rounds index tr store).error,
      (create_all_reported p env order rounds index tr store).calls,
    )
    pub grows :
        Grows p order store (create_all_reported p env order rounds index tr store).store n m
    pub adds_up :
        length (create_all_reported p env order rounds index tr store).calls ≡ length tr + n + m
    pub ends :
        (((create_all_reported p env order rounds index tr store).error ≡ none)
          × (n ≡ rounds)
          × (m ≡ 0))
        ⊎ ((e : Error) × ((create_all_reported p env order rounds index tr store).error ≡ some e)
            × (n < rounds)
            × (m ≤ 1))

  -- The loop after a call of createTicket.
  abbrev go_on : ℕ → ℤ → Option (Option Error) × Trace → Option (Option Error) × Trace
  go_on rounds index (none, tr) = (none, tr)
  go_on rounds index (some (some e), tr) = (some (some e), tr)
  go_on rounds index (some none, tr) = create_tickets env order rounds (wrap32 (index +ℤ pos 1)) tr

  create_tickets-suc :
      (rounds : ℕ) (index : ℤ) (tr : Trace)
      → create_tickets env order (suc rounds) index tr
        ≡ go_on rounds index (create_ticket env order index tr)
  unfolding create_tickets
  create_tickets-suc rounds index tr = ground arith

  next_ends :
      {error : Option Error} {rounds n m : ℕ}
      → ((error ≡ none) × (n ≡ rounds) × (m ≡ 0))
        ⊎ ((e : Error) × (error ≡ some e) × (n < rounds) × (m ≤ 1))
      → ((error ≡ none) × (suc n ≡ suc rounds) × (m ≡ 0))
        ⊎ ((e : Error) × (error ≡ some e) × (suc n < suc rounds) × (m ≤ 1))
  next_ends (inl (a, b, c)) = inl (a, ap suc b, c)
  next_ends (inr (e, a, b, c)) = inr (e, a, omega arith, c)

  -- One more ticket, then the rest of the loop.
  Accounts-created :
      (rounds : ℕ) (index : ℤ) (tr : Trace) (store s : p.Store) (call : Call) (n m : ℕ)
      → create_ticket env order index tr ≡ (some none, call ∷ tr)
      → (create_reported p env order index tr store).error ≡ none
      → (create_reported p env order index tr store).calls ≡ call ∷ tr
      → (create_reported p env order index tr store).store ≡ some s
      → Grows p order store (some s) 1 0
      → Accounts rounds (wrap32 (index +ℤ pos 1)) (call ∷ tr) s n m
      → Accounts (suc rounds) index tr store (suc n) m
  unfolding create_all_reported
  Accounts-created rounds index tr store s call n m made noerr calls after step rest =
      let whole : create_all_reported p env order (suc rounds) index tr store
          ≡ create_all_reported p env order rounds (wrap32 (index +ℤ pos 1)) (call ∷ tr) s =
        rw (create_all_reported, after, noerr, calls) refl in
      let (s1, e1, a1, b1) = step in
      let here : s ≡ s1 = ground (arith, e1) in
      let (s2, e2, a2, b2) = rest.grows in
      record {
        same = rw (create_tickets-suc rounds index tr, made, whole) rest.same;
        grows = rw whole (s2, e2, ground (arith, here, a1, a2), ground (arith, here, b1, b2));
        adds_up = rw whole (omega (arith, rest.adds_up));
        ends = rw whole (next_ends rest.ends);
      }

  -- createTicket has failed, and the loop stops.
  Accounts-stopped :
      (rounds : ℕ) (index : ℤ) (tr tr' : Trace) (store : p.Store) (e : Error) (m : ℕ)
      → create_ticket env order index tr ≡ (some (some e), tr')
      → (create_reported p env order index tr store).error ≡ some e
      → (create_reported p env order index tr store).calls ≡ tr'
      → Grows p order store (create_reported p env order index tr store).store 0 m
      → length tr' ≡ length tr + m
      → m ≤ 1
      → Accounts (suc rounds) index tr store 0 m
  unfolding create_all_reported create_reported
  Accounts-stopped rounds index tr tr' store e m made error calls grows longer once =
      let (s, after, a, b) = grows in
      let whole : create_all_reported p env order (suc rounds) index tr store
          ≡ create_reported p env order index tr store =
        rw (create_all_reported, after, error) refl in
      record {
        same = rw (create_tickets-suc rounds index tr, made, whole, error, calls) refl;
        grows = rw whole grows;
        adds_up = rw (whole, calls) (omega (arith, longer));
        ends = inr (e, rw whole error, omega arith, once);
      }

module _ (p : Prometheus) (documented : IsDocumented p) (env : Cluster) (order : Order) where
  -- Whatever the server answers, the loop that creates tickets has the result and the calls that it
  -- has without its reports, no report panics, and the counter of created tickets of the order's
  -- namespace and that of failed creations grow by numbers that add up to the calls that were made: by
  -- one for each round and none if the loop ends without an error, and otherwise by fewer than the
  -- rounds and at most one. Prometheus is assumed to do what its documentation says (`IsDocumented`).
  pub create_all_Accounts :
      (rounds : ℕ) (index : ℤ) (tr : Trace) (store : p.Store)
      → (n : ℕ) × (m : ℕ) × Accounts p env order rounds index tr store n m
  unfolding create_all_reported create_tickets
  create_all_Accounts zero index tr store = (
    0,
    0,
    record {
      same = refl;
      grows = (store, refl, omega arith, omega arith);
      adds_up = omega arith;
      ends = inl (refl, refl, refl);
    },
  )
  create_all_Accounts (suc rounds) index tr store =
      elim (create_reported_cases p documented env order index tr store) [
        | inl (e, made, error, calls, after) ↦ (
          0,
          0,
          Accounts-stopped p env order rounds index tr tr store e 0 made error calls
              (store, after, omega arith, omega arith) (omega arith) (omega arith),
        )
        | inr (inl (call, e, made, error, calls, grows)) ↦ (
          0,
          1,
          Accounts-stopped p env order rounds index tr (call ∷ tr) store e 1 made error calls grows
              (omega arith) (omega arith),
        )
        | inr (inr (call, made, error, calls, grows)) ↦
            let (s, after, a, b) = grows in
            let (n, m, rest) = create_all_Accounts rounds (wrap32 (index +ℤ pos 1)) (call ∷ tr) s in
            (
              suc n,
              m,
              Accounts-created p env order rounds index tr store s call n m made error calls after
                  (s, refl, a, b) rest,
            )
      ]
