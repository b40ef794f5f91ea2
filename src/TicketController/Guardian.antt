-- ===== src/TicketController/Guardian.antt =====
-- internal/controller/ticket_controller.go: createGuardianPod, deleteGuardianPod, and
-- handleDeletion.
use korder.Prelude.{Option, none, some, [], ◌∷◌, ◌++◌, if◌then◌else◌, get_or}
use korder.Prelude.Int.{pos}
use korder.Prelude.Text.{codes}
use korder.Api.Meta.{Pod, PodPhase, ResourceRequirements}
use korder.Api.Ticket.{Ticket}
use korder.Client.{
  Cluster, Error, other, is_not_found, Reply, ok, err, Call, M, pure, ◌>>=◌, write, make_pod, done,
  again, Return, return_ok, return_err,
}
use korder.TicketController.Write.{ticket_finalizer, parse_key}

-- deleteGuardianPod; `none` is nil.
unfoldable pub delete_guardian_pod : Cluster → Ticket → M (Option Error)
delete_guardian_pod env t = elim t.status.guardian_pod [
  | none ↦ pure none
  | some name ↦ elim (parse_key name) [
    | none ↦ pure (some (other (codes "invalid guardian pod format: " ++ name)))
    | some k ↦ do
      failure ← write env (Call.delete_pod k)
      elim failure [
        | none ↦ pure none
        | some e ↦ if is_not_found e then pure none else pure (some e)
      ]
  ]
]

-- handleDeletion
unfoldable pub handle_deletion : Cluster → Ticket → M Return
handle_deletion env t = do
  failure ← delete_guardian_pod env t
  elim failure [
    | some e ↦ if is_not_found e then return_ok done else return_err again e
    | none ↦ do
      failed ←
          write env
            (Call.update_ticket (record t { meta = env.remove_finalizer t.meta ticket_finalizer }))
      elim failed [
        | none ↦ return_ok done
        | some e ↦ if is_not_found e then return_ok done else return_err again e
      ]
  ]

default_resources : Cluster → ResourceRequirements
default_resources env = record {
  requests = some (
      (codes "cpu", env.must_parse (codes "100m"))
      ∷ (codes "memory", env.must_parse (codes "128Mi"))
      ∷ []);
  limits = none;
}

-- The pod that createGuardianPod builds, before the owner reference.
unfoldable pub guardian_pod_of : Cluster → Ticket → Pod
unfolding default_resources
guardian_pod_of env t = record {
  meta = record {
    name = codes "korder-guardian-" ++ t.meta.name;
    namespace = t.meta.namespace;
    uid = [];
    generation = pos 0;
    deletion_timestamp = none;
    finalizers = [];
    labels =
        (codes "korder.dev/ticket", t.meta.name)
        ∷ (codes "korder.dev/ticket-uid", t.meta.uid)
        ∷ (codes "korder.dev/guardian", codes "true")
        ∷ (codes "korder.dev/component", codes "guardian-pod")
        ∷ [];
    annotations = [];
    owner_references = [];
  };
  spec = record {
    restart_policy = codes "Always";
    containers =
        record {
          name = codes "guardian";
          image = codes "registry.k8s.io/pause:3.10";
          resources = get_or t.spec.resources (default_resources env);
        }
        ∷ [];
    node_name = get_or t.spec.node_name [];
    node_selector = t.spec.node_selector;
    affinity = t.spec.affinity;
    tolerations = t.spec.tolerations;
    topology_spread_constraints = t.spec.topology_spread_constraints;
    scheduler_name = get_or t.spec.scheduler_name [];
    priority_class_name = get_or t.spec.priority_class_name [];
  };
  phase = PodPhase.unset;
}

-- createGuardianPod
unfoldable pub create_guardian_pod : Cluster → Ticket → M (Reply Pod)
create_guardian_pod env t =
    let pod = guardian_pod_of env t in
    elim (env.set_controller_reference t.meta pod.meta) [
      | err e ↦ pure (err e)
      | ok owned ↦ make_pod env (record pod { meta = owned })
    ]
