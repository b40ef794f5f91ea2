-- ===== src/Usage/Tests.antt =====
-- The theorem on the order of maps at a concrete input.
use mathlib.Core.List.Perm
use korder.Prelude.{◌≡◌, refl, [], ◌∷◌}
use korder.Prelude.Int.{pos}
use korder.Prelude.Text.{codes, text_eq, lookup}
use korder.Api.Meta.{ResourceList}
use korder.Client.Sample.{metered_server, metered}
use korder.Usage.{project, is_exceeded}
use korder.Usage.Maps.{IsMap, is_exceeded-Perm}

abbrev used : ResourceList
used = (codes "tickets", metered (pos 2)) ∷ []

abbrev requests : ResourceList
requests = (codes "orders", metered (pos 1)) ∷ (codes "tickets", metered (pos 3)) ∷ []

abbrev other_order : ResourceList
other_order = (codes "tickets", metered (pos 3)) ∷ (codes "orders", metered (pos 1)) ∷ []

abbrev limits : ResourceList
limits = (codes "tickets", metered (pos 4)) ∷ []

is_exceeded-Perm_example :
    is_exceeded metered_server (project metered_server used requests) limits
    ≡ is_exceeded metered_server (project metered_server used other_order) limits
unfolding IsMap lookup text_eq
is_exceeded-Perm_example =
    is_exceeded-Perm metered_server used requests other_order limits limits (refl, (refl, tt))
      (Perm.swap _ _ []) (Perm.refl limits)
