-- ===== src/Metrics/Prometheus.antt =====
-- Prometheus (github.com/prometheus/client_golang), which internal/metrics/metrics.go calls.
use korder.Prelude.{ℕ, suc, ◌≡◌, Bool, true, false, List, [], ◌∷◌, ◌&&◌, length, if◌then◌else◌}
use korder.Prelude.Int.{ℤ}
use korder.Prelude.Text.{Text, text_eq}
use korder.Api.Meta.{Float64}
use korder.Metrics.Vectors.{Vector}

unfoldable pub texts_eq : List Text → List Text → Bool
texts_eq [] [] = true
texts_eq (s ∷ ss) (t ∷ ts) = text_eq s t && texts_eq ss ts
texts_eq _ _ = false

-- github.com/prometheus/client_golang/prometheus
pub record Prometheus : Type 1 where
  -- The values of all series
  pub Store : Type 0
  -- Whether WithLabelValues returns a series of the vector and does not panic
  pub labelled : Vector → List Text → Bool
  -- Inc, Set and Observe on the series that WithLabelValues returns
  pub inc : Vector → List Text → Store → Store
  pub set : Vector → List Text → Float64 → Store → Store
  pub observe : Vector → List Text → Float64 → Store → Store
  -- The value of a counter, or the number of observations of a histogram, by the name of the vector
  -- and the values of the labels
  pub total : Store → Text → List Text → ℕ
  -- time.Duration's Seconds
  pub seconds : ℤ → Float64

-- What the documentation of the library says of these operations, over vectors that have been
-- registered under different names.
pub record IsDocumented (p : Prometheus) : Type 0 where
  -- As many values as labels, which are all valid texts
  pub labelled_count :
      (v : Vector) (vs : List Text) → length vs ≡ length v.labels → p.labelled v vs ≡ true
  pub total-inc :
      (v : Vector) (vs : List Text) (s : p.Store) (name : Text) (ws : List Text)
      → p.total (p.inc v vs s) name ws ≡ (
          if text_eq v.name name && texts_eq ws vs
          then suc (p.total s name ws)
          else p.total s name ws)
  pub total-observe :
      (v : Vector) (vs : List Text) (x : Float64) (s : p.Store) (name : Text) (ws : List Text)
      → p.total (p.observe v vs x s) name ws ≡ (
          if text_eq v.name name && texts_eq ws vs
          then suc (p.total s name ws)
          else p.total s name ws)
  -- A name is that of one vector, so a gauge is no counter.
  pub total-set :
      (v : Vector) (vs : List Text) (x : Float64) (s : p.Store) (name : Text) (ws : List Text)
      → text_eq v.name name ≡ false
      → p.total (p.set v vs x s) name ws ≡ p.total s name ws
