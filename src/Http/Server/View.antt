-- ===== src/Http/Server/View.antt =====
-- What the proofs see of a server: the rows of its store, its registry and the tasks it has started.
use app_salmon.Base.{List, Result, ok, err, ◌≡◌, refl}
use app_salmon.Base.Action.{Action}
use app_salmon.Base.Post.{Post}
use app_salmon.Domain.Cluster.{Cluster}
use app_salmon.Service.Registry.{TaskRegistry}
use app_salmon.Http.Server.{Job, Server, on_world}

pub record View : Type 0 where
  pub rows : List Cluster
  pub registry : TaskRegistry
  pub jobs : List Job

module _ {W : Type 0} (Holds : W → List Cluster → Type 0) where
  abbrev pub Sees : Server W → View → Type 0
  Sees s v = Holds s.world v.rows × (s.task_registry ≡ v.registry) × (s.started ≡ v.jobs)

module _ {W E A : Type 0} {Holds : W → List Cluster → Type 0} {Q : A → List Cluster → Type 0}
    {R : E → List Cluster → Type 0} where
  with_rows :
      (p : Result E A × W) (s : Server W) (v : View)
      → Sees Holds s v
      → Post Holds Q R p
      → Post
          (Sees Holds)
          (λ a v'. Q a v'.rows × (v' ≡ record v { rows = v'.rows }))
          (λ e v'. R e v'.rows × (v' ≡ record v { rows = v'.rows }))
          (p.0, record s { world = p.1 })
  with_rows (ok a, w) s v (_, r, j) h =
      let (cs, k, q) = h.ends in record { ends = (record v { rows = cs }, (k, r, j), (q, refl)) }
  with_rows (err e, w) s v (_, r, j) h =
      let (cs, k, q) = h.ends in record { ends = (record v { rows = cs }, (k, r, j), (q, refl)) }

  -- A call of the service touches neither the registry nor the started tasks.
  pub on_world-Post :
      (m : Action W E A) (s : Server W) (v : View)
      → Sees Holds s v
      → Post Holds Q R (m s.world)
      → Post
          (Sees Holds)
          (λ a v'. Q a v'.rows × (v' ≡ record v { rows = v'.rows }))
          (λ e v'. R e v'.rows × (v' ≡ record v { rows = v'.rows }))
          (on_world m s)
  on_world-Post m s v sees h = with_rows (m s.world) s v sees h
