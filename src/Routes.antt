-- ===== src/Routes.antt =====
-- src/route_populator: PartitionRange of runner/runner.go, and the routes that a publisher registers
-- (Initialize and PublishRouteRegistrations of publisher/publisher.go). The bounds are taken as
-- natural numbers with the start not above the end, as a job's validation asks. The connection and
-- JSON are parameters; the delays, the goroutines and their channels are left out.
pub mod Partition
use cf_networking_release.Prelude.{
  ℕ, zero, suc, ◌+◌, ◌-◌, ◌%◌, String, List, [], ◌∷◌, ◌==◌, ltb, leb, if◌then◌else◌, Result, ok,
  err,
}

-- `for i := i; i <= end; i += size`; a size of 0 never ends in the source, and runs out of fuel here.
unfoldable pub steps : ℕ → ℕ → ℕ → ℕ → List ℕ
steps zero i end size = []
steps (suc fuel) i end size =
    let rest = steps fuel (i + size) end size in if leb i end then i ∷ rest else []

-- `result[len(result)-1] = end`
unfoldable pub set_last : ℕ → List ℕ → List ℕ
set_last end [] = []
set_last end (x ∷ []) = end ∷ []
set_last end (x ∷ y ∷ xs) = x ∷ set_last end (y ∷ xs)

unfoldable pub partition_range : ℕ → ℕ → ℕ → List ℕ
partition_range start end size =
    let result = steps (suc (end - start)) start end size in
    if size == (end - start)
    then start ∷ end ∷ []
    else if ltb 0 ((end - start) % size)
    then set_last end result
    else result

-- The numbers of the routes of a job: the loop of Initialize, of a count from a start.
unfoldable pub route_numbers : ℕ → ℕ → List ℕ
route_numbers zero i = []
route_numbers (suc count) i = i ∷ route_numbers count (suc i)

-- The subjects on which a route's data is published.
pub data Subject : Type 0 where
  router_register : Subject
  service_discovery_register : Subject

module _ {Data World : Type 0} (publish : Subject → Data → World → Result (Unit {0}) × World) where
  -- One round of the loop of PublishRouteRegistrations, and the next rounds
  abbrev pub unless_refused :
      (World → Result (Unit {0}) × World) → Result (Unit {0}) × World → Result (Unit {0}) × World
  unless_refused next (ok u, w) = next w
  unless_refused next (err e, w) = (err e, w)

  unfoldable pub publish_route_registrations : List Data → World → Result (Unit {0}) × World
  publish_route_registrations [] w = (ok tt, w)
  publish_route_registrations (d ∷ data_left) w =
      unless_refused
        (λ v.
          unless_refused (publish_route_registrations data_left)
            (publish service_discovery_register d v))
        (publish router_register d w)
