-- ===== src/Manager/Ports.antt =====
-- The loop of Up (manager.go) that maps the ports, beside the owners that the state file records.
use native.Mathlib.Nat.{mod-eq_of_lt}
use cf_networking_release.Prelude.{
  ℕ, ◌+◌, ◌%◌, ◌^◌, ◌≤◌, ◌<◌, String, ◌≡◌, ◌≢◌, refl, ap, sym, ◌∙◌, none, some, List, [], ◌∷◌, ◌==◌,
  ==_iff, arith, wrap, ok, err, ◌⊎◌, inl, inr, Bool-cases, Error,
}
use mathlib.Core.Path.{subst}
use cf_networking_release.PortAllocator.{Tracker, File, corrupt, port_pool_exhausted}
use cf_networking_release.PortAllocator.Files.{
  file_owner, Allocated, healthy, allocate_port-Allocated_or_exhausted,
}
use cf_networking_release.Manager.{NetIn, Host, Node, after, allocate, map_ports}

-- Each port keeps its owner, or had none and belongs to the handle.
abbrev pub IsGrown : String → File → File → Type 0
IsGrown handle file file' =
    (q : ℕ)
    → (file_owner file' q ≡ file_owner file q)
      ⊎ ((file_owner file q ≡ none) × (file_owner file' q ≡ some handle))

pub IsGrown-trans :
    (handle : String) (a b c : File) → IsGrown handle a b → IsGrown handle b c → IsGrown handle a c
IsGrown-trans handle a b c first second q = elim (first q) [
  | inl same ↦ elim (second q) [
    | inl again ↦ inl (again ∙ same)
    | inr (free, owned) ↦ inr (sym same ∙ free, owned)
  ]
  | inr (free, owned) ↦ elim (second q) [
    | inl again ↦ inr (free, again ∙ owned)
    | inr (none_yet, taken) ↦ inr (free, taken)
  ]
]

Allocated-IsGrown :
    (t : Tracker) (handle : String) (file file' : File) (port : ℕ)
    → Allocated t handle file file' port
    → IsGrown handle file file'
Allocated-IsGrown t handle file file' port a q = elim (Bool-cases (q == port)) [
  | inl same ↦
      let equal : port ≡ q = sym ((==_iff q port).0 same) in
      inr (
        subst (λ p. file_owner file p ≡ none) equal a.was_free,
        subst (λ p. file_owner file' p ≡ some handle) equal a.is_owned,
      )
  | inr other ↦ inl (a.kept q (λ e. absurd (ground (arith, other, e))))
]

Allocated-readable :
    (t : Tracker) (handle : String) (file file' : File) (port : ℕ)
    → Allocated t handle file file' port
    → file' ≢ corrupt
Allocated-readable t handle file file' port a e =
    absurd (ground (arith, sym (ap (λ f. file_owner f port) e) ∙ a.is_owned))

-- What the loop makes of the requests and of the state file: a request with a host port keeps it,
-- and one without gets a port of the range that nobody had when its turn came.
abbrev pub IsMapped : Tracker → String → File → List NetIn → List NetIn → File → Type 0
IsMapped t handle file [] mapped file' = (mapped ≡ []) × (file' ≡ file)
IsMapped t handle file (i ∷ net_in) mapped file' =
    (port : ℕ) × (rest : List NetIn) × (between : File) × (mapped
      ≡ record { host_port = port; container_port = i.container_port } ∷ rest)
    × (((i.host_port ≡ 0) × Allocated t handle file between port)
        ⊎ ((i.host_port ≢ 0) × (port ≡ i.host_port) × (between ≡ file)))
    × IsMapped t handle between net_in rest file'

abbrev pub no_port_left : Error
no_port_left = wrap "allocating port" (wrap "acquire port" port_pool_exhausted)

-- Every port of the range has an owner.
abbrev pub IsFullRange : Tracker → File → Type 0
IsFullRange t file =
    (q : ℕ) → t.start_port ≤ q → q < t.start_port + t.capacity → file_owner file q ≢ none

module _ {Value Rule Plugin CniResult World : Type 0}
    (host : Host Value Rule Plugin CniResult World)
    (io_works : (w : World) → host.port_io w ≡ healthy) (t : Tracker)
    (narrow : t.start_port + t.capacity ≤ 2 ^ 32) (handle : String) where
  allocate-cases :
      (n : Node Plugin World)
      → n.ports ≢ corrupt
      → ((file : File) × (port : ℕ) × (allocate host t handle 0 n
            ≡ (ok port, record n { ports = file }))
          × Allocated t handle n.ports file port)
        ⊎ ((allocate host t handle 0 n ≡ (err (wrap "acquire port" port_pool_exhausted), n))
            × IsFullRange t n.ports)
  unfolding allocate
  allocate-cases n readable =
      elim (allocate_port-Allocated_or_exhausted t handle n.ports readable) [
        | inl (file, port, e, a) ↦ inl (file, port, rw (io_works n.world, e) refl, a)
        | inr (full, e) ↦ inr (rw (io_works n.world, e) refl, full)
      ]

  -- Where the state file can be read and written, and the range ends within a uint32: the loop over
  -- the port requests serves them all, in order, each without a host port with a port of the range
  -- that nobody had and that the handle then has; or at some request no port of the range is free
  -- and the loop fails. Either way every other port keeps its owner.
  pub map_ports-IsMapped :
      (net_in : List NetIn) (n : Node Plugin World)
      → n.ports ≢ corrupt
      → ((mapped : List NetIn) × (file : File) × (map_ports host t handle net_in n
            ≡ (ok mapped, record n { ports = file }))
          × IsMapped t handle n.ports net_in mapped file
          × IsGrown handle n.ports file
          × (file ≢ corrupt))
        ⊎ ((file : File) × (map_ports host t handle net_in n
              ≡ (err no_port_left, record n { ports = file }))
            × IsFullRange t file
            × IsGrown handle n.ports file
            × (file ≢ corrupt))
  unfolding map_ports after
  map_ports-IsMapped [] n readable = inl ([], n.ports, refl, (refl, refl), λ q. inl refl, readable)
  map_ports-IsMapped (i ∷ net_in) n readable = elim (Bool-cases (i.host_port == 0)) [
    | inr chosen ↦ elim (map_ports-IsMapped net_in n readable) [
      | inl (mapped, file, e, m, grown, good) ↦ inl (
        record { host_port = i.host_port; container_port = i.container_port } ∷ mapped,
        file,
        rw (chosen, e) refl,
        (
          i.host_port,
          mapped,
          n.ports,
          refl,
          inr (λ z. absurd (ground (arith, chosen, z)), refl, refl),
          m,
        ),
        grown,
        good,
      )
      | inr (file, e, full, grown, good) ↦ inr (file, rw (chosen, e) refl, full, grown, good)
    ]
    | inl asked ↦
        let zero_port : i.host_port ≡ 0 = (==_iff i.host_port 0).0 asked in
        elim (allocate-cases n readable) [
          | inr (e, full) ↦
              inr (n.ports, rw (asked, zero_port, e) refl, full, λ q. inl refl, readable)
          | inl (between, port, e, a) ↦
              let fits : port % 2 ^ 32 ≡ port = mod-eq_of_lt (omega (arith, a.below_end, narrow)) in
              let first = Allocated-IsGrown t handle n.ports between port a in
              elim (map_ports-IsMapped net_in (record n { ports = between })
                (Allocated-readable t handle n.ports between port a)) [
                  | inl (mapped, file, f, m, grown, good) ↦ inl (
                    record { host_port = port; container_port = i.container_port } ∷ mapped,
                    file,
                    rw (asked, zero_port, e, fits, f) refl,
                    (port, mapped, between, refl, inl (zero_port, a), m),
                    IsGrown-trans handle n.ports between file first grown,
                    good,
                  )
                  | inr (file, f, full, grown, good) ↦ inr (
                    file,
                    rw (asked, zero_port, e, fits, f) refl,
                    full,
                    IsGrown-trans handle n.ports between file first grown,
                    good,
                  )
                ]
        ]
  ]
