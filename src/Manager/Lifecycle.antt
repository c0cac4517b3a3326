-- ===== src/Manager/Lifecycle.antt =====
-- Up and Down of a container (manager.go), beside the owners of the ports in the state file.
use cf_networking_release.Prelude.{
  ℕ, ◌+◌, ◌^◌, ◌≤◌, String, pos, true, ◌≡◌, ◌≢◌, refl, ap, sym, ◌∙◌, Option, none, some, List,
  arith, ok, err, Result, Error, ◌⊎◌, inl, inr, Bool-cases, Result-cases, wrap, message, str_eq,
  eq_iff,
}
use cf_networking_release.Prelude.Int.{eq_ℤ}
use cf_networking_release.Assoc.{unless_test}
use cf_networking_release.PortAllocator.{corrupt}
use cf_networking_release.PortAllocator.Files.{file_owner, healthy, release_all_ports-file_owner}
use cf_networking_release.Manager.{
  NetIn, UpInputs, ExtraKeys, Manager, Host, Node, after, in_world, cni_up, finish_up, cni_down,
  release, map_ports, mount_and_map, up_checked, up, down, logged,
}
use cf_networking_release.Manager.Ports.{IsGrown, IsGrown-trans, map_ports-IsMapped}

module _ {Value Rule Plugin CniResult World : Type 0}
    (host : Host Value Rule Plugin CniResult World)
    (io_works : (w : World) → host.port_io w ≡ healthy) (m : Manager)
    (narrow : m.tracker.start_port + m.tracker.capacity ≤ 2 ^ 32) (handle : String) where
  -- The handle may have got ports, and the file can still be read.
  abbrev pub IsKept : Node Plugin World → Node Plugin World → Type 0
  IsKept n o = IsGrown handle n.ports o.ports × (o.ports ≢ corrupt)

  after-IsKept :
      {A B : Type 0} (n : Node Plugin World) (r : Result A × Node Plugin World)
      (next : A → Node Plugin World → Result B × Node Plugin World)
      → IsKept n (r.1)
      → ((a : A) (o : Node Plugin World) → IsKept n o → IsKept n ((next a o).1))
      → IsKept n ((after host r next).1)
  unfolding after
  after-IsKept n (err e, o) next kept later = kept
  after-IsKept n (ok a, o) next kept later = later a o kept

  map_ports-IsKept :
      (net_in : List NetIn) (n o : Node Plugin World)
      → IsKept n o
      → IsKept n ((map_ports host m.tracker handle net_in o).1)
  map_ports-IsKept net_in n o (grown, readable) =
      elim (map_ports-IsMapped host io_works m.tracker narrow handle net_in o readable) [
        | inl (mapped, file, e, mapping, more, good) ↦
            rw e (IsGrown-trans handle n.ports o.ports file grown more, good)
        | inr (file, e, full, more, good) ↦
            rw e (IsGrown-trans handle n.ports o.ports file grown more, good)
      ]

  cni_up_list-IsKept :
      (path : String) (keys : ExtraKeys Value Rule) (n o : Node Plugin World)
      (plugins : Option (List Plugin))
      → o.plugins ≡ plugins
      → IsKept n o
      → IsKept n ((cni_up host path handle keys o).1)
  unfolding cni_up
  cni_up_list-IsKept path keys n o none e kept = rw e kept
  cni_up_list-IsKept path keys n o (some ps) e kept = rw e (after-IsKept n _ _ kept (λ u p k. k))

  finish_up-IsKept :
      (path : String) (net_in : List NetIn) (result : Option CniResult) (n o : Node Plugin World)
      → IsKept n o
      → IsKept n ((finish_up host m path net_in result o).1)
  finish_up-IsKept path net_in none n o kept = kept
  finish_up-IsKept path net_in (some result) n o kept =
      after-IsKept n _ _ kept (λ a p k. after-IsKept n _ _ k (λ u q l. l))

  up_checked-IsKept :
      (path : String) (inputs : UpInputs Value Rule) (ns_fd : Option ℕ) (n : Node Plugin World)
      → n.ports ≢ corrupt
      → IsKept n ((up_checked host m handle path inputs ns_fd n).1)
  unfolding up_checked mount_and_map
  up_checked-IsKept path inputs ns_fd n readable =
      after-IsKept n _ _
        (after-IsKept n _ _ (λ q. inl refl, readable)
          (λ u o k. map_ports-IsKept inputs.net_in n o k))
        (λ net_in o k.
          after-IsKept n _ _ (cni_up_list-IsKept path _ n o _ refl k)
            (λ result p l. finish_up-IsKept path net_in result n p l))

  pub up-IsKept :
      (inputs : UpInputs Value Rule) (ns_fd : Option ℕ) (n : Node Plugin World)
      → n.ports ≢ corrupt
      → IsKept n ((up host m handle inputs ns_fd n).1)
  unfolding up
  up-IsKept inputs ns_fd n readable = elim (Bool-cases (eq_ℤ inputs.pid (pos 0))) [
    | inl missing ↦ rw missing (λ q. inl refl, readable)
    | inr given ↦ elim (Bool-cases (str_eq handle "")) [
      | inl nameless ↦ rw (given, nameless) (λ q. inl refl, readable)
      | inr named ↦
          rw (given, named)
            (up_checked-IsKept (host.join m.bind_mount_root handle) inputs ns_fd n readable)
    ]
  ]

  logged_ports :
      (text : String) (r : Result (Unit {0}) × Node Plugin World)
      → (logged host text r).ports ≡ (r.1).ports
  logged_ports text (ok u, n) = refl
  logged_ports text (err e, n) = refl

  release-file_owner :
      (n : Node Plugin World)
      → n.ports ≢ corrupt
      → (q : ℕ)
      → file_owner ((release host handle n).1).ports q
        ≡ unless_test (λ h. str_eq h handle) (file_owner n.ports q)
  unfolding release
  release-file_owner n readable q =
      let (file, e, owners) = release_all_ports-file_owner handle n.ports readable in
      rw (io_works n.world, e) (owners q)

  -- Where the state file can be read and written: Down without a handle, or whose CNI call fails,
  -- fails and leaves every port to its owner; otherwise it succeeds, whether or not the bind mount
  -- could be removed, and takes the handle's ports from the state file and no others.
  pub down-cases :
      (n : Node Plugin World)
      → n.ports ≢ corrupt
      → ((e : Error) × (o : Node Plugin World) × (down host m handle n ≡ (err e, o))
          × (o.ports ≡ n.ports)
          × ((str_eq handle "" ≡ true)
              ⊎ ((f : Error) × ((cni_down host (host.join m.bind_mount_root handle) handle n).0
                    ≡ err f))))
        ⊎ ((o : Node Plugin World) × (down host m handle n ≡ (ok tt, o))
            × ((q : ℕ)
                → file_owner o.ports q ≡ unless_test (λ h. str_eq h handle) (file_owner n.ports q)))
  unfolding down cni_down after
  down-cases n readable = elim (Bool-cases (str_eq handle "")) [
    | inl nameless ↦
        inl (message "down missing container handle", n, rw nameless refl, refl, inl nameless)
    | inr named ↦
        let path = host.join m.bind_mount_root handle in
        let call =
          host.del_network_list n.plugins (record { container_id = handle; net_ns = path })
            n.world in
        elim (Result-cases (call.0)) [
          | inr (e, failed) ↦ inl (
            wrap "cni down" (wrap "del network failed" e),
            record n { world = call.1 },
            rw (named, failed) refl,
            refl,
            inr (wrap "del network failed" e, rw failed refl),
          )
          | inl (u, done) ↦
              let unmounted =
                logged host "removing bind mount %s"
                  (in_world host (host.remove_mount path) (record n { world = call.1 })) in
              let same : unmounted.ports ≡ n.ports = logged_ports "removing bind mount %s" _ in
              inr (
                logged host "releasing ports" (release host handle unmounted),
                rw (named, done) refl,
                λ q.
                    ap (λ f. file_owner f q)
                      (logged_ports "releasing ports" (release host handle unmounted))
                    ∙ release-file_owner unmounted (λ e. readable (sym same ∙ e)) q
                    ∙ ap (λ f. unless_test (λ h. str_eq h handle) (file_owner f q)) same,
              )
        ]
  ]

  -- Where the state file can be read and written, and the range of ports ends at 2 ^ 32 or below: a
  -- Down that succeeds after an Up of the same handle, at whatever step that Up failed or if it
  -- succeeded, leaves the state file without the handle's ports, and every other port with the owner
  -- that it had before the Up.
  pub down-up-file_owner :
      (inputs : UpInputs Value Rule) (ns_fd : Option ℕ) (n last : Node Plugin World)
      → n.ports ≢ corrupt
      → down host m handle ((up host m handle inputs ns_fd n).1) ≡ (ok tt, last)
      → (q : ℕ)
      → file_owner last.ports q ≡ unless_test (λ h. str_eq h handle) (file_owner n.ports q)
  down-up-file_owner inputs ns_fd n last readable finished q =
      let (grown, good) = up-IsKept inputs ns_fd n readable in
      elim (down-cases ((up host m handle inputs ns_fd n).1) good) [
        | inl (e, o, failed, same, why) ↦ absurd (ground (arith, sym failed ∙ finished))
        | inr (o, done, owners) ↦
            let here : o ≡ last = ap (λ r. r.1) (sym done ∙ finished) in
            ap (λ p. file_owner p.ports q) (sym here) ∙ owners q ∙ elim (grown q) [
              | inl same ↦ ap (unless_test (λ h. str_eq h handle)) same
              | inr (free, owned) ↦ rw (free, owned, (eq_iff handle handle).1 refl) refl
            ]
      ]
