-- ===== src/Mux/Lifetime.antt =====
-- The messages up and down (ipc.go) over the networker's manager (manager.go).
use cf_networking_release.Prelude.{
  ℕ, ◌+◌, ◌^◌, ◌≤◌, String, ◌≡◌, ◌≢◌, refl, ap, sym, ◌∙◌, true, false, Option, Result, ok, err, inl,
  inr, Bool-cases, str_eq, arith, message,
}
use cf_networking_release.Assoc.{unless_test}
use cf_networking_release.PortAllocator.{corrupt}
use cf_networking_release.PortAllocator.Files.{file_owner, healthy}
use cf_networking_release.Manager.{UpInputs, UpOutputs, Manager, Host, Node, up, down}
use cf_networking_release.Manager.Lifecycle.{down-cases, down-up-file_owner}
use cf_networking_release.Mux.{mux_handle, write_outputs, write_empty, decode_and_up}

module _ {Value Rule Plugin CniResult World : Type 0}
    (host : Host Value Rule Plugin CniResult World)
    (io_works : (w : World) → host.port_io w ≡ healthy) (m : Manager)
    (narrow : m.tracker.start_port + m.tracker.capacity ≤ 2 ^ 32)
    (encode : UpOutputs → Result String) where
  -- The mux of the manager's Up and Down.
  abbrev pub served :
      String
      → String
      → Option ℕ
      → Result (UpInputs Value Rule)
      → Node Plugin World
      → Result String × Node Plugin World
  served = mux_handle (up host m) (down host m) encode

  pub write_outputs-state :
      (ran : Result UpOutputs × Node Plugin World)
      → (write_outputs (up host m) (down host m) encode ran).1 ≡ ran.1
  write_outputs-state (err e, n) = refl
  write_outputs-state (ok outputs, n) = refl

  write_empty-ok :
      (ran : Result (Unit {0}) × Node Plugin World) (text : String) (last : Node Plugin World)
      → write_empty (up host m) (down host m) encode ran ≡ (ok text, last)
      → ran ≡ (ok tt, last)
  write_empty-ok (err e, n) text last h = cc
  write_empty-ok (ok u, n) text last h = ap (λ r. (ok tt, r.1)) h

  served-nameless :
      (handle : String) (ns_fd : Option ℕ) (stdin : Result (UpInputs Value Rule))
      (n : Node Plugin World)
      → str_eq handle "" ≡ true
      → served "down" handle ns_fd stdin n ≡ (err (message "missing handle"), n)
  unfolding mux_handle
  served-nameless handle ns_fd stdin n nameless = rw nameless refl

  pub served-down :
      (handle : String) (ns_fd : Option ℕ) (stdin : Result (UpInputs Value Rule))
      (n : Node Plugin World)
      → str_eq handle "" ≡ false
      → served "down" handle ns_fd stdin n
        ≡ write_empty (up host m) (down host m) encode (down host m handle n)
  unfolding mux_handle
  served-down handle ns_fd stdin n named = rw named refl

  pub served-up :
      (handle : String) (ns_fd : Option ℕ) (stdin : Result (UpInputs Value Rule))
      (n : Node Plugin World)
      → str_eq handle "" ≡ false
      → served "up" handle ns_fd stdin n
        ≡ decode_and_up (up host m) (down host m) encode handle ns_fd stdin n
  unfolding mux_handle
  served-up handle ns_fd stdin n named = rw named refl

  down-served :
      (handle : String) (ns_fd : Option ℕ) (stdin : Result (UpInputs Value Rule))
      (n last : Node Plugin World) (text : String)
      → served "down" handle ns_fd stdin n ≡ (ok text, last)
      → (str_eq handle "" ≡ false) × (down host m handle n ≡ (ok tt, last))
  down-served handle ns_fd stdin n last text finished = elim (Bool-cases (str_eq handle "")) [
    | inl nameless ↦
        absurd (ground (arith, sym (served-nameless handle ns_fd stdin n nameless) ∙ finished))
    | inr named ↦ (
      named,
      write_empty-ok (down host m handle n) text last
          (sym (served-down handle ns_fd stdin n named) ∙ finished),
    )
  ]

  -- What a Down alone does to the owners.
  down-file_owner :
      (handle : String) (n last : Node Plugin World)
      → n.ports ≢ corrupt
      → down host m handle n ≡ (ok tt, last)
      → (q : ℕ)
      → file_owner last.ports q ≡ unless_test (λ h. str_eq h handle) (file_owner n.ports q)
  down-file_owner handle n last readable finished q =
      elim (down-cases host io_works m narrow handle n readable) [
        | inl (e, o, failed, same, why) ↦ absurd (ground (arith, sym failed ∙ finished))
        | inr (o, done, owners) ↦
            let here : o ≡ last = ap (λ r. r.1) (sym done ∙ finished) in
            ap (λ p. file_owner p.ports q) (sym here) ∙ owners q
      ]

  -- Where the state file can be read and written, and the range of ports ends at 2 ^ 32 or below: a
  -- message down that is answered without an error, after a message up of the same handle that ended
  -- in any way, leaves the state file without the handle's ports, and every other port with the owner
  -- that it had before.
  pub served-file_owner :
      (handle : String) (ns_fd later_fd : Option ℕ) (stdin later : Result (UpInputs Value Rule))
      (n last : Node Plugin World) (text : String)
      → n.ports ≢ corrupt
      → served "down" handle later_fd later ((served "up" handle ns_fd stdin n).1) ≡ (ok text, last)
      → (q : ℕ)
      → file_owner last.ports q ≡ unless_test (λ h. str_eq h handle) (file_owner n.ports q)
  served-file_owner handle ns_fd later_fd (err e) later n last text readable finished q =
      let (named, downed) = down-served handle later_fd later _ last text finished in
      let here = ap (λ r. r.1) (served-up handle ns_fd (err e) n named) in
      down-file_owner handle n last readable (ap (down host m handle) (sym here) ∙ downed) q
  served-file_owner handle ns_fd later_fd (ok inputs) later n last text readable finished q =
      let (named, downed) = down-served handle later_fd later _ last text finished in
      let ran = up host m handle inputs ns_fd n in
      let here =
        ap (λ r. r.1) (served-up handle ns_fd (ok inputs) n named) ∙ write_outputs-state ran in
      down-up-file_owner host io_works m narrow handle inputs ns_fd n last readable
        (ap (down host m handle) (sym here) ∙ downed) q
