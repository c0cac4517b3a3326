-- ===== src/Store/Noticing/Creating.antt =====
-- The calls of Create (store.go, group.go, destination.go, policy.go) notice every refusal.
use cf_networking_release.Prelude.{
  ℕ, String, ◌≢◌, refl, Option, none, some, List, [], ◌∷◌, Error, no_rows, external, message,
  number_error, wrap, wrap_text, wrap_both, Result, ok, err, inl,
}
use cf_networking_release.Store.{create_policy, create_policies}
use cf_networking_release.Store.Models.{Policy}
use cf_networking_release.Store.Tables.{Db, Session, statement, query_row}
use cf_networking_release.Store.Groups
use cf_networking_release.Store.Destinations
use cf_networking_release.Store.Policies
use cf_networking_release.Store.Extending.{answering}
use cf_networking_release.Store.Noticing.{
  AreRefusals, itself, all_left, one_used, Noticed, later-Noticed, IsNoticing, query_row-IsNoticing,
  pure-IsNoticing, raise-IsNoticing, wrapping_tx-IsNoticing, exec-IsNoticing, >>=-IsNoticing,
}

take_blank_row-IsNoticing : (guid : String) → IsNoticing (Groups.take_blank_row guid)
unfolding Groups.take_blank_row Groups.first_blank_row Groups.update_row
take_blank_row-IsNoticing guid =
    >>=-IsNoticing _ (λ id. >>=-IsNoticing _ (λ u. pure-IsNoticing id) _ (exec-IsNoticing _)) _
      (wrapping_tx-IsNoticing "failed to find available tag" _ (query_row-IsNoticing _))

create_found-IsNoticing :
    (guid : String) (found : Result ℕ) → IsNoticing (Groups.create_found guid found)
unfolding Groups.create_found
create_found-IsNoticing guid (ok id) = pure-IsNoticing id
create_found-IsNoticing guid (err no_rows) = take_blank_row-IsNoticing guid
create_found-IsNoticing guid (err (external text)) = raise-IsNoticing ℕ _
create_found-IsNoticing guid (err (message text)) = raise-IsNoticing ℕ _
create_found-IsNoticing guid (err (number_error text n)) = raise-IsNoticing ℕ _
create_found-IsNoticing guid (err (wrap text e)) = raise-IsNoticing ℕ _
create_found-IsNoticing guid (err (wrap_text text guid2 e)) = raise-IsNoticing ℕ _
create_found-IsNoticing guid (err (wrap_both text e f)) = raise-IsNoticing ℕ _

-- A refusal of the search is no missing row.
refused_search :
    (guid : String) (e : Error) (faults : List (Option Error)) (plain : Result ℕ × Session)
    (db : Db)
    → some e ≢ some no_rows
    → Noticed
        (some e ∷ faults)
        plain
        (Groups.create_found guid (err e) (record { db = db; faults = faults }))
unfolding Groups.create_found
refused_search guid no_rows faults plain db real = absurd (real refl)
refused_search guid (external text) faults plain db real = inl (_, itself, all_left _)
refused_search guid (message text) faults plain db real = inl (_, itself, all_left _)
refused_search guid (number_error text n) faults plain db real = inl (_, itself, all_left _)
refused_search guid (wrap text e) faults plain db real = inl (_, itself, all_left _)
refused_search guid (wrap_text text guid2 e) faults plain db real = inl (_, itself, all_left _)
refused_search guid (wrap_both text e f) faults plain db real = inl (_, itself, all_left _)

create_group-Noticed :
    (guid : String) (db : Db) (faults : List (Option Error))
    → ((found : Result ℕ) → IsNoticing (Groups.create_found guid found))
    → AreRefusals faults
    → Noticed faults
        (Groups.create guid (answering db))
        (Groups.create guid (record { db = db; faults = faults }))
unfolding IsNoticing Groups.create Groups.find_row_by_guid query_row statement
create_group-Noticed guid db [] each real = each _ db [] real
create_group-Noticed guid db (none ∷ faults) each real =
    later-Noticed _ _ (one_used (all_left faults)) (each _ db faults real.1)
create_group-Noticed guid db (some e ∷ faults) each real = refused_search guid e faults _ db real.0

create_group-IsNoticing : (guid : String) → IsNoticing (Groups.create guid)
unfolding IsNoticing
create_group-IsNoticing guid db faults real =
    create_group-Noticed guid db faults (create_found-IsNoticing guid) real

create_destination-IsNoticing : (k : Destinations.Key) → IsNoticing (Destinations.create k)
unfolding Destinations.create Destinations.get_id
create_destination-IsNoticing k =
    >>=-IsNoticing _ (λ u. query_row-IsNoticing _) _ (exec-IsNoticing (Destinations.insert_row k))

create_policy_row-IsNoticing : (source dest : ℕ) → IsNoticing (Policies.create source dest)
unfolding Policies.create
create_policy_row-IsNoticing source dest = exec-IsNoticing _

create_policy-IsNoticing : (p : Policy) → IsNoticing (create_policy p)
unfolding create_policy
create_policy-IsNoticing p =
    >>=-IsNoticing _
      (λ source.
        >>=-IsNoticing _
          (λ group.
            >>=-IsNoticing _
              (λ dest.
                wrapping_tx-IsNoticing "creating policy" _
                  (create_policy_row-IsNoticing source dest))
              _ (wrapping_tx-IsNoticing "creating destination" _ (create_destination-IsNoticing _)))
          _ (wrapping_tx-IsNoticing "creating group" _ (create_group-IsNoticing p.destination.id)))
      _ (wrapping_tx-IsNoticing "creating group" _ (create_group-IsNoticing p.source.id))

pub create_policies-IsNoticing : (policies : List Policy) → IsNoticing (create_policies policies)
unfolding create_policies
create_policies-IsNoticing [] = pure-IsNoticing tt
create_policies-IsNoticing (p ∷ policies) =
    >>=-IsNoticing _ (λ u. create_policies-IsNoticing policies) _ (create_policy-IsNoticing p)
