-- ===== src/Examples/Names.antt =====
-- The address table with a fresh and a stale address of one name.
use cf_networking_release.Prelude.{
  ◌+◌, ◌≡◌, ◌||◌, [], ◌∷◌, Bytes, codes, contains, ltb, str_eq, if◌then◌else◌,
}
use cf_networking_release.AddressTable.{
  AddressTable, new_address_table, add, lookup_ips, prune_stale_entries, tick, fqdn,
}
use cf_networking_release.AddressTable.View.{
  IsTable, last_seen, registered, last_seen-add, add-IsTable, new_address_table-IsTable,
}
use cf_networking_release.AddressTable.Removal.{is_some, contains-lookup_ips}
use cf_networking_release.AddressTable.Prune.{
  is_listed, unless_stale, last_seen-prune_stale_entries, last_seen-tick,
}

abbrev host : Bytes
host = codes "app.internal."

-- 10.0.0.1 was registered at time 5, 10.0.0.2 at time 90; an entry is stale after 20.
table : AddressTable
table =
    add (add (new_address_table 20 0) ((codes "app.internal", 5) ∷ []) "10.0.0.1") ((host, 90) ∷ [])
      "10.0.0.2"

table-IsTable : IsTable table
unfolding table
table-IsTable =
    add-IsTable _ ((host, 90) ∷ []) "10.0.0.2"
      (add-IsTable _ ((codes "app.internal", 5) ∷ []) "10.0.0.1" (new_address_table-IsTable 20 0))

last_seen-add_example : last_seen (add table ((host, 95) ∷ []) "10.0.0.1") host "10.0.0.1" ≡ (
    if str_eq "10.0.0.1" "10.0.0.1"
    then registered ((host, 95) ∷ []) host (last_seen table host "10.0.0.1")
    else last_seen table host "10.0.0.1")
last_seen-add_example = last_seen-add table ((host, 95) ∷ []) "10.0.0.1" host "10.0.0.1"

contains-lookup_ips_example :
    contains "10.0.0.2" (lookup_ips table (codes "app.internal"))
    ≡ is_some (last_seen table (fqdn (codes "app.internal")) "10.0.0.2")
contains-lookup_ips_example = contains-lookup_ips table (codes "app.internal") "10.0.0.2"

last_seen-prune_stale_entries_example :
    last_seen (prune_stale_entries table 100 (host ∷ [])) host "10.0.0.1" ≡ (
      if is_listed (host ∷ []) host
      then unless_stale table.staleness_threshold 100 (last_seen table host "10.0.0.1")
      else last_seen table host "10.0.0.1")
last_seen-prune_stale_entries_example =
    last_seen-prune_stale_entries table 100 (host ∷ []) host "10.0.0.1" table-IsTable

last_seen-tick_example : last_seen (tick table 100) host "10.0.0.1" ≡ (
    if table.paused_pruning || ltb 100 (table.last_resume + table.resume_pruning_delay)
    then last_seen table host "10.0.0.1"
    else unless_stale table.staleness_threshold 100 (last_seen table host "10.0.0.1"))
last_seen-tick_example = last_seen-tick table 100 host "10.0.0.1" table-IsTable
