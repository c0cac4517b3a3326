-- ===== src/Store/Reads/Examples.antt =====
-- ByGuids on two policies of one destination.
use cf_networking_release.Prelude.{
  ℕ, String, ◌≡◌, refl, pos, false, some, List, [], ◌∷◌, ok, keep_if,
}
use cf_networking_release.Store.{next_answer}
use cf_networking_release.Store.Models.{Policy}
use cf_networking_release.Store.Tables.{Db, guid_with_id, row_with_id}
use cf_networking_release.Store.Reads.{
  tag_int_to_string, all, by_guids, policies_query, queried, iterate, no_fault, scan_rows, scan_row,
  scan_source, scan_destination, scan_found, join_row, destination_guid_of,
}
use cf_networking_release.Store.Reads.ByGuids.{asked_for, by_guids-asked_for}

abbrev two_policies : Db
two_policies = record {
  groups =
      record { id = 1; guid = some "web" }
      ∷ record { id = 2; guid = some "db" }
      ∷ record { id = 3; guid = some "job" }
      ∷ [];
  destinations =
      record {
        id = 1;
        group_id = 2;
        port = pos 5432;
        start_port = pos 5432;
        end_port = pos 5432;
        protocol = "tcp";
      }
      ∷ [];
  policies =
      record { group_id = 1; destination_id = 1 }
      ∷ record { group_id = 3; destination_id = 1 }
      ∷ [];
  next_destination_id = 2;
}

abbrev to_db : String → List ℕ → Policy
to_db source tag = record {
  source = record { id = source; tag = tag };
  destination = record {
    id = "db";
    tag = tag_int_to_string 1 2;
    protocol = "tcp";
    port = pos 5432;
    ports = record { start = pos 5432; end = pos 5432 };
  };
}

abbrev listed : List Policy
listed = to_db "web" (tag_int_to_string 1 1) ∷ to_db "job" (tag_int_to_string 1 3) ∷ []

all-listed :
    all 1 (λ rows. rows) (record { db = two_policies; faults = [] })
    ≡ (ok listed, record { db = two_policies; faults = [] })
unfolding all policies_query queried iterate no_fault next_answer scan_rows scan_row scan_source
    scan_destination scan_found join_row destination_guid_of guid_with_id row_with_id
all-listed = refl

by_guids-asked_for_example :
    by_guids 1
      (λ rows. rows)
      ("job" ∷ [])
      ("web" ∷ [])
      false
      (record { db = two_policies; faults = [] })
    ≡ (
      ok (keep_if (asked_for ("job" ∷ []) ("web" ∷ []) false) listed),
      record { db = two_policies; faults = [] },
    )
by_guids-asked_for_example =
    by_guids-asked_for 1 (λ rows. rows) ("job" ∷ []) ("web" ∷ []) false two_policies listed
      all-listed
