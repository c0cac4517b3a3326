-- ===== src/Examples/Stores.antt =====
-- The policy store on a database with two groups and a blank row.
use cf_networking_release.Prelude.{
  ◌≢◌, length, ◌*◌, ℕ, String, ◌≡◌, refl, pos, none, some, List, [], ◌∷◌, wrap, no_rows, ok, err,
  ◌⊎◌, str_eq, if◌then◌else◌, arith,
}
use mathlib.Core.Path.{subst}
use cf_networking_release.Prelude.Print.{read_hex}
use cf_networking_release.Store.Reads.{tag_int_to_string}
use cf_networking_release.Store.TagText.{read_hex-tag_int_to_string}
use cf_networking_release.Store.Models.{Policy}
use cf_networking_release.Store.Tables.{GroupRow, Db}
use cf_networking_release.Store.Groups
use cf_networking_release.Store.Groups.{row_with_guid, least_blank}
use cf_networking_release.Store.GroupRows.{guid_at, IsTagTable}
use cf_networking_release.Store.Tags.{IsLeastBlank, create-assigns}

abbrev pub web_to_db : Policy
web_to_db = record {
  source = record { id = "web"; tag = [] };
  destination = record {
    id = "db";
    tag = [];
    protocol = "tcp";
    port = pos 5432;
    ports = record { start = pos 5432; end = pos 5432 };
  };
}

abbrev two_groups : Db
two_groups = record {
  groups =
      record { id = 1; guid = some "web" }
      ∷ record { id = 2; guid = none }
      ∷ record { id = 3; guid = some "db" }
      ∷ [];
  destinations = [];
  policies = [];
  next_destination_id = 1;
}

two_groups-IsTagTable : IsTagTable two_groups.groups
unfolding row_with_guid
two_groups-IsTagTable = (
  refl,
  λ g e.
      let same : "web" ≡ g = ground (arith, e) in
      subst (λ k. row_with_guid k (record { id = 3; guid = some "db" } ∷ []) ≡ none) same refl,
  (refl, λ g e. absurd (ground (arith, e)), (refl, λ g e. refl, tt)),
)

create-assigns_example :
    ((id : ℕ) × (rows : List GroupRow) × (Groups.create "cache"
          (record { db = two_groups; faults = [] })
        ≡ (ok id, record { db = record two_groups { groups = rows }; faults = [] }))
      × IsTagTable rows
      × ((g : String)
          → row_with_guid g rows
            ≡ (if str_eq "cache" g then some id else row_with_guid g two_groups.groups))
      × ((row_with_guid "cache" two_groups.groups ≡ some id)
          ⊎ ((row_with_guid "cache" two_groups.groups ≡ none) × IsLeastBlank two_groups.groups id)))
    ⊎ ((row_with_guid "cache" two_groups.groups ≡ none)
        × ((j : ℕ) → guid_at j two_groups.groups ≢ some none)
        × (Groups.create "cache" (record { db = two_groups; faults = [] }) ≡ (
          err (wrap "failed to find available tag" no_rows),
          record { db = two_groups; faults = [] },
        )))
create-assigns_example = create-assigns "cache" two_groups two_groups-IsTagTable

abbrev no_rows_yet : Db
no_rows_yet = record { groups = []; destinations = []; policies = []; next_destination_id = 1 }

read_hex-tag_int_to_string_example :
    (length (tag_int_to_string 2 171) ≡ 2 * 2) × (read_hex (tag_int_to_string 2 171) 0 ≡ 171)
read_hex-tag_int_to_string_example = read_hex-tag_int_to_string 2 171 (omega arith) (omega arith)
