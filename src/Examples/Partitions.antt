-- ===== src/Examples/Partitions.antt =====
-- Routes 0 to 26 in parts of 13.
use cf_networking_release.Prelude.{◌≡◌, arith}
use cf_networking_release.Routes.{partition_range, route_numbers}
use cf_networking_release.Routes.Partition.{routes_of_parts, partition_range-covers}

partition_range-covers_example : routes_of_parts (partition_range 0 27 13) ≡ route_numbers 27 0
partition_range-covers_example =
    partition_range-covers 0 27 13 (omega arith) (omega arith) (omega arith)
