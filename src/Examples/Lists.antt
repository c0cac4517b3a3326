-- ===== src/Examples/Lists.antt =====
-- Chunks of three, and iptables under a lock that the world keeps as a flag.
use cf_networking_release.Prelude.{
  ℕ, ◌≡◌, pos, Bool, true, false, none, some, List, [], ◌∷◌, ◌++◌, All, concat, message, Result, ok,
  err, Bytes, codes, if◌then◌else◌,
}
use cf_networking_release.Prelude.Print.{print_int}
use cf_networking_release.Chunk.{chunk, get_chunk_size}
use cf_networking_release.Chunk.Laws.{Fits, concat-chunk}
use cf_networking_release.LockedIptables.{
  Rule, IpTables, Locker, bulk_text, exists, delete, list, new_chain, clear_chain, delete_chain,
  bulk_insert, bulk_append,
}
use cf_networking_release.LockedIptables.Laws.{IsLocked, calls-IsLocked}

abbrev four : List ℕ
four = 1 ∷ 2 ∷ 3 ∷ 4 ∷ []

concat-chunk_example :
    (concat (chunk (pos 3) four) ≡ four) × All (Fits (get_chunk_size (pos 3))) (chunk (pos 3) four)
concat-chunk_example = concat-chunk (pos 3) four

-- The lock is a flag; a lock that is held is refused.
abbrev flag : Locker Bool
flag = record {
  lock = λ held. (if held then some (message "held") else none, true);
  unlock = λ held. (none, false);
}

abbrev accepting : IpTables Bool
accepting = record {
  exists = λ table chain rule w. (ok true, w);
  delete = λ table chain rule w. (err (message "no rule"), w);
  list = λ table chain w. (ok [], w);
  new_chain = λ table chain w. (ok tt, w);
  clear_chain = λ table chain w. (ok tt, w);
  delete_chain = λ table chain w. (ok tt, w);
}

abbrev restored : Bytes → Bool → Result (Unit {0}) × Bool
restored text w = (ok tt, w)

abbrev filter : Bytes
filter = codes "filter"

abbrev forward : Bytes
forward = codes "FORWARD"

abbrev accept : Rule
accept = codes "-j" ∷ codes "ACCEPT" ∷ []

calls-IsLocked_example :
    IsLocked flag
      (accepting.exists filter forward accept)
      (exists flag accepting restored filter forward accept)
      false
    × IsLocked flag
        (accepting.delete filter forward accept)
        (delete flag accepting restored filter forward accept)
        false
    × IsLocked flag
        (accepting.list filter forward)
        (list flag accepting restored filter forward)
        false
    × IsLocked flag
        (accepting.new_chain filter forward)
        (new_chain flag accepting restored filter forward)
        false
    × IsLocked flag
        (accepting.clear_chain filter forward)
        (clear_chain flag accepting restored filter forward)
        false
    × IsLocked flag
        (accepting.delete_chain filter forward)
        (delete_chain flag accepting restored filter forward)
        false
    × IsLocked flag
        (restored (
          bulk_text filter
            (codes "-I " ++ forward ++ codes " " ++ print_int (pos 1))
            (accept ∷ [])))
        (bulk_insert flag accepting restored filter forward (pos 1) (accept ∷ []))
        false
    × IsLocked flag
        (restored (bulk_text filter (codes "-A " ++ forward) (accept ∷ [])))
        (bulk_append flag accepting restored filter forward (accept ∷ []))
        false
calls-IsLocked_example =
    calls-IsLocked flag accepting restored filter forward accept (accept ∷ []) (pos 1) false
