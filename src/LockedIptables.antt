-- ===== src/LockedIptables.antt =====
-- src/lib/rules/locked_iptables.go: the calls of iptables, each under a lock that other processes
-- take too. The world that the lock, iptables and iptables-restore act on is any type; a text is the
-- list of its bytes.
pub mod Laws
use cf_networking_release.Prelude.{
  String, ℤ, Bool, Option, none, some, List, [], ◌∷◌, ◌++◌, Error, wrap, wrap_both, Result, ok, err,
  Bytes, codes,
}
use cf_networking_release.Prelude.Print.{print_int}

-- IPTablesRule
abbrev pub Rule : Type 0
Rule = List Bytes

module _ (W : Type 0) where
  -- The interface iptables.
  pub record IpTables : Type 0 where
    pub exists : Bytes → Bytes → Rule → W → Result Bool × W
    pub delete : Bytes → Bytes → Rule → W → Result (Unit {0}) × W
    pub list : Bytes → Bytes → W → Result (List Bytes) × W
    pub new_chain : Bytes → Bytes → W → Result (Unit {0}) × W
    pub clear_chain : Bytes → Bytes → W → Result (Unit {0}) × W
    pub delete_chain : Bytes → Bytes → W → Result (Unit {0}) × W

  -- The interface locker: an error, or none.
  pub record Locker : Type 0 where
    pub lock : W → Option Error × W
    pub unlock : W → Option Error × W

-- strings.Join(r, " ")
unfoldable pub join : Rule → Bytes
join [] = []
join (word ∷ []) = word
join (word ∷ next ∷ rule) = word ++ (codes " " ++ join (next ∷ rule))

abbrev pub rule_line : Bytes → Rule → Bytes
rule_line prefix rule = prefix ++ (codes " " ++ join rule)

unfoldable pub rule_lines : Bytes → List Rule → Bytes
unfolding join
rule_lines prefix [] = codes "COMMIT" ++ 10 ∷ []
rule_lines prefix (rule ∷ rules) = rule_line prefix rule ++ 10 ∷ rule_lines prefix rules

-- What bulkAction hands to iptables-restore.
unfoldable pub bulk_text : Bytes → Bytes → List Rule → Bytes
unfolding rule_lines
bulk_text table prefix rulespec = codes "*" ++ table ++ 10 ∷ rule_lines prefix rulespec

-- handleIPTablesError(err1, err2), where err2 may be nil.
abbrev pub handle_iptables_error : Error → Option Error → Error
handle_iptables_error e none = wrap "iptables call: %+v and unlock: %+v" e
handle_iptables_error e (some failed) = wrap_both "iptables call: %+v and unlock: %+v" e failed

module _ {W : Type 0} (locker : Locker W) where
  module _ {A : Type 0} where
    -- The result of the call and of Unlock; a value beside an error of Unlock is not kept.
    abbrev pub unlocked : Result A → Option Error × W → Result A × W
    unlocked (err e) (answer, w) = (err (handle_iptables_error e answer), w)
    unlocked (ok a) (none, w) = (ok a, w)
    unlocked (ok a) (some e, w) = (err e, w)

    abbrev pub if_locked : (W → Result A × W) → Option Error × W → Result A × W
    if_locked call (some e, w) = (err (wrap "lock" e), w)
    if_locked call (none, w) = let (r, v) = call w in unlocked r (locker.unlock v)

    abbrev pub under_lock : (W → Result A × W) → W → Result A × W
    under_lock call w = if_locked call (locker.lock w)

  module _ (iptables : IpTables W) (restore : Bytes → W → Result (Unit {0}) × W) where
    unfoldable pub exists : Bytes → Bytes → Rule → W → Result Bool × W
    exists table chain rulespec = under_lock (iptables.exists table chain rulespec)

    unfoldable pub bulk_action : Bytes → Bytes → List Rule → W → Result (Unit {0}) × W
    unfolding bulk_text
    bulk_action table prefix rulespec = under_lock (restore (bulk_text table prefix rulespec))

    unfoldable pub bulk_insert : Bytes → Bytes → ℤ → List Rule → W → Result (Unit {0}) × W
    unfolding bulk_action
    bulk_insert table chain position rulespec =
        bulk_action table (codes "-I " ++ chain ++ codes " " ++ print_int position) rulespec

    unfoldable pub bulk_append : Bytes → Bytes → List Rule → W → Result (Unit {0}) × W
    unfolding bulk_action
    bulk_append table chain rulespec = bulk_action table (codes "-A " ++ chain) rulespec

    unfoldable pub delete : Bytes → Bytes → Rule → W → Result (Unit {0}) × W
    delete table chain rulespec = under_lock (iptables.delete table chain rulespec)

    unfoldable pub list : Bytes → Bytes → W → Result (List Bytes) × W
    list table chain = under_lock (iptables.list table chain)

    unfoldable pub chain_exec :
        Bytes → Bytes → (Bytes → Bytes → W → Result (Unit {0}) × W) → W → Result (Unit {0}) × W
    chain_exec table chain action = under_lock (action table chain)

    unfoldable pub new_chain : Bytes → Bytes → W → Result (Unit {0}) × W
    unfolding chain_exec
    new_chain table chain = chain_exec table chain iptables.new_chain

    unfoldable pub clear_chain : Bytes → Bytes → W → Result (Unit {0}) × W
    unfolding chain_exec
    clear_chain table chain = chain_exec table chain iptables.clear_chain

    unfoldable pub delete_chain : Bytes → Bytes → W → Result (Unit {0}) × W
    unfolding chain_exec
    delete_chain table chain = chain_exec table chain iptables.delete_chain
