-- ===== src/LockedIptables/Laws.antt =====
-- Each call is made under the lock, and the text of a bulk action is read back rule by rule.
use cf_networking_release.Prelude.{
  ℕ, ◌≢◌, ◌≡◌, refl, ℤ, none, some, List, [], ◌∷◌, ◌++◌, ◌==◌, All, Error, wrap, Result, ok, err,
  Bytes, codes, ◌⊎◌, inl, inr, Option-cases, Result-cases, if◌then◌else◌,
}
use cf_networking_release.Prelude.Print.{print_int}
use cf_networking_release.LockedIptables.{
  Rule, IpTables, Locker, bulk_text, handle_iptables_error, under_lock, exists, bulk_insert,
  bulk_append, delete, list, new_chain, clear_chain, delete_chain,
}

-- The lock is refused, and nothing more happens; or it is taken, then the call is made, then the lock
-- is given back, and the call succeeds exactly if the action and Unlock do.
abbrev pub IsLocked :
    {W A : Type 0} → Locker W → (W → Result A × W) → (W → Result A × W) → W → Type 0
IsLocked {W} {A} locker action call w =
    ((e : Error) × ((locker.lock w).0 ≡ some e)
      × (call w ≡ (err (wrap "lock" e), (locker.lock w).1)))
    ⊎ (((locker.lock w).0 ≡ none)
        × ((call w).1 ≡ (locker.unlock (action (locker.lock w).1).1).1)
        × (((a : A) × ((action (locker.lock w).1).0 ≡ ok a)
              × ((locker.unlock (action (locker.lock w).1).1).0 ≡ none)
              × ((call w).0 ≡ ok a))
            ⊎ ((e : Error) × ((call w).0 ≡ err e)
                × (((failed : Error) × ((action (locker.lock w).1).0 ≡ err failed))
                    ⊎ ((locker.unlock (action (locker.lock w).1).1).0 ≡ some e)))))

under_lock-IsLocked :
    {W A : Type 0} (locker : Locker W) (action : W → Result A × W) (w : W)
    → IsLocked locker action (under_lock locker action) w
under_lock-IsLocked locker action w = elim (Option-cases (locker.lock w).0) [
  | inr (e, refused) ↦ inl (e, refused, rw refused refl)
  | inl taken ↦ elim (Result-cases (action (locker.lock w).1).0) [
    | inr (e, failed) ↦ inr (
      taken,
      rw (taken, failed) refl,
      inr (
        handle_iptables_error e (locker.unlock (action (locker.lock w).1).1).0,
        rw (taken, failed) refl,
        inl (e, failed),
      ),
    )
    | inl (a, done) ↦ elim (Option-cases (locker.unlock (action (locker.lock w).1).1).0) [
      | inr (e, stuck) ↦
          inr
            (taken, rw (taken, done, stuck) refl, inr (e, rw (taken, done, stuck) refl, inr stuck))
      | inl given ↦
          inr (
            taken,
            rw (taken, done, given) refl,
            inl (a, done, given, rw (taken, done, given) refl),
          )
    ]
  ]
]

-- Exists, Delete, List, NewChain, ClearChain, DeleteChain and the bulk actions each make their one
-- call of iptables, or of iptables-restore with the text of all the rules, under the lock: on every
-- path a lock that was taken is given back after the call.
pub calls-IsLocked :
    {W : Type 0} (locker : Locker W) (iptables : IpTables W)
    (restore : Bytes → W → Result (Unit {0}) × W) (table chain : Bytes) (rule : Rule)
    (rules : List Rule) (position : ℤ) (w : W)
    → IsLocked locker
        (iptables.exists table chain rule)
        (exists locker iptables restore table chain rule)
        w
      × IsLocked locker
          (iptables.delete table chain rule)
          (delete locker iptables restore table chain rule)
          w
      × IsLocked locker (iptables.list table chain) (list locker iptables restore table chain) w
      × IsLocked locker
          (iptables.new_chain table chain)
          (new_chain locker iptables restore table chain)
          w
      × IsLocked locker
          (iptables.clear_chain table chain)
          (clear_chain locker iptables restore table chain)
          w
      × IsLocked locker
          (iptables.delete_chain table chain)
          (delete_chain locker iptables restore table chain)
          w
      × IsLocked locker
          (restore
            (bulk_text table (codes "-I " ++ chain ++ codes " " ++ print_int position) rules))
          (bulk_insert locker iptables restore table chain position rules)
          w
      × IsLocked locker
          (restore (bulk_text table (codes "-A " ++ chain) rules))
          (bulk_append locker iptables restore table chain rules)
          w
unfolding exists delete list new_chain clear_chain delete_chain bulk_insert bulk_append
calls-IsLocked locker iptables restore table chain rule rules position w = (
  under_lock-IsLocked locker _ w,
  under_lock-IsLocked locker _ w,
  under_lock-IsLocked locker _ w,
  under_lock-IsLocked locker _ w,
  under_lock-IsLocked locker _ w,
  under_lock-IsLocked locker _ w,
  under_lock-IsLocked locker _ w,
  under_lock-IsLocked locker _ w,
)

abbrev to_first_line : ℕ → List Bytes → List Bytes
to_first_line c [] = (c ∷ []) ∷ []
to_first_line c (line ∷ rest) = (c ∷ line) ∷ rest

-- The lines of a text, as iptables-restore reads it: each ends with a newline.
unfoldable pub lines : Bytes → List Bytes
lines [] = []
lines (c ∷ s) = let rest = lines s in if c == 10 then [] ∷ rest else to_first_line c rest

-- No newline.
abbrev pub IsLine : Bytes → Type 0
IsLine s = All (λ c. c ≢ 10) s
