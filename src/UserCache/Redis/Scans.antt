-- ===== src/UserCache/Redis/Scans.antt =====
-- deleteByPattern of internal/usercache/redis.go deletes what SCAN has still to return.
use rtk_account_manager.Common.{
  ℕ, zero, suc, String, str_eq, eq_iff, ◌≡◌, refl, inl, inr, Bool, true, false, Option, some, List,
  [], ◌∷◌, if◌then◌else◌, Result, ok, err, plain, is_not_found, subst,
}
use rtk_account_manager.UserCache.Redis.{
  RedisCache, Reply, text, scan_result, nil, other, and_then, done, delete_keys, scan_command,
  after_scan, delete_by_pattern,
}
use rtk_account_manager.UserCache.Redis.Server.{IsServer, Shrinks, In}
use rtk_account_manager.UserCache.Redis.Entries.{IsQuiet, and_then-IsQuiet}

module _ {S : Type 0} (c : RedisCache S) (value : S → String → Option String)
    {Left : String → String → S → String → Type 0} (server : IsServer c value Left) where
  -- After the deletion of keys.
  abbrev Deletes : List String → S → Result (Unit {0}) × S → Type 0
  Deletes ks s (result, s') =
      Shrinks c value s s'
      × ((p cursor k : String) → Left p cursor s k → Left p cursor s' k)
      × (result ≡ ok tt → (k v : String) → In k ks → value s' k ≡ some v → ⊥)

  delete_keys-Deletes : (ks : List String) (s : S) → Deletes ks s (delete_keys c ks s)
  delete_keys-Deletes [] s = (λ k v h. h, λ p cursor k l. l, λ is k v member h. elim member [ ])
  delete_keys-Deletes (j ∷ ks) s = by_reply (c.command ("DEL" ∷ j ∷ ks) s).0 refl
    where
      by_reply :
          (r : Result Reply)
          → (c.command ("DEL" ∷ j ∷ ks) s).0 ≡ r
          → Deletes (j ∷ ks) s (and_then (r, (c.command ("DEL" ∷ j ∷ ks) s).1) done)
      by_reply (err x) was = (
        server.del_shrinks (j ∷ ks) s,
        λ p cursor k l. server.del_keeps_left (j ∷ ks) p cursor k s l,
        λ is. absurd (cc (is)),
      )
      by_reply (ok reply) was = (
        server.del_shrinks (j ∷ ks) s,
        λ p cursor k l. server.del_keeps_left (j ∷ ks) p cursor k s l,
        λ is k v member h. server.del_removes (j ∷ ks) k v s reply was member h,
      )

  -- After a scan from a cursor, no key is left that was still to come.
  abbrev Clears : String → String → S → Result (Unit {0}) × S → Type 0
  Clears p cursor s (result, s') =
      Shrinks c value s s'
      × (result ≡ ok tt → (k v : String) → Left p cursor s k → value s' k ≡ some v → ⊥)

  -- One turn, where the turns after it clear what is left.
  turn-Clears :
      (p : String) (again : String → S → Result (Unit {0}) × S)
      → ((cursor : String) (s : S) → Clears p cursor s (again cursor s))
      → (cursor : String) (s : S)
      → Clears p cursor s (and_then (c.command (scan_command p cursor) s) (after_scan c again))
  turn-Clears p again rest cursor s = by_reply (c.command (scan_command p cursor) s).0 refl
    where
      s₁ : S
      s₁ = (c.command (scan_command p cursor) s).1

      shrinks : Shrinks c value s s₁
      shrinks = server.scan_shrinks p cursor s

      by_test :
          (next : String) (ks : List String)
          → (c.command (scan_command p cursor) s).0 ≡ ok (scan_result next ks)
          → (s₂ : S) → Deletes ks s₁ (ok tt, s₂)
          → (b : Bool) → str_eq next "0" ≡ b
          → Clears p cursor s (if b then (ok tt, s₂) else again next s₂)
      by_test next ks was s₂ (smaller, keeps, removes) true last = (
        λ k v h. shrinks k v (smaller k v h),
        λ is k v left h.
            elim (server.scan_returns p cursor next ks k v s was left (smaller k v h)) [
              | inl member ↦ removes refl k v member h
              | inr (more, later) ↦ more ((eq_iff next "0").0 last)
            ],
      )
      by_test next ks was s₂ (smaller, keeps, removes) false last =
          let (fewer, clears) = rest next s₂ in
          (
            λ k v h. shrinks k v (smaller k v (fewer k v h)),
            λ is k v left h.
                let h₂ = fewer k v h in
                elim (server.scan_returns p cursor next ks k v s was left (smaller k v h₂)) [
                  | inl member ↦ removes refl k v member h₂
                  | inr (more, later) ↦ clears is k v (keeps p next k later) h
                ],
          )

      by_deletion :
          (next : String) (ks : List String)
          → (c.command (scan_command p cursor) s).0 ≡ ok (scan_result next ks)
          → (r : Result (Unit {0})) (s₂ : S) → Deletes ks s₁ (r, s₂)
          → Clears p cursor s
              (and_then (r, s₂) (λ _ s'. if str_eq next "0" then (ok tt, s') else again next s'))
      by_deletion next ks was (err x) s₂ (smaller, keeps, removes) =
          (λ k v h. shrinks k v (smaller k v h), λ is. absurd (cc (is)))
      by_deletion next ks was (ok tt) s₂ deleted =
          by_test next ks was s₂ deleted (str_eq next "0") refl

      by_reply :
          (r : Result Reply)
          → (c.command (scan_command p cursor) s).0 ≡ r
          → Clears p cursor s (and_then (r, s₁) (after_scan c again))
      by_reply (err x) was = (shrinks, λ is. absurd (cc (is)))
      by_reply (ok (text t)) was = (shrinks, λ is. absurd (cc (is)))
      by_reply (ok nil) was = (shrinks, λ is. absurd (cc (is)))
      by_reply (ok other) was = (shrinks, λ is. absurd (cc (is)))
      by_reply (ok (scan_result next ks)) was =
          by_deletion next ks was (delete_keys c ks s₁).0 (delete_keys c ks s₁).1
            (delete_keys-Deletes ks s₁)

  pub delete_by_pattern-Clears :
      (n : ℕ) (p cursor : String) (s : S) → Clears p cursor s (delete_by_pattern c n p cursor s)
  unfolding delete_by_pattern
  delete_by_pattern-Clears zero p cursor s = (λ k v h. h, λ is. absurd (cc (is)))
  delete_by_pattern-Clears (suc n) p cursor s =
      turn-Clears p (delete_by_pattern c n p) (λ next s'. delete_by_pattern-Clears n p next s')
        cursor s

  delete_keys-IsQuiet : (ks : List String) (s : S) → IsQuiet (delete_keys c ks s)
  delete_keys-IsQuiet [] s = λ e is. absurd (cc (is))
  delete_keys-IsQuiet (k ∷ ks) s =
      and_then-IsQuiet (c.command ("DEL" ∷ k ∷ ks) s) done (λ e is. server.command_logged _ s e is)
        (λ reply s' e is. absurd (cc (is)))

  pub fails-IsQuiet : (message : String) (s : S) → IsQuiet {A = Unit {0}} (err (plain message), s)
  fails-IsQuiet message s e is =
      let same : plain message ≡ e = cc (is) in subst (λ y. is_not_found y ≡ false) same refl

  after_scan-IsQuiet :
      (again : String → S → Result (Unit {0}) × S)
      → ((cursor : String) (s : S) → IsQuiet (again cursor s))
      → (reply : Reply) (s : S) → IsQuiet (after_scan c again reply s)
  after_scan-IsQuiet again rest (text t) s = fails-IsQuiet "unexpected SCAN response" s
  after_scan-IsQuiet again rest nil s = fails-IsQuiet "unexpected SCAN response" s
  after_scan-IsQuiet again rest other s = fails-IsQuiet "unexpected SCAN response" s
  after_scan-IsQuiet again rest (scan_result next ks) s =
      and_then-IsQuiet (delete_keys c ks s)
        (λ _ s'. if str_eq next "0" then (ok tt, s') else again next s') (delete_keys-IsQuiet ks s)
        (λ _ s'. by_test s' (str_eq next "0"))
    where
      by_test : (s' : S) (b : Bool) → IsQuiet (if b then (ok tt, s') else again next s')
      by_test s' true = λ e is. absurd (cc (is))
      by_test s' false = rest next s'

  pub delete_by_pattern-IsQuiet :
      (n : ℕ) (p cursor : String) (s : S) → IsQuiet (delete_by_pattern c n p cursor s)
  unfolding delete_by_pattern
  delete_by_pattern-IsQuiet zero p cursor s = fails-IsQuiet "context deadline exceeded" s
  delete_by_pattern-IsQuiet (suc n) p cursor s =
      and_then-IsQuiet (c.command (scan_command p cursor) s)
        (after_scan c (delete_by_pattern c n p)) (λ e is. server.command_logged _ s e is)
        (after_scan-IsQuiet (delete_by_pattern c n p)
          (λ next s'. delete_by_pattern-IsQuiet n p next s'))
