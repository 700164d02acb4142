-- ===== src/Rule/Readings.antt =====
-- What Rule.Snapshot of model/rule.go reads, and how long a verdict on a cycle is kept.
use text.Mathlib.TextEquality.{eq_iff}
use nezha_diff.Base.{
  ℕ, ◌≡◌, refl, sym, subst, ap, ◌∙◌, Bool, true, false, not, arith, nat_eq, nat_beq_iff, string_eq,
  ◌==◌, ltb, Bool-cases, inl, inr,
}
use nezha_diff.Word.{add_uint}
use nezha_diff.Float64.{Float64}
use nezha_diff.Outcome.{Outcome, ok, ◌>>=◌, ok-of->>=, ok-injective}
use nezha_diff.GoMap.{lookup, lookup-insert}
use nezha_diff.ServerClass.{Server}
use nezha_diff.Text.{has_suffix}
use nezha_diff.Rule.{Rule, is_transfer_duration_rule}
use nezha_diff.Rule.Snapshot.{
  Transfers, CycleTransferStats, flag_of, time_of, source, out_of_range, update_cycle, is_skipped,
  passes, snapshot,
}

offline-suffix : has_suffix "offline" "_cycle" ≡ true → ⊥
unfolding has_suffix
offline-suffix h = cc h

module _ {F : Type 0} ⦃fl : Float64 F⦄ where
  cycle-not-offline :
      (u : Rule F) → is_transfer_duration_rule u ≡ true → (u.type == "offline") ≡ false
  unfolding is_transfer_duration_rule has_suffix
  cycle-not-offline u h = elim (Bool-cases (u.type == "offline")) [
    | inl e ↦ absurd (
        offline-suffix
          (subst (λ t. has_suffix t "_cycle" ≡ true) ((eq_iff u.type "offline").0 e) h))
    | inr f ↦ f
  ]

  -- Before the next check of a cycle, the stored verdict is given.
  snapshot_early :
      (u : Rule F) (stats : CycleTransferStats) (other : Server F) (later : ℕ)
      (cycle : Outcome (ℕ × ℕ)) (db : Transfers)
      → is_transfer_duration_rule u ≡ true
      → is_skipped u other ≡ false
      → ltb later (time_of (lookup other.id u.next_transfer_at)) ≡ true
      → snapshot u stats other later cycle db
        ≡ ok ((u, stats), flag_of (lookup other.id u.last_cycle_status))
  unfolding snapshot
  snapshot_early u stats other later cycle db d s t = ground (arith, d, s, t)

  is_skipped-update_cycle :
      (u : Rule F) (server other : Server F) (now : ℕ) (src : F) (c : ℕ × ℕ)
      (stats : CycleTransferStats)
      → other.id ≡ server.id
      → is_skipped ((update_cycle u server now src c stats).0) other ≡ is_skipped u server
  unfolding update_cycle is_skipped
  is_skipped-update_cycle u server other now src c stats e = rw e refl

  stored_verdict :
      (u : Rule F) (server : Server F) (now : ℕ) (src : F) (c : ℕ × ℕ) (stats : CycleTransferStats)
      → is_transfer_duration_rule u ≡ true
      → flag_of (lookup server.id ((update_cycle u server now src c stats).0).last_cycle_status)
        ≡ passes u now src
  unfolding update_cycle passes
  stored_verdict u server now src c stats d = ground (
    arith,
    cycle-not-offline u d,
    lookup-insert server.id server.id (not (out_of_range u src)) u.last_cycle_status,
    nat_beq_iff server.id server.id,
  )

  update_cycle-is_cycle :
      (u : Rule F) (server : Server F) (now : ℕ) (src : F) (c : ℕ × ℕ) (stats : CycleTransferStats)
      → is_transfer_duration_rule u ≡ true
      → is_transfer_duration_rule ((update_cycle u server now src c stats).0) ≡ true
  unfolding update_cycle is_transfer_duration_rule
  update_cycle-is_cycle u server now src c stats d = d

  -- A verdict that was stored is given again.
  repeated :
      (u : Rule F) (server other : Server F) (now later : ℕ) (src : F) (c : ℕ × ℕ)
      (stats : CycleTransferStats) (cycle : Outcome (ℕ × ℕ)) (db : Transfers)
      (w : Rule F × CycleTransferStats)
      → update_cycle u server now src c stats ≡ w
      → is_transfer_duration_rule u ≡ true
      → is_skipped u server ≡ false
      → other.id ≡ server.id
      → ltb later (time_of (lookup server.id (w.0).next_transfer_at)) ≡ true
      → snapshot w.0 w.1 other later cycle db ≡ ok (w, passes u now src)
  repeated u server other now later src c stats cycle db w p d s e t =
      let cycle_rule : is_transfer_duration_rule w.0 ≡ true =
        subst (λ x. is_transfer_duration_rule x.0 ≡ true) p
          (update_cycle-is_cycle u server now src c stats d) in
      let covered : is_skipped w.0 other ≡ false =
        subst (λ x. is_skipped x.0 other ≡ false) p
          (is_skipped-update_cycle u server other now src c stats e ∙ s) in
      let verdict : flag_of (lookup other.id (w.0).last_cycle_status) ≡ passes u now src =
        subst (λ i. flag_of (lookup i (w.0).last_cycle_status) ≡ passes u now src) (sym e)
          (subst (λ x. flag_of (lookup server.id (x.0).last_cycle_status) ≡ passes u now src) p
            (stored_verdict u server now src c stats d)) in
      let early : ltb later (time_of (lookup other.id (w.0).next_transfer_at)) ≡ true =
        subst (λ i. ltb later (time_of (lookup i (w.0).next_transfer_at)) ≡ true) (sym e) t in
      snapshot_early w.0 w.1 other later cycle db cycle_rule covered early
      ∙ ap (λ b. ok (w, b)) verdict

  -- A check that is due ends in the update of the cycle.
  snapshot_due :
      (u : Rule F) (stats : CycleTransferStats) (server : Server F) (now : ℕ)
      (cycle : Outcome (ℕ × ℕ)) (db : Transfers) (out : (Rule F × CycleTransferStats) × Bool)
      → is_transfer_duration_rule u ≡ true
      → is_skipped u server ≡ false
      → ltb now (time_of (lookup server.id u.next_transfer_at)) ≡ false
      → snapshot u stats server now cycle db ≡ ok out
      → (src : F) × (c : ℕ × ℕ) × (update_cycle u server now src c stats ≡ out.0)
        × (passes u now src ≡ out.1)
  unfolding snapshot
  snapshot_due u stats server now cycle db out d s n h =
      let run : (source u server cycle db >>= λ src.
      (cycle >>= λ c. ok (update_cycle u server now src c stats)) >>= λ updated.
      ok (updated, passes u now src))
          ≡ ok out =
        ground (arith, h, d, s, n) in
      let (src, q, _) = ok-of->>= (source u server cycle db) _ run in
      let (updated, r, t) =
        ok-of->>= (cycle >>= λ c. ok (update_cycle u server now src c stats)) _ q in
      let (c, w, _) = ok-of->>= cycle _ t in
      (src, c, ok-injective w ∙ ap (λ x. x.0) (ok-injective r), ap (λ x. x.1) (ok-injective r))

  -- Once a rule on a cycle has judged a server, it gives that verdict again, and leaves its state as
  -- it is, until the next check is due, whatever the server reports meanwhile; the rule covers the
  -- server, and a check was due when it judged.
  pub snapshot_repeats :
      (u u' : Rule F) (stats stats' : CycleTransferStats) (server other : Server F) (now later : ℕ)
      (cycle cycle' : Outcome (ℕ × ℕ)) (db db' : Transfers) (verdict : Bool)
      → is_transfer_duration_rule u ≡ true
      → is_skipped u server ≡ false
      → ltb now (time_of (lookup server.id u.next_transfer_at)) ≡ false
      → snapshot u stats server now cycle db ≡ ok ((u', stats'), verdict)
      → other.id ≡ server.id
      → ltb later (time_of (lookup server.id u'.next_transfer_at)) ≡ true
      → snapshot u' stats' other later cycle' db' ≡ ok ((u', stats'), verdict)
  snapshot_repeats u u' stats stats' server other now later cycle cycle' db db' verdict d s n h e
        t =
      let (src, c, p, v) =
        snapshot_due u stats server now cycle db ((u', stats'), verdict) d s n h in
      repeated u server other now later src c stats cycle' db' (u', stats') p d s e t
      ∙ ap (λ b. ok ((u', stats'), b)) v

  source-net_all_speed :
      (u : Rule F) (server : Server F) (cycle : Outcome (ℕ × ℕ)) (db : Transfers)
      → u.type ≡ "net_all_speed"
      → source u server cycle db
        ≡ ok (fl.of_uint (add_uint server.state.net_out_speed server.state.net_out_speed))
  unfolding source
  source-net_all_speed u server cycle db e = rw e refl

  -- A rule on the speed in both directions does not read the speed inwards.
  pub net_all_speed-ignores_in :
      (u : Rule F) (stats : CycleTransferStats) (server : Server F) (speed : ℕ) (now : ℕ)
      (cycle : Outcome (ℕ × ℕ)) (db : Transfers)
      → u.type ≡ "net_all_speed"
      → snapshot u stats
          (record server { state = record server.state { net_in_speed = speed } })
          now
          cycle
          db
        ≡ snapshot u stats server now cycle db
  unfolding snapshot is_skipped update_cycle
  net_all_speed-ignores_in u stats server speed now cycle db e = rw (
    source-net_all_speed u server cycle db e,
    source-net_all_speed u (record server { state = record server.state { net_in_speed = speed } })
        cycle db e,
  )
