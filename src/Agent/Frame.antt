-- ===== src/Agent/Frame.antt =====
-- What a report leaves alone in the registry of service/singleton/server.go.
use nezha_diff.Base.{ℕ, ◌≡◌, refl, false, some, arith, nat_eq, string_eq, nat_beq, nat_beq_iff}
use nezha_diff.GoMap.{lookup, lookup-insert}
use nezha_diff.Host.Messages.{PbState, PbHost}
use nezha_diff.ServerClass.{Server, ServerClass}
use nezha_diff.ServerClass.Index.{IsIndexed}
use nezha_diff.Agent.{
  record_server, on_state, on_host, write, report_system_state, on_report_system_info,
}

module _ {F : Type 0} where
  write-IsIndexed :
      (c : ServerClass F) (id : ℕ) (old new : Server F)
      → lookup id c.list ≡ some old
      → new.uuid ≡ old.uuid
      → IsIndexed c
      → IsIndexed (write id new c)
  unfolding write
  write-IsIndexed c id old new e same v = record {
    by_id = λ j u h. ground (arith, lookup-insert id j new c.list, nat_beq_iff id j, v.by_id j u);
    by_uuid =
        λ u j h. ground (arith, lookup-insert id j new c.list, nat_beq_iff id j, v.by_uuid u j);
  }

  -- The state of the registry after a write to the server of a number.
  abbrev pub Changed : ServerClass F → ServerClass F → ℕ → Server F → Type 0
  Changed c d id new =
      IsIndexed d
      × (lookup id d.list ≡ some new)
      × ((j : ℕ) → nat_beq id j ≡ false → lookup j d.list ≡ lookup j c.list)
      × (d.uuid_to_id ≡ c.uuid_to_id)

  write-Changed :
      (c : ServerClass F) (id : ℕ) (old new : Server F)
      → lookup id c.list ≡ some old
      → new.uuid ≡ old.uuid
      → IsIndexed c
      → Changed c (write id new c) id new
  unfolding write
  write-Changed c id old new e same v = (
    write-IsIndexed c id old new e same v,
    ground (arith, lookup-insert id id new c.list, nat_beq_iff id id),
    (λ j h. ground (arith, lookup-insert id j new c.list)),
    refl,
  )

  on_state-uuid :
      (now : ℕ) (state : PbState F) (s : Server F) → (on_state now state s).uuid ≡ s.uuid
  unfolding on_state
  on_state-uuid now state s = ground arith

  on_host-uuid : (hour : ℕ) (host : PbHost) (s : Server F) → ((on_host hour host s).1).uuid ≡ s.uuid
  unfolding on_host record_server
  on_host-uuid hour host s = ground arith

  -- A report of a registered server is accepted: it writes that server alone, the index from UUIDs
  -- to numbers stays right. The same holds of a report of the host, which returns the rows to record.
  report_frame :
      (c : ServerClass F) (client now : ℕ) (state : PbState F) (host : PbHost) (s : Server F)
      → IsIndexed c
      → lookup client c.list ≡ some s
      → ((d : ServerClass F) × (report_system_state c client now state ≡ some d)
          × Changed c d client (on_state now state s))
        × ((d : ServerClass F) × (on_report_system_info c client now host
              ≡ some ((on_host now host s).0, d))
            × Changed c d client ((on_host now host s).1))
  unfolding report_system_state on_report_system_info
  report_frame c client now state host s v e = (
    (
      write client (on_state now state s) c,
      ground arith,
      write-Changed c client s (on_state now state s) e (on_state-uuid now state s) v,
    ),
    (
      write client ((on_host now host s).1) c,
      ground arith,
      write-Changed c client s ((on_host now host s).1) e (on_host-uuid now host s) v,
    ),
  )
