-- ===== src/Sentinel/Registry.antt =====
-- Update and Delete of service/singleton/servicesentinel.go: how services enter and leave the
-- tables of the monitor.
use nezha_diff.Base.{
  ℕ, ◌≡◌, refl, ap, map, Option, sym, subst, ◌∙◌, true, false, none, some, List, [], ◌∷◌, inl, inr,
  arith, nat_eq, nat_beq, nat_beq_iff, if◌then◌else◌, Bool-cases, Option-cases,
}
use nezha_diff.Float64.{Float64}
use nezha_diff.Outcome.{ok}
use nezha_diff.GoMap.{
  GoMap, lookup, insert, remove, has, has-insert, contains, lookup-insert, lookup-remove,
}
use nezha_diff.Sentinel.{
  Service, ServiceSentinel, zero_stats, new_item, update, cron_spec, new_task_status, delete_one,
  delete,
}
use nezha_diff.Sentinel.Days.{IsTallied, new_item-IsTallied}
use nezha_diff.Sentinel.Stats.{IsWellAhead}

has-inserted :
    {V : Type 0} (k j : ℕ) (v : V) (m : GoMap ℕ V) → has j m ≡ true → has j (insert k v m) ≡ true
has-inserted k j v m h = ground (arith, h, lookup-insert k j v m, nat_beq_iff k j)

has-own : {V : Type 0} (k : ℕ) (v : V) (m : GoMap ℕ V) → has k (insert k v m) ≡ true
has-own k v m = ground (arith, lookup-insert k k v m, nat_beq_iff k k)

-- A key of one map stays one of another when both take a new key.
pub insert-keys :
    {V W : Type 0} (k j : ℕ) (v : V) (w : W) (m : GoMap ℕ V) (n : GoMap ℕ W)
    → (has j m ≡ true → has j n ≡ true)
    → has j (insert k v m) ≡ true
    → has j (insert k w n) ≡ true
insert-keys k j v w m n f h =
    ground (arith, h, lookup-insert k j v m, lookup-insert k j w n, nat_beq_iff k j, f)

remove-keys :
    {V W : Type 0} (k j : ℕ) (m : GoMap ℕ V) (n : GoMap ℕ W)
    → (has j m ≡ true → has j n ≡ true)
    → has j (remove k m) ≡ true
    → has j (remove k n) ≡ true
remove-keys k j m n f h =
    ground (arith, h, lookup-remove k j m, lookup-remove k j n, nat_beq_iff k j, f)

module _ {F : Type 0} ⦃fl : Float64 F⦄ where
  known-IsWell :
      (lead : ℕ → ℕ × ℕ) (ss : ServiceSentinel F) (k : ℕ) (s old : Service F)
      → lookup k ss.services ≡ some old
      → IsWellAhead lead ss
      → IsWellAhead lead (record ss { services = insert k s ss.services })
  known-IsWell lead ss k s old e w = record {
    service_month = λ j h. w.service_month j (sym (has-insert k j s old ss.services e) ∙ h);
    service_current = λ j h. w.service_current j (sym (has-insert k j s old ss.services e) ∙ h);
    month_today = w.month_today;
    stored_month = w.stored_month;
    tallied = w.tallied;
  }

  -- How far the totals are ahead after an update: a new service starts from 0.
  abbrev pub updated_lead : Option (Service F) → ℕ → (ℕ → ℕ × ℕ) → ℕ → ℕ × ℕ
  updated_lead none id lead j = if nat_beq id j then (0, 0) else lead j
  updated_lead (some old) id lead j = lead j

  -- The tables with a service that is new.
  abbrev added : ServiceSentinel F → ℕ → Service F → Service F → ServiceSentinel F
  added ss k m s = record ss {
    monthly_status = insert k (new_item m) ss.monthly_status;
    service_current_status_data =
        insert k (new_task_status (lookup k ss.service_current_status_data))
          ss.service_current_status_data;
    service_status_today = insert k zero_stats ss.service_status_today;
    services = insert k s ss.services;
  }

  added-IsWell :
      (lead : ℕ → ℕ × ℕ) (ss : ServiceSentinel F) (k : ℕ) (m s : Service F)
      → IsWellAhead lead ss
      → IsWellAhead (updated_lead none k lead) (added ss k m s)
  added-IsWell lead ss k m s w = record {
    service_month =
        λ j h. insert-keys k j s (new_item m) ss.services ss.monthly_status (w.service_month j) h;
    service_current = λ j h.
        insert-keys k j s (new_task_status (lookup k ss.service_current_status_data)) ss.services
          ss.service_current_status_data (w.service_current j) h;
    month_today = λ j h.
        insert-keys k j (new_item m) zero_stats ss.monthly_status ss.service_status_today
          (w.month_today j) h;
    stored_month = λ j h. has-inserted k j (new_item m) ss.monthly_status (w.stored_month j h);
    tallied = λ j i h. elim (Bool-cases (nat_beq k j)) [
      | inl t ↦ rw t (
          subst IsTallied (ground (arith, h, t, lookup-insert k j (new_item m) ss.monthly_status))
            (new_item-IsTallied m))
      | inr f ↦
          rw f
            (w.tallied j i (ground (arith, h, f, lookup-insert k j (new_item m) ss.monthly_status)))
    ];
  }

  -- Update with an interval that the scheduler takes registers the service with its new entry, gives
  -- back the entry of the service that it replaces, and keeps the tables in agreement: every service
  -- has its rows, and the totals are ahead of the sums of the thirty days by what they were ahead
  -- before, or by nothing for a new service.
  pub update_registers :
      (lead : ℕ → ℕ × ℕ) (ss : ServiceSentinel F) (m : Service F) (job : ℕ)
      → IsWellAhead lead ss
      → (d : ServiceSentinel F) × (update ss m (some job)
          ≡ some
              (d, elim (lookup m.id ss.services) [ none ↦ none | some old ↦ some old.cron_job_id ]))
        × IsWellAhead (updated_lead (lookup m.id ss.services) m.id lead) d
        × ((k : ℕ)
            → lookup k d.services ≡ (
                if nat_beq m.id k
                then some (record (cron_spec m) { cron_job_id = job })
                else lookup k ss.services))
  unfolding update cron_spec
  update_registers lead ss m job w =
      let s = record (cron_spec m) { cron_job_id = job } in
      elim (Option-cases (lookup m.id ss.services)) [
        | inl e ↦ (
          added ss m.id s s,
          ground (arith, e),
          subst (λ o. IsWellAhead (updated_lead o m.id lead) (added ss m.id s s)) (sym e)
              (added-IsWell lead ss m.id s s w),
          λ k. lookup-insert m.id k s ss.services,
        )
        | inr (old, e) ↦ (
          record ss { services = insert m.id s ss.services },
          ground (arith, e),
          subst
              (λ o.
                IsWellAhead (updated_lead o m.id lead)
                  (record ss { services = insert m.id s ss.services }))
              (sym e) (known-IsWell lead ss m.id s old e w),
          λ k. lookup-insert m.id k s ss.services,
        )
      ]

  removed-IsWell :
      (lead : ℕ → ℕ × ℕ) (ss : ServiceSentinel F) (k : ℕ)
      → IsWellAhead lead ss
      → IsWellAhead lead (record ss {
        service_current_status_data = remove k ss.service_current_status_data;
        service_response_data_store = remove k ss.service_response_data_store;
        tls_cert_cache = remove k ss.tls_cert_cache;
        service_status_today = remove k ss.service_status_today;
        services = remove k ss.services;
        monthly_status = remove k ss.monthly_status;
      })
  removed-IsWell lead ss k w = record {
    service_month = λ j h. remove-keys k j ss.services ss.monthly_status (w.service_month j) h;
    service_current =
        λ j h. remove-keys k j ss.services ss.service_current_status_data (w.service_current j) h;
    month_today =
        λ j h. remove-keys k j ss.monthly_status ss.service_status_today (w.month_today j) h;
    stored_month = λ j h.
        remove-keys k j ss.service_response_data_store ss.monthly_status (w.stored_month j) h;
    tallied = λ j i h.
        w.tallied j i (ground (arith, h, lookup-remove k j ss.monthly_status, nat_beq_iff k j));
  }

  -- The numbers are services, and none stands twice.
  abbrev pub Removable : ServiceSentinel F → List ℕ → Type 0
  Removable ss [] = Unit
  Removable ss (k ∷ ks) = (has k ss.services ≡ true) × (contains ks k ≡ false) × Removable ss ks

  Removable-remove :
      (ss d : ServiceSentinel F) (k : ℕ) (ks : List ℕ)
      → d.services ≡ remove k ss.services
      → contains ks k ≡ false
      → Removable ss ks
      → Removable d ks
  unfolding contains
  Removable-remove ss d k [] e h r = tt
  Removable-remove ss d k (j ∷ ks) e h r = (
    ground (arith, e, r.0, h, lookup-remove k j ss.services, nat_beq_iff k j, nat_beq_iff j k),
    r.1,
    Removable-remove ss d k ks e (ground (arith, h)) r.2,
  )

  -- The scheduler's entry of a service.
  abbrev pub job_at : GoMap ℕ (Service F) → ℕ → ℕ
  job_at services k = elim (lookup k services) [ none ↦ 0 | some s ↦ s.cron_job_id ]

  job_at-remove :
      (services : GoMap ℕ (Service F)) (k : ℕ) (ks : List ℕ)
      → contains ks k ≡ false
      → map (job_at (remove k services)) ks ≡ map (job_at services) ks
  unfolding contains
  job_at-remove services k [] h = refl
  job_at-remove services k (j ∷ ks) h = ground (
    arith,
    h,
    job_at-remove services k ks,
    lookup-remove k j services,
    nat_beq_iff k j,
    nat_beq_iff j k,
  )

  delete_one_known :
      (lead : ℕ → ℕ × ℕ) (ss : ServiceSentinel F) (k : ℕ)
      → has k ss.services ≡ true
      → IsWellAhead lead ss
      → (d : ServiceSentinel F) × (delete_one ss k ≡ ok (d, job_at ss.services k))
        × IsWellAhead lead d
        × (d.services ≡ remove k ss.services)
  unfolding delete_one
  delete_one_known lead ss k h w = elim (Option-cases (lookup k ss.services)) [
    | inl e ↦ absurd (ground (arith, h, e))
    | inr (s, e) ↦ (
      record ss {
        service_current_status_data = remove k ss.service_current_status_data;
        service_response_data_store = remove k ss.service_response_data_store;
        tls_cert_cache = remove k ss.tls_cert_cache;
        service_status_today = remove k ss.service_status_today;
        services = remove k ss.services;
        monthly_status = remove k ss.monthly_status;
      },
      ground (arith, e),
      removed-IsWell lead ss k w,
      refl,
    )
  ]

  -- Delete of services, each listed once, returns, takes out exactly these, has the scheduler remove
  -- exactly their jobs, and keeps the tables in agreement: every service has its rows, and the totals
  -- are ahead of the sums of the thirty days by what they were ahead before.
  pub delete_registered :
      (lead : ℕ → ℕ × ℕ) (ss : ServiceSentinel F) (ks : List ℕ)
      → IsWellAhead lead ss
      → Removable ss ks
      → (d : ServiceSentinel F) × (delete ss ks ≡ ok (d, map (job_at ss.services) ks))
        × IsWellAhead lead d
        × ((k : ℕ) → lookup k d.services ≡ (if contains ks k then none else lookup k ss.services))
  unfolding delete contains
  delete_registered lead ss [] w r = (ss, refl, w, λ k. refl)
  delete_registered lead ss (k ∷ ks) w r =
      let (d, p, wd, e) = delete_one_known lead ss k r.0 w in
      let (c, q, wc, l) = delete_registered lead d ks wd (Removable-remove ss d k ks e r.1 r.2) in
      let jobs : map (job_at d.services) ks ≡ map (job_at ss.services) ks =
        ap (λ m. map (job_at m) ks) e ∙ job_at-remove ss.services k ks r.1 in
      (c, rw (p, q, jobs) refl, wc, λ j. l j ∙ ground (arith, e, lookup-remove k j ss.services))
