-- ===== src/Crons/Jobs.antt =====
-- The jobs in the scheduler and the tasks of service/singleton/crontask.go, over the handlers.
use nezha_diff.Base.{
  ℕ, ◌≡◌, ◌⊎◌, refl, subst, sym, true, false, not, ◌&&◌, none, some, List, [], ◌∷◌, arith, nat_eq,
  nat_beq, nat_beq_iff, if◌then◌else◌, Option-cases, inl, inr,
}
use nezha_diff.GoMap.{lookup, insert, remove, lookup-insert, lookup-remove}
use nezha_diff.ServerClass.{server_common}
use nezha_diff.Crons.{
  Cron, Scheduler, CronClass, cron_common, sort_list, drop_job, update, delete_one, delete_each,
}

module _ {S : Type 0} ⦃sched : Scheduler S⦄ where
  -- A task of the list has the job.
  abbrev pub Owned : CronClass S → ℕ → Type 0
  Owned c job = (id : ℕ) × (cr : Cron) × (lookup id c.list ≡ some cr) × (cr.cron_job_id ≡ job)

  -- The jobs in the scheduler are those of the tasks, one for each. `spare` is the job of a task that
  -- is not in the list yet, or 0.
  pub record IsWired (spare : ℕ) (c : CronClass S) : Type 0 where
    pub live :
        (id : ℕ) (cr : Cron)
        → lookup id c.list ≡ some cr
        → nat_beq cr.cron_job_id 0 ≡ false
        → sched.has_job cr.cron_job_id c.cron ≡ true
    pub unique :
        (id other : ℕ) (cr dr : Cron)
        → lookup id c.list ≡ some cr
        → lookup other c.list ≡ some dr
        → nat_beq cr.cron_job_id 0 ≡ false
        → cr.cron_job_id ≡ dr.cron_job_id
        → id ≡ other
    pub owned :
        (job : ℕ)
        → nat_beq job 0 ≡ false
        → sched.has_job job c.cron ≡ true
        → (job ≡ spare) ⊎ Owned c job
    pub free :
        (id : ℕ) (cr : Cron)
        → lookup id c.list ≡ some cr
        → nat_beq cr.cron_job_id 0 ≡ false
        → nat_beq cr.cron_job_id spare ≡ false
    pub ready : (nat_beq spare 0 ≡ true) ⊎ (sched.has_job spare c.cron ≡ true)

  has-drop :
      (c : CronClass S) (id job : ℕ) (old : Cron)
      → lookup id c.list ≡ some old
      → sched.has_job job (drop_job id c) ≡ (
          if nat_beq old.cron_job_id 0
          then sched.has_job job c.cron
          else not (nat_beq old.cron_job_id job) && sched.has_job job c.cron)
  unfolding drop_job
  has-drop c id job old e = ground (arith, e, sched.has-remove old.cron_job_id job c.cron)

  drop-none : (c : CronClass S) (id : ℕ) → lookup id c.list ≡ none → drop_job id c ≡ c.cron
  unfolding drop_job
  drop-none c id e = ground (arith, e)

  -- The state before the list is sorted.
  abbrev deleted : CronClass S → ℕ → CronClass S
  deleted c id = record c { list = remove id c.list; cron = drop_job id c }

  deleted-live :
      (spare : ℕ) (c : CronClass S) (id : ℕ)
      → IsWired spare c
      → (j : ℕ) (cr : Cron) → lookup j (remove id c.list) ≡ some cr
      → nat_beq cr.cron_job_id 0 ≡ false
      → sched.has_job cr.cron_job_id (drop_job id c) ≡ true
  deleted-live spare c id w j cr l some_job = elim (Option-cases (lookup id c.list)) [
    | inl e ↦
        rw (drop-none c id e) (w.live j cr (ground (arith, l, lookup-remove id j c.list)) some_job)
    | inr (old, e) ↦ ground (
      arith,
      has-drop c id cr.cron_job_id old e,
      w.live j cr,
      w.unique j id cr old,
      l,
      e,
      lookup-remove id j c.list,
      nat_beq_iff id j,
      nat_beq_iff old.cron_job_id cr.cron_job_id,
    )
  ]

  deleted-Owned :
      (spare : ℕ) (c : CronClass S) (id : ℕ)
      → IsWired spare c
      → (job : ℕ) → nat_beq job 0 ≡ false
      → sched.has_job job (drop_job id c) ≡ true
      → (job ≡ spare) ⊎ Owned (deleted c id) job
  deleted-Owned spare c id w job some_job h = elim (Option-cases (lookup id c.list)) [
    | inl e ↦
        elim (w.owned job some_job (subst (λ s. sched.has_job job s ≡ true) (drop-none c id e) h)) [
          | inl is_spare ↦ inl is_spare
          | inr (k, cr, l, same) ↦
              inr (k, cr, ground (arith, l, e, lookup-remove id k c.list, nat_beq_iff id k), same)
        ]
    | inr (old, e) ↦
        let before : sched.has_job job c.cron ≡ true = ground (arith, h, has-drop c id job old e) in
        elim (w.owned job some_job before) [
          | inl is_spare ↦ inl is_spare
          | inr (k, cr, l, same) ↦ inr (
            k,
            cr,
            ground (
              arith,
              h,
              has-drop c id job old e,
              l,
              e,
              same,
              some_job,
              lookup-remove id k c.list,
              nat_beq_iff id k,
              nat_beq_iff old.cron_job_id job,
            ),
            same,
          )
        ]
  ]

  deleted-ready :
      (spare : ℕ) (c : CronClass S) (id : ℕ)
      → IsWired spare c
      → (nat_beq spare 0 ≡ true) ⊎ (sched.has_job spare (drop_job id c) ≡ true)
  deleted-ready spare c id w = elim w.ready [
    | inl zero_job ↦ inl zero_job
    | inr has' ↦ elim (Option-cases (lookup id c.list)) [
      | inl e ↦ inr (rw (drop-none c id e) has')
      | inr (old, e) ↦ inr (ground (arith, has', has-drop c id spare old e, w.free id old e))
    ]
  ]

  deleted-IsWired :
      (spare : ℕ) (c : CronClass S) (id : ℕ) → IsWired spare c → IsWired spare (deleted c id)
  deleted-IsWired spare c id w = record {
    live = deleted-live spare c id w;
    unique = λ j k cr dr l m.
        w.unique j k cr dr (ground (arith, l, lookup-remove id j c.list))
          (ground (arith, m, lookup-remove id k c.list));
    owned = deleted-Owned spare c id w;
    free = λ j cr l. w.free j cr (ground (arith, l, lookup-remove id j c.list));
    ready = deleted-ready spare c id w;
  }

  pub delete_each-IsWired :
      (c : CronClass S) (ids : List ℕ) → IsWired 0 c → IsWired 0 (delete_each c ids)
  unfolding delete_each delete_one
  delete_each-IsWired c [] w = w
  delete_each-IsWired c (id ∷ ids) w =
      delete_each-IsWired (delete_one c id) ids (deleted-IsWired 0 c id w)

  pub sorted-IsWired : (spare : ℕ) (c : CronClass S) → IsWired spare c → IsWired spare (sort_list c)
  unfolding sort_list
  sorted-IsWired spare c w = record {
    live = w.live;
    unique = w.unique;
    owned = w.owned;
    free = w.free;
    ready = w.ready;
  }

  -- A task that brings the spare job along is put into the list.
  put-IsWired :
      (c : CronClass S) (cr : Cron)
      → IsWired cr.cron_job_id c
      → lookup cr.id c.list ≡ none
      → IsWired 0 (record c { list = insert cr.id cr c.list })
  put-IsWired c cr w gone = record {
    live = λ j dr l some_job.
        ground (arith, l, some_job, lookup-insert cr.id j cr c.list, w.live j dr, w.ready);
    unique = λ j k dr er l m some_job same. ground (
      arith,
      l,
      m,
      some_job,
      same,
      lookup-insert cr.id j cr c.list,
      lookup-insert cr.id k cr c.list,
      w.unique j k dr er,
      w.free j dr,
      w.free k er,
      nat_beq_iff cr.id j,
      nat_beq_iff cr.id k,
      nat_beq_iff dr.cron_job_id cr.cron_job_id,
      nat_beq_iff er.cron_job_id cr.cron_job_id,
    );
    owned = λ job some_job h. elim (w.owned job some_job h) [
      | inl spare ↦ inr (
        cr.id,
        cr,
        ground (arith, lookup-insert cr.id cr.id cr c.list, nat_beq_iff cr.id cr.id),
        sym spare,
      )
      | inr (k, dr, l, same) ↦ inr (
        k,
        dr,
        ground (arith, l, gone, lookup-insert cr.id k cr c.list, nat_beq_iff cr.id k),
        same,
      )
    ];
    free = λ j dr l some_job. some_job;
    ready = inl refl;
  }

  pub update-IsWired :
      (c : CronClass S) (cr : Cron) → IsWired cr.cron_job_id c → IsWired 0 (update c cr)
  unfolding update
  update-IsWired c cr w = sorted-IsWired 0 _ (
      put-IsWired (deleted c cr.id) cr (deleted-IsWired cr.cron_job_id c cr.id w)
        (ground (arith, lookup-remove cr.id cr.id c.list, nat_beq_iff cr.id cr.id)))
