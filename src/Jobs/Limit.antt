-- ===== src/Jobs/Limit.antt =====
-- The run slots: a run starts only in a free slot, and a queued run never waits beside one.
use cli_server_node.Common.{
  ℕ, suc, ◌≤◌, max, Bool, true, false, not, List, [], ◌∷◌, map, leb, if◌then◌else◌, length,
  length-append, is_some, inl, inr, Bool-cases, ◌⊎◌, ◌≡◌, refl, sym, subst, ◌∙◌, ap, arith,
}
use mathlib.Core.Option
use cli_server_node.Jobs.Registration.{
  OverlapPolicy, skip, queue, cancel, JobRun, JobRegistration, max_concurrent_runs_of, find_run,
  remove_run, set_run,
}
use cli_server_node.Jobs.Slots.{
  sync_current, begin_attempt, start_run, is_full, abort_oldest, enqueue, try_start, release_slot,
  drain_queue, cancel_all, finish_run, new_run,
}

pub length-set_run : (r : JobRun) (runs : List JobRun) → length (set_run r runs) ≡ length runs
unfolding set_run
length-set_run r [] = refl
length-set_run r (x ∷ runs) = ground (arith, length-set_run r runs)

length-remove_run :
    (id : ℕ) (runs : List JobRun)
    → is_some (find_run id runs) ≡ true
    → suc (length (remove_run id runs)) ≡ length runs
unfolding find_run remove_run
length-remove_run id [] h = cc
length-remove_run id (x ∷ runs) h = ground (arith, length-remove_run id runs)

length-abort_oldest : (runs : List JobRun) → length (abort_oldest runs) ≡ length runs
unfolding abort_oldest
length-abort_oldest [] = refl
length-abort_oldest (x ∷ runs) = ground (arith, length-abort_oldest runs)

-- What the slots see of a job.
pub record View : Type 0 where
  pub count : ℕ
  pub limit : ℕ
  pub waits : Bool

abbrev pub view : JobRegistration → View
view reg = record {
  count = length reg.runs;
  limit = max_concurrent_runs_of reg.options;
  waits = reg.queued;
}

-- What starting a queued run, and releasing a slot, do to it.
abbrev view_drain : View → View
view_drain v =
    if not v.waits
    then v
    else if leb v.limit v.count
    then v
    else record { count = suc v.count; limit = v.limit; waits = false }

-- A change of the runs shows in the view as their number alone.
abbrev counted : View → ℕ → View
counted v n = record { count = n; limit = v.limit; waits = v.waits }

pub view-begin_attempt :
    (reg : JobRegistration) (r : JobRun) (n : ℕ) → view (begin_attempt reg r n) ≡ view reg
unfolding begin_attempt sync_current
view-begin_attempt reg r n = ap (counted (view reg)) (length-set_run _ reg.runs)

view-start_run :
    (reg : JobRegistration) → view (start_run reg) ≡ counted (view reg) (suc (length reg.runs))
unfolding start_run sync_current
view-start_run reg =
    view-begin_attempt _ (new_run reg.next_id) 0
    ∙ ap (counted (view reg)) (omega (arith, length-append reg.runs (new_run reg.next_id ∷ [])))

view-drain_queue : (reg : JobRegistration) → view (drain_queue reg) ≡ view_drain (view reg)
unfolding drain_queue
view-drain_queue reg = ground (arith, view-start_run (record reg { queued = false }))

view-release_slot :
    (reg : JobRegistration) (id : ℕ)
    → (view (release_slot reg id) ≡ view reg)
      ⊎ ((n : ℕ) × (suc n ≡ length reg.runs) × (view (release_slot reg id) ≡ counted (view reg) n))
unfolding release_slot sync_current
view-release_slot reg id = elim (Bool-cases (is_some (find_run id reg.runs))) [
  | inl e ↦ rw e (inr (length (remove_run id reg.runs), length-remove_run id reg.runs e, refl))
  | inr e ↦ rw e (inl refl)
]

-- Runs start only below the limit, and a run that waits does so only while every slot is taken.
pub record Fits (v v' : View) : Type 0 where
  pub bounded : v'.count ≤ max v.count v'.limit
  pub taken : (v.waits ≡ true → v.limit ≤ v.count) → v'.waits ≡ true → v'.limit ≤ v'.count

pub Fits-refl : (v : View) → Fits v v
Fits-refl v = record { bounded = omega arith; taken = λ h. h }

pub Fits-of_eq : {v w : View} → w ≡ v → Fits v w
Fits-of_eq {v} e = subst (Fits v) (sym e) (Fits-refl v)

Fits-drain : (v : View) → Fits v (view_drain v)
Fits-drain v = record { bounded = ground arith; taken = λ h w. ground arith }

Fits-release_drain : (v : View) (n : ℕ) → suc n ≡ v.count → Fits v (view_drain (counted v n))
Fits-release_drain v n e = record { bounded = ground arith; taken = λ h w. ground arith }

pub finish_run-Fits : (reg : JobRegistration) (id : ℕ) → Fits (view reg) (view (finish_run reg id))
unfolding finish_run
finish_run-Fits reg id = elim (view-release_slot reg id) [
  | inl e ↦
      subst (Fits (view reg)) (sym (view-drain_queue (release_slot reg id) ∙ ap view_drain e))
        (Fits-drain (view reg))
  | inr (n, s, e) ↦
      subst (Fits (view reg)) (sym (view-drain_queue (release_slot reg id) ∙ ap view_drain e))
        (Fits-release_drain (view reg) n s)
]

Fits-waiting : (v : View) → v.limit ≤ v.count → Fits v (record v { waits = true })
Fits-waiting v h = record { bounded = omega arith; taken = λ _ _. h }

enqueue-Fits :
    (reg : JobRegistration) (p : OverlapPolicy)
    → is_full reg ≡ true
    → Fits (view reg) (view (enqueue reg p).0)
enqueue-Fits reg skip full = Fits-refl (view reg)
enqueue-Fits reg queue full = Fits-waiting (view reg) (ground arith)
enqueue-Fits reg cancel full =
    subst (Fits (view reg))
      (sym (
        ap (λ n. record { count = n; limit = max_concurrent_runs_of reg.options; waits = true })
          (same (Bool-cases reg.queued))))
      (Fits-waiting (view reg) (ground arith))
  where
    same :
        (reg.queued ≡ true) ⊎ (reg.queued ≡ false)
        → length (if reg.queued then reg.runs else abort_oldest reg.runs) ≡ length reg.runs
    same (inl e) = rw e refl
    same (inr e) = rw e (length-abort_oldest reg.runs)

pub try_start-Fits : (reg : JobRegistration) → Fits (view reg) (view (try_start reg).0)
unfolding try_start
try_start-Fits reg = elim (Bool-cases (is_full reg)) [
  | inl full ↦ rw full (enqueue-Fits reg (Option.get_or reg.options.overlap_policy skip) full)
  | inr free ↦ rw free (
      subst (Fits (view reg)) (sym (view-start_run reg))
        (record { bounded = ground arith; taken = λ h w. ground (arith, h w) }))
]

length-map_runs : (f : JobRun → JobRun) (runs : List JobRun) → length (map f runs) ≡ length runs
length-map_runs f [] = refl
length-map_runs f (r ∷ runs) = ap suc (length-map_runs f runs)

Fits-cancelled :
    (v : View) (n : ℕ) → n ≡ v.count → Fits v (record { count = n; limit = v.limit; waits = false })
Fits-cancelled v n e = record { bounded = omega arith; taken = λ h w. cc }

pub cancel_all-Fits : (reg : JobRegistration) → Fits (view reg) (view (cancel_all reg))
unfolding cancel_all
cancel_all-Fits reg = Fits-cancelled (view reg) _ (length-map_runs _ reg.runs)

-- An update of the options may change the limit; the queue is drained after it.
pub drain_queue-Fits :
    (reg : JobRegistration) (o : View) → o.count ≡ length reg.runs → Fits o (view (drain_queue reg))
drain_queue-Fits reg o e =
    subst (Fits o) (sym (view-drain_queue reg))
      (record { bounded = ground arith; taken = λ h w. ground arith })
