-- ===== src/WorkerLoop/Inv.antt =====
-- The jobs that are run are those submitted, in order.
use parallel_load_balancing.Common.{
  ℕ, ◌≡◌, inl, inr, refl, sym, ap, ◌∙◌, Bool, true, false, List, [], ◌∷◌, ◌++◌, append-nil,
  append_assoc, if◌then◌else◌, Bool-cases, if_intro,
}
use parallel_load_balancing.WorkerLoop.{
  Stage, testing, popping, stealing, resuming, running_stolen, draining, drain_resuming, ended,
  Loop, goto, Step, test_stop, pop_some, pop_none, resume_next, resumed, steal_some, steal_none,
  ran_stolen, drain_some, drain_none, drain_next, drained, submit, request_stop, Reach, start, step,
}

-- The jobs that the worker has taken and not run.
abbrev pub in_hand : Stage → List ℕ
in_hand (resuming jobs) = jobs
in_hand (drain_resuming jobs) = jobs
in_hand stage = []

abbrev pub ends : Stage → Bool
ends ended = true
ends stage = false

record Inv (s : Loop) : Type 0 where
  in_order : s.ran ++ (in_hand s.stage ++ s.queue) ≡ s.submitted
  seen : ends s.stage ≡ true → s.queue ≡ []

module _ {s : Loop} (v : Inv s) where
  -- To a stage with the same jobs in hand.
  goto-Inv :
      (stage : Stage)
      → in_hand stage ≡ in_hand s.stage
      → (ends stage ≡ true → s.queue ≡ [])
      → Inv (goto s stage)
  goto-Inv stage e q = record {
    in_order = ap (λ js. s.ran ++ (js ++ s.queue)) e ∙ v.in_order;
    seen = q;
  }

  take-Inv :
      (stage : Stage)
      → in_hand s.stage ≡ []
      → in_hand stage ≡ s.queue
      → ends stage ≡ false
      → Inv (record s { stage = stage; queue = [] })
  take-Inv stage e f g = record {
    in_order =
        ap (λ js. s.ran ++ js) (append-nil (in_hand stage) ∙ f)
        ∙ ap (λ js. s.ran ++ (js ++ s.queue)) (sym e)
        ∙ v.in_order;
    seen = λ h. cc;
  }

  run-Inv :
      (stage : Stage) (job : ℕ)
      → in_hand s.stage ≡ job ∷ in_hand stage
      → ends stage ≡ false
      → Inv (record s { stage = stage; ran = s.ran ++ job ∷ [] })
  run-Inv stage job e g = record {
    in_order =
        append_assoc s.ran (job ∷ []) (in_hand stage ++ s.queue)
        ∙ ap (λ js. s.ran ++ (js ++ s.queue)) (sym e)
        ∙ v.in_order;
    seen = λ h. cc;
  }

ends-ended : (stage : Stage) → ends stage ≡ true → stage ≡ ended
ends-ended ended h = refl
ends-ended testing h = cc
ends-ended stage h = cc

Step-Inv : {steals : Bool} {s t : Loop} → Inv s → Step steals s t → Inv t
Step-Inv {s} v (test_stop e) =
    if_intro (λ (st : Stage). Inv (goto s st)) s.stop
      (λ _. goto-Inv v draining (sym (ap in_hand e)) (λ h. cc))
      (λ _. goto-Inv v popping (sym (ap in_hand e)) (λ h. cc))
Step-Inv v (pop_some e ne) = take-Inv v _ (ap in_hand e) refl refl
Step-Inv {steals} {s} v (pop_none e q) =
    if_intro (λ (st : Stage). Inv (goto s st)) steals
      (λ _. goto-Inv v stealing (sym (ap in_hand e)) (λ h. cc))
      (λ _. goto-Inv v testing (sym (ap in_hand e)) (λ h. cc))
Step-Inv v (resume_next {job} {jobs} e) = run-Inv v (resuming jobs) job (ap in_hand e) refl
Step-Inv v (resumed e) = goto-Inv v testing (sym (ap in_hand e)) (λ h. cc)
Step-Inv v (steal_some e) = goto-Inv v running_stolen (sym (ap in_hand e)) (λ h. cc)
Step-Inv v (steal_none e) = goto-Inv v testing (sym (ap in_hand e)) (λ h. cc)
Step-Inv v (ran_stolen e) = goto-Inv v testing (sym (ap in_hand e)) (λ h. cc)
Step-Inv v (drain_some e ne) = take-Inv v _ (ap in_hand e) refl refl
Step-Inv v (drain_none e q) = goto-Inv v ended (sym (ap in_hand e)) (λ h. q)
Step-Inv v (drain_next {job} {jobs} e) = run-Inv v (drain_resuming jobs) job (ap in_hand e) refl
Step-Inv v (drained e) = goto-Inv v draining (sym (ap in_hand e)) (λ h. cc)
Step-Inv {s} v (submit job ne) = record {
  in_order =
      ap (λ js. s.ran ++ js) (sym (append_assoc (in_hand s.stage) s.queue (job ∷ [])))
      ∙ sym (append_assoc s.ran (in_hand s.stage ++ s.queue) (job ∷ []))
      ∙ ap (λ js. js ++ job ∷ []) v.in_order;
  seen = λ h. absurd (ne (ends-ended s.stage h));
}
Step-Inv v request_stop = record { in_order = v.in_order; seen = v.seen }

Reach-Inv : {steals : Bool} {s : Loop} → Reach steals s → Inv s
Reach-Inv start = record { in_order = refl; seen = λ h. refl }
Reach-Inv (step r h) = Step-Inv (Reach-Inv r) h

-- In every interleaving in which no job is submitted to a worker that has ended, the jobs that the
-- worker has run, followed by those of the list that it is running and, unless it has ended, by those
-- in the queue, are the jobs submitted, in order.
pub ran-submitted :
    {steals : Bool} {s : Loop}
    → Reach steals s
    → s.ran ++ (in_hand s.stage ++ (if ends s.stage then [] else s.queue)) ≡ s.submitted
ran-submitted {s} r =
    let v = Reach-Inv r in
    elim (Bool-cases (ends s.stage)) [
      | inl done ↦
          rw done (ap (λ js. s.ran ++ (in_hand s.stage ++ js)) (sym (v.seen done)) ∙ v.in_order)
      | inr going ↦ rw going v.in_order
    ]
