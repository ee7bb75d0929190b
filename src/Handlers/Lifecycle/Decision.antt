-- ===== src/Handlers/Lifecycle/Decision.antt =====
-- The rows of the module builds through `decision_update` of
-- module_build_service/scheduler/handlers/greenwave.py.
use fm_orchestrator.Common.{
  ◌≡◌, refl, sym, ◌∙◌, ℕ, Bool, true, false, not, ◌⊎◌, Option, none, some, String, [], ◌∷◌, ◌++◌,
  is_nonempty_text, if◌then◌else◌, nat_eq, string_eq, ◌==◌, inl, inr, arith, eq_iff, Bool-cases,
}
use fm_orchestrator.Exec.{pure, gets, ◌>>=◌}
use fm_orchestrator.Models.{
  BuildState, ModuleBuild, World, put_module_row, put_module, commit, transition, transitioned,
  state_code,
}
use fm_orchestrator.Models.History.{
  EdgeRelation, Follows, Tracks, put-Tracks, Follows-keep, transitioned-IsStep,
}
use fm_orchestrator.Handlers.{
  Services, module_with_id, get_corresponding_module_build, satisfied_reason, satisfied_build,
  decision_update,
}
use fm_orchestrator.Handlers.Lifecycle.{row-Tracks}

none-some : (n : ModuleBuild) → ◌≡◌ {A = Option ModuleBuild} none (some n) → ⊥
none-some n h = cc

same_state :
    (n o : ModuleBuild) → some n ≡ some o → o.state ≡ BuildState.done → n.state ≡ BuildState.done
same_state n o h e = cc

true-false : (b : Bool) → b ≡ true → b ≡ false → ⊥
true-false b h k = cc

module _ (services : Services) (context subject : String) (satisfied : Bool) (w : World) where
  -- Why a build passes: Greenwave is set up, the message is for this service, the policies are
  -- satisfied, and the build is done.
  pub record IsSatisfied (n : ModuleBuild) : Type 0 where
    pub enabled : is_nonempty_text services.greenwave_decision_context ≡ true
    pub for_us : context ≡ services.greenwave_decision_context
    pub policies : satisfied ≡ true
    pub found : get_corresponding_module_build services subject w ≡ some n
    pub was_done : n.state ≡ BuildState.done

  -- The build is ready, for the reason that the code gives, and this was sent behind the messages
  -- that were waiting.
  pub record IsPromoted (n : ModuleBuild) (t : World) : Type 0 where
    pub modules :
        t.modules
        ≡ put_module_row
            (transitioned n BuildState.ready (some (satisfied_reason subject)) w.now)
            w.modules
    pub sent :
        t.sent
        ≡ w.sent ++ (w.out_queue ++ record { module_id = n.id; state = BuildState.ready } ∷ [])

  code_done :
      (n : ModuleBuild)
      → (state_code n.state == state_code BuildState.done) ≡ true
      → n.state ≡ BuildState.done
  code_done n h = ground arith

  code_not_done :
      (n : ModuleBuild)
      → (state_code n.state == state_code BuildState.done) ≡ false
      → n.state ≡ BuildState.done
      → ⊥
  code_not_done n h e = ground arith

  promote :
      (n : ModuleBuild)
      → n.state ≡ BuildState.done
      → IsPromoted n (satisfied_build services subject (some n) w).1
  unfolding transition commit put_module
  promote n e = rw e (record { modules = refl; sent = refl })

  keep :
      (n : ModuleBuild)
      → (state_code n.state == state_code BuildState.done) ≡ false
      → (satisfied_build services subject (some n) w).1.modules ≡ w.modules
  unfolding commit
  keep n e = rw e refl

  -- What the message leads to.
  abbrev pub Outcome : World → Type 0
  Outcome t =
      (((n : ModuleBuild) → IsSatisfied n → ⊥) × (t.modules ≡ w.modules))
      ⊎ ((n : ModuleBuild) × IsSatisfied n × IsPromoted n t)

  found-Outcome :
      (found : Option ModuleBuild)
      → found ≡ get_corresponding_module_build services subject w
      → is_nonempty_text services.greenwave_decision_context ≡ true
      → context ≡ services.greenwave_decision_context
      → satisfied ≡ true
      → Outcome (satisfied_build services subject found w).1
  found-Outcome none q enabled ours policies = inl ((λ n k. none-some n (q ∙ k.found)), refl)
  found-Outcome (some n) q enabled ours policies =
      elim (Bool-cases (state_code n.state == state_code BuildState.done)) [
        | inl e ↦ inr (
          n,
          record {
            enabled = enabled;
            for_us = ours;
            policies = policies;
            found = sym q;
            was_done = code_done n e;
          },
          promote n (code_done n e),
        )
        | inr e ↦
            inl ((λ o k. code_not_done n e (same_state n o (q ∙ k.found) k.was_done)), keep n e)
      ]

  policies-Outcome :
      (b : Bool)
      → satisfied ≡ b
      → is_nonempty_text services.greenwave_decision_context ≡ true
      → context ≡ services.greenwave_decision_context
      → Outcome
          ((if not b
              then pure tt
              else gets (get_corresponding_module_build services subject)
                >>= satisfied_build services subject)
            w).1
  policies-Outcome false e enabled ours = inl ((λ n k. true-false satisfied k.policies e), refl)
  policies-Outcome true e enabled ours =
      found-Outcome (get_corresponding_module_build services subject w) refl enabled ours e

  -- Either the conditions under which a build passes do not hold, and no row of the module builds
  -- changes, or they hold of a build: it alone becomes ready, with the reason that Greenwave is
  -- satisfied, and the change is sent.
  pub decision_update-promotes : Outcome (decision_update services context subject satisfied w).1
  unfolding decision_update
  decision_update-promotes =
      elim (Bool-cases (is_nonempty_text services.greenwave_decision_context)) [
        | inr e ↦ rw e (inl ((λ n k. true-false _ k.enabled e), refl))
        | inl enabled ↦
            rw enabled (elim (Bool-cases (context == services.greenwave_decision_context)) [
              | inr e ↦ rw e (inl ((λ n k. true-false _ ((eq_iff _ _).1 k.for_us) e), refl))
              | inl ours ↦ rw ours (policies-Outcome satisfied refl enabled ((eq_iff _ _).0 ours))
            ])
      ]

found-Tracks :
    (services : Services) (E : EdgeRelation) (i : ℕ) (m n : ModuleBuild) (id : Option ℕ) (w : World)
    → module_with_id services id w ≡ some n
    → Follows E i m w
    → Tracks E i m n w
unfolding get_corresponding_module_build
found-Tracks services E i m n none w e h = absurd (none-some n e)
found-Tracks services E i m n (some id) w e h = row-Tracks E i m id n w (sym e) h

-- The row with the key `i` keeps its history, where this step is allowed.
pub decision_update-Ends :
    (services : Services) (context subject : String) (satisfied : Bool) (E : EdgeRelation) (i : ℕ)
    (m : ModuleBuild) (w : World)
    → ((n : ModuleBuild)
        → IsSatisfied services context subject satisfied w n
        → E n.id BuildState.done BuildState.ready)
    → Follows E i m w
    → Follows E i m (decision_update services context subject satisfied w).1
unfolding get_corresponding_module_build
decision_update-Ends services context subject satisfied E i m w f h =
    elim (decision_update-promotes services context subject satisfied w) [
      | inl (_, e) ↦ Follows-keep E i m w _ e h
      | inr (n, k, promoted) ↦
          (put-Tracks E i m n
            (transitioned n BuildState.ready (some (satisfied_reason subject)) w.now) w _
            (found-Tracks services E i m n (services.module_build_service_id subject) w k.found h)
            (inr (
              transitioned-IsStep E n BuildState.ready (some (satisfied_reason subject)) w.now
                (rw k.was_done (f n k))))
            promoted.modules).follows
    ]
