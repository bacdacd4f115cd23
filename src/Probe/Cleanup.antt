-- ===== src/Probe/Cleanup.antt =====
-- Which sessions a run of the probe leaves behind.
use homebrain.Prelude.{
  Bool, true, false, Option, none, some, List, [], ◌∷◌, ◌++◌, ◌≡◌, ◌⊎◌, inl, inr, refl, arith, Any,
}
use homebrain.Text.{Text}
use homebrain.Probe.{
  SessionApi, PeerProbe, Created, answered, not_answered, ClientError, Offered, offered,
  not_offered, ProbeError, Line, Run, cleanup_failed, cleanup_report, connected_end, failed_end,
  apply_stage, create_stage, offer_stage, run_probe, exit_success, exit_cleanup_failure,
}

abbrev pub Reports : List Line → Type 0
Reports log = Any (λ l. l ≡ cleanup_failed) log

Reports-append : (xs ys : List Line) → Reports ys → Reports (xs ++ ys)
Reports-append [] ys h = h
Reports-append (x ∷ xs) ys h = inr (Reports-append xs ys h)

report : Reports cleanup_report
report = inr (inl refl)

module _ {S P : Type 0} (api : SessionApi S) (peer : PeerProbe P) (id : Text)
    (IsClean : S → Type 0) where
  -- What the API promises of the states in which the probe's session is not there: a Create that
  -- says that it made none leaves such a state such, and a Delete with no failure leads to one.
  pub record IsHonest : Type 0 where
    pub create_none :
        (offer : Text) (s s' : S) (e : ClientError)
        → IsClean s
        → api.create id offer s ≡ (s', not_answered false e)
        → IsClean s'
    pub delete_done : (s s' : S) → api.delete id s ≡ (s', false) → IsClean s'

  -- The session is gone, or the log says that it may not be; and it is gone behind exit code 0.
  pub record IsTidy (r : Run S P) : Type 0 where
    pub tidy : IsClean r.api ⊎ Reports r.log
    pub success : r.exit ≡ exit_success → IsClean r.api
    pub failure : r.exit ≡ exit_cleanup_failure → Reports r.log

  connected_end-IsTidy :
      (x : S × Bool) (p : P) (log : List Line)
      → ((s : S) → x ≡ (s, false) → IsClean s)
      → IsTidy (connected_end api peer id x p log)
  unfolding connected_end
  connected_end-IsTidy (s, true) p log deleted = record {
    tidy = inr (Reports-append log cleanup_report report);
    success = λ e. absurd (omega arith);
    failure = λ _. Reports-append log cleanup_report report;
  }
  connected_end-IsTidy (s, false) p log deleted = record {
    tidy = inl (deleted s refl);
    success = λ _. deleted s refl;
    failure = λ e. absurd (omega arith);
  }

  failed_end-IsTidy :
      (x : S × Bool) (p : P) (log : List Line)
      → ((s : S) → x ≡ (s, false) → IsClean s)
      → IsTidy (failed_end api peer id x p log)
  unfolding failed_end
  failed_end-IsTidy (s, true) p log deleted = record {
    tidy = inr (Reports-append log cleanup_report report);
    success = λ e. absurd (omega arith);
    failure = λ e. absurd (omega arith);
  }
  failed_end-IsTidy (s, false) p log deleted = record {
    tidy = inl (deleted s refl);
    success = λ e. absurd (omega arith);
    failure = λ e. absurd (omega arith);
  }

  module _ (honest : IsHonest) where
    apply_stage-IsTidy :
        (result : Option ProbeError) (s : S) (p : P) (log : List Line)
        → IsTidy (apply_stage api peer id result s p log)
    unfolding apply_stage
    apply_stage-IsTidy none s p log =
        connected_end-IsTidy (api.delete id s) p _ (honest.delete_done s)
    apply_stage-IsTidy (some e) s p log =
        failed_end-IsTidy (api.delete id s) p _ (honest.delete_done s)

    create_stage-IsTidy :
        (x : S × Created) (p : P) (log : List Line)
        → ((s : S) (e : ClientError) → x ≡ (s, not_answered false e) → IsClean s)
        → IsTidy (create_stage api peer id x p log)
    unfolding create_stage
    create_stage-IsTidy (s, not_answered false e) p log kept = record {
      tidy = inl (kept s e refl);
      success = λ e. absurd (omega arith);
      failure = λ e. absurd (omega arith);
    }
    create_stage-IsTidy (s, not_answered true e) p log kept =
        failed_end-IsTidy (api.delete id s) p _ (honest.delete_done s)
    create_stage-IsTidy (s, answered answer) p log kept =
        let (p', lines, result) = peer.apply_answer_and_wait answer p in
        apply_stage-IsTidy result s p' _

    offer_stage-IsTidy :
        (x : P × List Line × Offered) (s : S) → IsClean s → IsTidy (offer_stage api peer id x s)
    unfolding offer_stage
    offer_stage-IsTidy (p, lines, not_offered e) s clean = record {
      tidy = inl clean;
      success = λ e. absurd (omega arith);
      failure = λ e. absurd (omega arith);
    }
    offer_stage-IsTidy (p, lines, offered offer) s clean =
        create_stage-IsTidy (api.create id offer s) p lines
          (λ s' e q. honest.create_none offer s s' e clean q)

    -- Whatever the peer does: a run of the probe that starts without its session leaves none behind
    -- or reports cleanup_failed; behind exit code 0 there is none, and code 2 is always reported.
    pub run_probe-IsTidy : (s : S) (p : P) → IsClean s → IsTidy (run_probe api peer id s p)
    unfolding run_probe
    run_probe-IsTidy s p clean =
        let t = offer_stage-IsTidy (peer.offer p) s clean in
        record { tidy = t.tidy; success = t.success; failure = t.failure }
