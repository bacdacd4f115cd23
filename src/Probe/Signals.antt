-- ===== src/Probe/Signals.antt =====
-- What a probe makes of the callbacks of its peer connection, and that it closes it.
use homebrain.Prelude.{
  ℕ, ◌+◌, Bool, true, false, Option, none, some, List, [], ◌∷◌, ◌++◌, ◌≡◌, refl, arith,
  if◌then◌else◌, inl, inr, Option-cases, ◌∙◌, ap,
}
use homebrain.Text.{Text}
use homebrain.Probe.{
  SessionApi, ProbeError, connection_timeout, Offered, offered, not_offered, Created, answered,
  not_answered, Line, connected_end, failed_end, apply_stage, create_stage, offer_stage, run_probe,
}
use homebrain.Probe.Peer.{
  Pion, Callback, Setting, signal_of, call_back, first_signal, await_connection, pion_probe,
}

abbrev kept : Option (Option ProbeError) → Option (Option ProbeError) → Option (Option ProbeError)
kept none later = later
kept (some result) later = some result

call_back-first_signal :
    (cs : List Callback) (buffer : Option (Option ProbeError))
    → call_back cs buffer ≡ kept buffer (first_signal cs)
unfolding call_back first_signal
call_back-first_signal [] none = refl
call_back-first_signal [] (some result) = refl
call_back-first_signal (c ∷ cs) none = elim (Option-cases (signal_of c)) [
  | inl e ↦ rw (e, first_signal) (call_back-first_signal cs none)
  | inr (r, e) ↦ rw (e, first_signal) (call_back-first_signal cs (some r))
]
call_back-first_signal (c ∷ cs) (some result) = elim (Option-cases (signal_of c)) [
  | inl e ↦ rw e (call_back-first_signal cs (some result))
  | inr (r, e) ↦ rw e (call_back-first_signal cs (some result))
]

call_back-append :
    (cs ds : List Callback) (buffer : Option (Option ProbeError))
    → call_back ds (call_back cs buffer) ≡ call_back (cs ++ ds) buffer
unfolding call_back
call_back-append [] ds buffer = refl
call_back-append (c ∷ cs) ds buffer = call_back-append cs ds _

-- What ApplyAnswerAndWait returns by the first signal.
abbrev pub result_of : Bool → Option (Option ProbeError) → Option ProbeError
result_of deadline_first none = some connection_timeout
result_of deadline_first (some result) = if deadline_first then some connection_timeout else result

offer-connection :
    (setting : Setting) (p : Pion) (sdp : Text)
    → ((pion_probe setting).offer p).2 ≡ offered sdp
    → ((pion_probe setting).offer p).0.connection ≡ call_back setting.while_offering p.connection
unfolding pion_probe
offer-connection setting p sdp h = ground arith

apply_answer_and_wait-result :
    (setting : Setting) (p : Pion) (answer : Text)
    → setting.remote_set ≡ true
    → ((pion_probe setting).apply_answer_and_wait answer p).2
      ≡ result_of setting.deadline_first (call_back setting.while_waiting p.connection)
unfolding pion_probe
apply_answer_and_wait-result setting p answer remote =
    rw remote (await_result (call_back setting.while_waiting p.connection))
  where
    await_result :
        (b : Option (Option ProbeError))
        → await_connection setting b ≡ result_of setting.deadline_first b
    await_result none = refl
    await_result (some r) = refl

-- A probe that has made its offer waits for the first callback that signals anything, also one that
-- came while it offered: that one decides, whatever comes later, unless the deadline is taken.
pub apply_answer_and_wait-first_signal :
    (setting : Setting) (p : Pion) (sdp answer : Text)
    → p.connection ≡ none
    → ((pion_probe setting).offer p).2 ≡ offered sdp
    → setting.remote_set ≡ true
    → ((pion_probe setting).apply_answer_and_wait answer ((pion_probe setting).offer p).0).2
      ≡ result_of setting.deadline_first
          (first_signal (setting.while_offering ++ setting.while_waiting))
apply_answer_and_wait-first_signal setting p sdp answer fresh h remote =
    let offering = setting.while_offering in
    let waiting = setting.while_waiting in
    apply_answer_and_wait-result setting ((pion_probe setting).offer p).0 answer remote
    ∙ ap (result_of setting.deadline_first) (
        ap (call_back waiting) (offer-connection setting p sdp h)
        ∙ call_back-append offering waiting p.connection
        ∙ ap (call_back (offering ++ waiting)) fresh
        ∙ call_back-first_signal (offering ++ waiting) none)

offer-closed : (setting : Setting) (p : Pion) → ((pion_probe setting).offer p).0.closed ≡ p.closed
unfolding pion_probe
offer-closed setting p = ground arith

apply_answer_and_wait-closed :
    (setting : Setting) (p : Pion) (answer : Text)
    → ((pion_probe setting).apply_answer_and_wait answer p).0.closed ≡ p.closed
unfolding pion_probe
apply_answer_and_wait-closed setting p answer = ground arith

close-closed : (setting : Setting) (p : Pion) → ((pion_probe setting).close p).closed ≡ p.closed + 1
unfolding pion_probe
close-closed setting p = refl

module _ {S : Type 0} (api : SessionApi S) (setting : Setting) (id : Text) where
  connected_end-peer :
      (x : S × Bool) (p : Pion) (log : List Line)
      → (connected_end api (pion_probe setting) id x p log).peer ≡ p
  unfolding connected_end
  connected_end-peer (s, true) p log = refl
  connected_end-peer (s, false) p log = refl

  apply_stage-peer :
      (result : Option ProbeError) (s : S) (p : Pion) (log : List Line)
      → (apply_stage api (pion_probe setting) id result s p log).peer ≡ p
  unfolding apply_stage failed_end
  apply_stage-peer none s p log = connected_end-peer (api.delete id s) p _
  apply_stage-peer (some e) s p log = refl

  create_stage-closed :
      (x : S × Created) (p : Pion) (log : List Line)
      → (create_stage api (pion_probe setting) id x p log).peer.closed ≡ p.closed
  unfolding create_stage failed_end
  create_stage-closed (s, not_answered false e) p log = refl
  create_stage-closed (s, not_answered true e) p log = refl
  create_stage-closed (s, answered answer) p log =
      let (p', lines, result) = (pion_probe setting).apply_answer_and_wait answer p in
      ap (λ (q : Pion). q.closed) (apply_stage-peer result s p' _)
      ∙ apply_answer_and_wait-closed setting p answer

  offer_stage-closed :
      (x : Pion × List Line × Offered) (s : S)
      → (offer_stage api (pion_probe setting) id x s).peer.closed ≡ x.0.closed
  unfolding offer_stage
  offer_stage-closed (p, lines, not_offered e) s = refl
  offer_stage-closed (p, lines, offered sdp) s = create_stage-closed (api.create id sdp s) p lines

  pub run_probe_closes :
      (s : S) (p : Pion) → (run_probe api (pion_probe setting) id s p).peer.closed ≡ p.closed + 1
  unfolding run_probe
  run_probe_closes s p =
      close-closed setting
        (offer_stage api (pion_probe setting) id ((pion_probe setting).offer p) s).peer
      ∙ ap (λ (n : ℕ). n + 1)
          (offer_stage-closed ((pion_probe setting).offer p) s ∙ offer-closed setting p)
