-- ===== src/Probe/Leftovers.antt =====
-- `run` of cmd/rtc-probe/main.go against the gateway: what it leaves of the session that it makes.
use homebrain.Prelude.{
  ℕ, true, ◌||◌, Option, none, some, List, ◌++◌, ◌≡◌, ◌⊎◌, arith, is_empty, inl, inr, Bool-cases,
  Option-cases, All, length,
}
use mathlib.Core.Path.{subst}
use homebrain.Text.{Text, codes}
use homebrain.HttpApi.{is_session_id}
use homebrain.HttpApi.Gateway.{Sessions}
use homebrain.Manager.{World}
use homebrain.Probe.{exit_success}
use homebrain.Probe.Cleanup.{Reports}
use homebrain.Probe.Client.{Client, Url, new_session_client, trim_slashes}
use homebrain.Probe.Gateway.{IsGone, gateway_send, probe_leaves_nothing}
use homebrain.Probe.Main.{
  Library, Outcome, NewProbe, hex, new_session_id, new_pion_probe, parse_include_video, run_peer,
  run,
}
use homebrain.Probe.NewId.{IsByte, probe_id-is_session_id}
use homebrain.Probe.Peer.{Pion, Setting, pion_probe}

new_session_client-base :
    (parse_url : Text → Option Url) (base_url token : Text) (c : Client)
    → new_session_client parse_url base_url token ≡ some c
    → record { base_url = trim_slashes base_url; token = token } ≡ c
unfolding new_session_client
new_session_client-base parse_url base_url token c h = ground arith

-- The session is gone, or the log says that it may not be; and it is gone behind exit code 0.
pub record IsLeft (id : Text) (o : Outcome World) : Type 0 where
  pub tidy : IsGone id o.api ⊎ Reports o.log
  pub success : o.exit ≡ exit_success → IsGone id o.api

module _ (sessions : Sessions) (digest : Text → Text) (token : Text) where
  run_peer-IsLeft :
      (p : Option Pion) (made : NewProbe) (id base secret : Text) (c : Client) (setting : Setting)
      (w : World)
      → is_session_id id ≡ true
      → record { base_url = base; token = secret } ≡ c
      → IsGone id w
      → IsLeft id (run_peer (gateway_send sessions digest token base) p made (some id) c setting w)
  unfolding run_peer
  run_peer-IsLeft none made id base secret c setting w known same gone = record {
    tidy = inl gone;
    success = λ _. gone;
  }
  run_peer-IsLeft (some p) made id base secret c setting w known same gone =
      let t =
        probe_leaves_nothing sessions digest token base secret id known (pion_probe setting) w p
          gone in
      subst
        (λ (d : Client).
          IsLeft id (
            run_peer (gateway_send sessions digest token base) (some p) made (some id) d setting w))
        same (record { tidy = t.tidy; success = t.success })

  -- Whatever the environment of the probe, the WebRTC library and the peer connection do: a run of
  -- the probe against the gateway that its base URL names, where every response arrives, leaves
  -- nothing under the id that it makes of eight random bytes, if nothing stood there before, or it
  -- reports cleanup_failed; and behind exit code 0 nothing is left.
  pub run_leaves_nothing :
      (getenv : Text → Text) (parse_url : Text → Option Url) (lib : Library) (random : List ℕ)
      (setting : Setting) (w : World)
      → All IsByte random
      → length random ≡ 8
      → IsGone (codes "rtc-probe-" ++ hex random) w
      → IsLeft (codes "rtc-probe-" ++ hex random) (
          run
            (gateway_send sessions digest token (trim_slashes (getenv (codes "RTC_SERVER_URL"))))
            getenv
            parse_url
            lib
            (some random)
            setting
            w)
  unfolding run new_session_id
  run_leaves_nothing getenv parse_url lib random setting w bytes eight gone =
      let base_url = getenv (codes "RTC_SERVER_URL") in
      let secret = getenv (codes "RTC_SERVER_TOKEN") in
      let video = getenv (codes "RTC_PROBE_INCLUDE_VIDEO") in
      elim (Bool-cases (is_empty base_url || is_empty secret)) [
        | inl e ↦ rw e (record { tidy = inl gone; success = λ _. gone })
        | inr e ↦ rw e (elim (Option-cases (parse_include_video video)) [
          | inl f ↦ rw f (record { tidy = inl gone; success = λ _. gone })
          | inr (v, f) ↦ rw f (elim (Option-cases (new_session_client parse_url base_url secret)) [
            | inl g ↦ rw g (record { tidy = inl gone; success = λ _. gone })
            | inr (client, g) ↦ rw g (
                run_peer-IsLeft (new_pion_probe lib v).probe (new_pion_probe lib v)
                  (codes "rtc-probe-" ++ hex random) (trim_slashes base_url) secret client setting w
                  (probe_id-is_session_id random bytes eight)
                  (new_session_client-base parse_url base_url secret client g) gone)
          ])
        ])
      ]
