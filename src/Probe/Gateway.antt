-- ===== src/Probe/Gateway.antt =====
-- The probe against the gateway: the requests of its client served by internal/httpapi/handler.go
-- over the Manager, as cmd/rtc-server/main.go puts them together, one after the other. The network
-- loses neither a request nor a response.
use homebrain.Prelude.{
  ℕ, Bool, true, false, Option, none, some, [], ◌∷◌, ◌++◌, ◌≡◌, ◌⊎◌, refl, arith, ap, is_empty,
  Bool-cases, Option-cases, inl, inr, drop-length-append,
}
use mathlib.Core.Path.{subst}
use homebrain.Text.{Text, codes, text_eq_refl, join, is_blank}
use homebrain.HttpApi.{
  SessionService, ServiceError, Answer, done, refused, Response, answered, status_is, respond,
  serve_http, is_session_id, route, decode_json, is_authorized,
}
use homebrain.HttpApi.Gateway.{Sessions, manager_service, create-done, create-refused}
use homebrain.Manager.{World, step, begin, not_made, closes, session_under, remove_entry, calling}
use homebrain.Manager.Leaks.{closes_shuts}
use homebrain.Manager.Table.{lookup, lookup-cons, lookup-delete}
use homebrain.Probe.{Created, run_probe, PeerProbe, SessionApi}
use homebrain.Probe.Client.{
  HttpRequest, HttpResponse, Client, create_http, delete_http, is_success, sessions_path,
  session_client, bearer, created_response-not_created, deleted_response-deleted, path_escape,
}
use homebrain.Probe.Cleanup.{IsHonest, IsTidy, run_probe-IsTidy}
use homebrain.Probe.Wire.{
  request_of, response_of, create_segments, session_segments, session_id_bytes,
}

module _ (sessions : Sessions) (digest : Text → Text) (token base : Text) where
  unfoldable pub gateway_send : HttpRequest → World → World × Option HttpResponse
  unfolding request_of response_of
  gateway_send r w =
      let (w', response) =
        serve_http (manager_service sessions) digest token (request_of base r) w in
      (w', some (response_of response))

session_id-is_empty : (id : Text) → is_session_id id ≡ true → is_empty id ≡ false
unfolding is_session_id
session_id-is_empty [] h = absurd (cc)
session_id-is_empty (c ∷ s) h = refl

abbrev RefusedBy : Response → Type 0
RefusedBy r = is_success (response_of r).status ≡ false

module _ {S : Type 0} (service : SessionService S) (digest : Text → Text)
    (token base secret id : Text) (known : is_session_id id ≡ true) where
  abbrev client : Client
  client = record { base_url = base; token = secret }

  -- A Create reaches the service, or the handler refuses it and changes nothing.
  served_create :
      (offer : Text) (s : S)
      → let x = serve_http service digest token (request_of base (create_http client id offer)) s in
        ((x.0 ≡ s) × RefusedBy x.1)
        ⊎ (x ≡ respond service (answered id) (service.create id offer s))
  unfolding serve_http request_of create_http decode_json route join response_of
  served_create offer s = rw (drop-length-append base sessions_path) (
      rw create_segments (
        rw known (elim (Bool-cases (is_authorized digest token (bearer secret))) [
          | inr e ↦ rw e (inl (refl, refl))
          | inl e ↦ rw e (elim (Bool-cases (is_blank offer)) [
            | inl b ↦ rw b (inl (refl, refl))
            | inr b ↦ rw b (inr refl)
          ])
        ])))

  served_delete :
      (s : S)
      → let x = serve_http service digest token (request_of base (delete_http client id)) s in
        ((x.0 ≡ s) × RefusedBy x.1)
        ⊎ (x ≡ respond service (λ _. status_is (codes "closed")) (service.close id s))
  unfolding serve_http request_of delete_http route join response_of
  served_delete s = rw (drop-length-append base (sessions_path ++ (codes "/" ++ path_escape id))) (
      rw (session_segments id (session_id_bytes id known)) (
        rw (session_id-is_empty id known) (
          rw known (elim (Bool-cases (is_authorized digest token (bearer secret))) [
            | inr e ↦ rw e (inl (refl, refl))
            | inl e ↦ rw e (inr refl)
          ]))))

-- No session stands under the id, nor a Create call that is under way.
abbrev pub IsGone : Text → World → Type 0
IsGone id w = lookup id w.manager.table ≡ none

close-IsGone : (id : Text) (w : World) → IsGone id (step (closes id) w)
unfolding step
close-IsGone id w = elim (Option-cases (session_under id w.manager)) [
  | inl e ↦ rw e (ground (arith, lookup-delete id id w.manager.table, text_eq_refl id))
  | inr (s, e) ↦ (closes_shuts id w s e).0
]

Answer-cases :
    {A : Type 0} (a : Answer A) → ((x : A) × (a ≡ done x)) ⊎ ((e : ServiceError) × (a ≡ refused e))
Answer-cases (done x) = inl (x, refl)
Answer-cases (refused e) = inr (e, refl)

-- The entry that Create has made for an id.
record IsEntered (id : Text) (w : World) (entry : ℕ) : Type 0 where
  stage : w.stage entry ≡ calling
  named : w.id_of entry ≡ id
  found : lookup id w.manager.table ≡ some entry

begin-IsEntered :
    (id : Text) (w : World) → IsGone id w → IsEntered id (step (begin id) w) w.manager.next_entry
unfolding step
begin-IsEntered id w gone = record {
  stage = ground (arith, gone);
  named = ground (arith, gone);
  found =
      ground (arith, gone, lookup-cons id id w.manager.next_entry w.manager.table, text_eq_refl id);
}

not_made-IsGone :
    (id : Text) (w : World) (entry : ℕ) → IsEntered id w entry → IsGone id (step (not_made entry) w)
unfolding step remove_entry
not_made-IsGone id w entry h =
    ground (arith, h.stage, h.named, h.found, lookup-delete id id w.manager.table, text_eq_refl id)

module _ (sessions : Sessions) where
  create-IsGone :
      (id offer : Text) (w : World) (e : ServiceError)
      → IsGone id w
      → ((manager_service sessions).create id offer w).1 ≡ refused e
      → IsGone id ((manager_service sessions).create id offer w).0
  create-IsGone id offer w e gone h = elim (Answer-cases (sessions.answer id offer)) [
    | inl (answer, n) ↦ absurd (
        cc (
          h,
          ap (λ (x : World × Answer Text). x.1) (create-done sessions id offer w answer gone n),
        ))
    | inr (e', n) ↦
        rw (create-refused sessions id offer w e' gone n)
          (not_made-IsGone id (step (begin id) w) w.manager.next_entry (begin-IsEntered id w gone))
  ]

  answered_is_success : (id a : Text) → is_success (response_of (answered id a)).status ≡ true
  unfolding response_of
  answered_is_success id a = refl

  service_close-IsGone :
      (id : Text) (w : World) → IsGone id ((manager_service sessions).close id w).0
  unfolding manager_service
  service_close-IsGone id w = close-IsGone id w

  respond_state :
      {A : Type 0} (f : A → Response) (x : World × Answer A)
      → (respond (manager_service sessions) f x).0 ≡ x.0
  unfolding respond
  respond_state f (w, done a) = refl
  respond_state f (w, refused e) = refl

  respond_refused :
      (f : Text → Response) (x : World × Answer Text)
      → ((a : Text) → is_success (response_of (f a)).status ≡ true)
      → RefusedBy (respond (manager_service sessions) f x).1
      → (e : ServiceError) × (x.1 ≡ refused e)
  unfolding respond
  respond_refused f (w, done a) ok h = absurd (cc (h, ok a))
  respond_refused f (w, refused e) ok h = (e, refl)

  refused-IsGone :
      (id offer : Text) (w : World) (x : World × Response)
      → IsGone id w
      → ((x.0 ≡ w) × RefusedBy x.1)
        ⊎ (x
            ≡ respond
                (manager_service sessions)
                (answered id)
                ((manager_service sessions).create id offer w))
      → RefusedBy x.1
      → IsGone id x.0
  refused-IsGone id offer w x gone (inl (same, _)) h = rw same gone
  refused-IsGone id offer w x gone (inr e) h =
      let created = (manager_service sessions).create id offer w in
      let (error, k) =
        respond_refused (answered id) created (λ a. answered_is_success id a)
          (subst (λ (y : World × Response). RefusedBy y.1) e h) in
      rw e (rw (respond_state (answered id) created) (create-IsGone id offer w error gone k))

  closed-IsGone :
      (id : Text) (w : World) (x : World × Response)
      → ((x.0 ≡ w) × RefusedBy x.1)
        ⊎ (x
            ≡ respond
                (manager_service sessions)
                (λ _. status_is (codes "closed"))
                ((manager_service sessions).close id w))
      → is_success (response_of x.1).status ≡ true
      → IsGone id x.0
  closed-IsGone id w x (inl (_, no')) h = absurd (cc (no', h))
  closed-IsGone id w x (inr e) h = rw e (
      rw (respond_state (λ _. status_is (codes "closed")) ((manager_service sessions).close id w))
        (service_close-IsGone id w))

  module _ (digest : Text → Text) (token base secret id : Text)
      (known : is_session_id id ≡ true) where
    abbrev api : SessionApi World
    api =
        session_client (gateway_send sessions digest token base)
          (record { base_url = base; token = secret })

    api-IsHonest : {P : Type 0} (peer : PeerProbe P) → IsHonest api peer id (IsGone id)
    unfolding session_client gateway_send
    api-IsHonest peer = record {
      create_none = λ offer w w' e gone h.
          let request =
            request_of base (create_http (record { base_url = base; token = secret }) id offer) in
          let x = serve_http (manager_service sessions) digest token request w in
          subst (IsGone id) (ap (λ (y : World × Created). y.0) h) (
            refused-IsGone id offer w x gone
              (served_create (manager_service sessions) digest token base secret id known offer w)
              (created_response-not_created (response_of x.1) e
                (ap (λ (y : World × Created). y.1) h)));
      delete_done = λ w w' h.
          let request =
            request_of base (delete_http (record { base_url = base; token = secret }) id) in
          let x = serve_http (manager_service sessions) digest token request w in
          subst (IsGone id) (ap (λ (y : World × Bool). y.0) h) (
            closed-IsGone id w x
              (served_delete (manager_service sessions) digest token base secret id known w)
              (deleted_response-deleted (response_of x.1) (ap (λ (y : World × Bool). y.1) h)));
    }

    -- Whatever the peer connection does and whichever token the probe has: a run of the probe against
    -- the gateway, with an id that nothing stands under, leaves no session and no entry behind, or
    -- reports cleanup_failed.
    pub probe_leaves_nothing :
        {P : Type 0} (peer : PeerProbe P) (w : World) (p : P)
        → IsGone id w
        → IsTidy api peer id (IsGone id) (run_probe api peer id w p)
    probe_leaves_nothing peer w p gone =
        run_probe-IsTidy api peer id (IsGone id) (api-IsHonest peer) w p gone
