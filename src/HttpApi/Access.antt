-- ===== src/HttpApi/Access.antt =====
-- Who reaches the sessions through the HTTP API, and with what.
use homebrain.Prelude.{
  Bool, true, false, not, ◌&&◌, List, [], ◌∷◌, ◌≡◌, inl, inr, refl, arith, Bool-cases,
}
use homebrain.Text.{Text, codes, is_blank, text_eq, text_eq_iff, has_prefix, join}
use homebrain.HttpApi.{
  SessionService, Request, Response, Route, error_response, create_session, create_decoded,
  connected, session, dispatch, serve_http, is_authorized, is_session_id, route, decode_json,
  respond, Answer, answered, status_is, is_json, health_route, sessions_route, connected_route,
  session_route, unknown_route, elsewhere, done, refused, Decoded, refused_with, request_is,
}

module _ {S : Type 0} (service : SessionService S) (P : S → Type 0) where
  -- The property is kept by every call of the service with an id that sessionIDPattern accepts.
  pub record IsKept : Type 0 where
    pub create :
        (id offer : Text) (s : S) → is_session_id id ≡ true → P s → P (service.create id offer s).0
    pub mark :
        (id : Text) (s : S) → is_session_id id ≡ true → P s → P (service.mark_connected id s).0
    pub close : (id : Text) (s : S) → is_session_id id ≡ true → P s → P (service.close id s).0

  respond_keeps :
      {A : Type 0} (f : A → Response) (x : S × Answer A) → P x.0 → P (respond service f x).0
  unfolding respond
  respond_keeps f (s, done a) h = h
  respond_keeps f (s, refused e) h = h

  module _ (kept : IsKept) where
    create_decoded_keeps : (d : Decoded) (s : S) → P s → P (create_decoded service d s).0
    unfolding create_decoded
    create_decoded_keeps (refused_with response) s h = h
    create_decoded_keeps (request_is id offer) s h = elim (Bool-cases (is_session_id id)) [
      | inr e ↦ rw e h
      | inl e ↦ rw e (elim (Bool-cases (is_blank offer)) [
        | inl b ↦ rw b h
        | inr b ↦
            rw b
              (respond_keeps (answered id) (service.create id offer s) (kept.create id offer s e h))
      ])
    ]

    create_session_keeps : (r : Request) (s : S) → P s → P (create_session service r s).0
    unfolding create_session
    create_session_keeps r s h = elim (Bool-cases (text_eq r.method (codes "POST"))) [
      | inr e ↦ rw e h
      | inl e ↦ rw e (elim (Bool-cases (is_json r.media_type)) [
        | inr j ↦ rw j h
        | inl j ↦ rw j (create_decoded_keeps (decode_json r.first_value r.rest) s h)
      ])
    ]

    connected_keeps : (id : Text) (r : Request) (s : S) → P s → P (connected service id r s).0
    unfolding connected
    connected_keeps id r s h = elim (Bool-cases (text_eq r.method (codes "POST"))) [
      | inr e ↦ rw e h
      | inl e ↦ rw e (elim (Bool-cases (is_session_id id)) [
        | inr j ↦ rw j h
        | inl j ↦ rw j (
            respond_keeps (λ _. status_is (codes "ok")) (service.mark_connected id s)
              (kept.mark id s j h))
      ])
    ]

    session_keeps : (id : Text) (r : Request) (s : S) → P s → P (session service id r s).0
    unfolding session
    session_keeps id r s h = elim (Bool-cases (text_eq r.method (codes "DELETE"))) [
      | inr e ↦ rw e h
      | inl e ↦ rw e (elim (Bool-cases (is_session_id id)) [
        | inr j ↦ rw j h
        | inl j ↦ rw j (
            respond_keeps (λ _. status_is (codes "closed")) (service.close id s)
              (kept.close id s j h))
      ])
    ]

    dispatch_keeps : (to : Route) (r : Request) (s : S) → P s → P (dispatch service to r s).0
    unfolding dispatch
    dispatch_keeps health_route r s h = h
    dispatch_keeps sessions_route r s h = create_session_keeps r s h
    dispatch_keeps (connected_route id) r s h = connected_keeps id r s h
    dispatch_keeps (session_route id) r s h = session_keeps id r s h
    dispatch_keeps unknown_route r s h = h
    dispatch_keeps elsewhere r s h = h

    -- Whatever the request, a property of the service's state that every call with a well-formed id
    -- keeps is kept by the handler: no other id ever reaches the service.
    pub serve_http_keeps :
        (digest : Text → Text) (token : Text) (r : Request) (s : S)
        → P s
        → P (serve_http service digest token r s).0
    unfolding serve_http
    serve_http_keeps digest token r s h =
        let path = join r.segments (codes "/") in
        elim (Bool-cases
          (has_prefix path (codes "/v1/") && not (is_authorized digest token r.authorization))) [
            | inl e ↦ rw e h
            | inr e ↦ rw e (dispatch_keeps (route r.segments) r s h)
          ]

abbrev reaches : Route → Bool
reaches sessions_route = true
reaches (connected_route id) = true
reaches (session_route id) = true
reaches _ = false

route_v1_path :
    (segments : List Text)
    → reaches (route segments) ≡ true
    → has_prefix (join segments (codes "/")) (codes "/v1/") ≡ true
unfolding route join
route_v1_path [] h = absurd (ground arith)
route_v1_path (a ∷ []) h = absurd (ground arith)
route_v1_path (a ∷ b ∷ []) h = ground arith
route_v1_path ((x ∷ a) ∷ b ∷ c ∷ more) h = absurd (ground arith)
route_v1_path ([] ∷ b ∷ c ∷ more) h = elim (Bool-cases (text_eq b (codes "v1"))) [
  | inl e ↦ rw ((text_eq_iff b (codes "v1")).0 e) refl
  | inr e ↦ absurd (ground arith)
]

elsewhere_changes_nothing :
    {S : Type 0} (service : SessionService S) (to : Route) (r : Request) (s : S)
    → reaches to ≡ false
    → (dispatch service to r s).0 ≡ s
unfolding dispatch
elsewhere_changes_nothing service health_route r s h = refl
elsewhere_changes_nothing service unknown_route r s h = refl
elsewhere_changes_nothing service elsewhere r s h = refl
elsewhere_changes_nothing service sessions_route r s h = absurd (ground arith)
elsewhere_changes_nothing service (connected_route id) r s h = absurd (ground arith)
elsewhere_changes_nothing service (session_route id) r s h = absurd (ground arith)

-- No request without the token changes anything, whatever its method, path and body: the sessions
-- are behind paths that begin with "/v1/", and such a path is refused with status 401.
pub unauthorized_changes_nothing :
    {S : Type 0} (service : SessionService S) (digest : Text → Text) (token : Text) (r : Request)
    (s : S)
    → is_authorized digest token r.authorization ≡ false
    → ((serve_http service digest token r s).0 ≡ s)
      × (has_prefix (join r.segments (codes "/")) (codes "/v1/") ≡ true
          → (serve_http service digest token r s).1 ≡ error_response 401 (codes "unauthorized"))
unfolding serve_http
unauthorized_changes_nothing service digest token r s h = (
  elim (Bool-cases (has_prefix (join r.segments (codes "/")) (codes "/v1/"))) [
    | inl e ↦ rw e (rw h refl)
    | inr e ↦ rw e (
        elsewhere_changes_nothing service (route r.segments) r s
          (ground (arith, route_v1_path r.segments)))
  ],
  λ e. rw e (rw h refl),
)
